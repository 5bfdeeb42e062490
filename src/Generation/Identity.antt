-- ===== src/Generation/Identity.antt =====
-- `GenerationIdentity`: construction, validation, comparison and the conversions from and to the
-- runtime's type.
pub mod Laws
use contract_conformance_tes.Base.{
  ℕ, Bool, ◌&&◌, ◌||◌, not, leb, ◌==◌, if◌then◌else◌, Result, ok, err, ◌>>=◌, Text, text_eq, length,
  all,
}
use contract_conformance_tes.Generation.Types.{
  GenerationIdentity, ActiveGenerationIdentity, GenerationError, zero_generation,
  invalid_generation_digest,
}

-- `byte.is_ascii_digit() || matches!(byte, b'a'..=b'f')`
abbrev pub is_hex_byte : ℕ → Bool
is_hex_byte byte = leb b'0' byte && leb byte b'9' || leb b'a' byte && leb byte b'f'

unfoldable pub is_canonical_sha256 : Text → Bool
is_canonical_sha256 value = length value == 64 && all is_hex_byte value

unfoldable pub validate : GenerationIdentity → Result (Unit {0}) GenerationError
validate self =
    if self.generation == 0
    then err zero_generation
    else if not (is_canonical_sha256 self.generation_sha256)
    then err (invalid_generation_digest self.generation)
    else ok tt

-- `GenerationIdentity::new`
unfoldable pub new : ℕ → Text → Result GenerationIdentity GenerationError
new generation generation_sha256 =
    let identity : GenerationIdentity = record {
      generation = generation;
      generation_sha256 = generation_sha256;
    } in
    validate identity >>= λ _. ok identity

-- The derived `PartialEq`: number and digest.
unfoldable pub identity_eq : GenerationIdentity → GenerationIdentity → Bool
identity_eq a b = a.generation == b.generation && text_eq a.generation_sha256 b.generation_sha256

-- The two `From` implementations.
unfoldable pub from_active : ActiveGenerationIdentity → GenerationIdentity
from_active identity = record {
  generation = identity.generation;
  generation_sha256 = identity.generation_sha256;
}

unfoldable pub to_active : GenerationIdentity → ActiveGenerationIdentity
to_active identity = record {
  generation = identity.generation;
  generation_sha256 = identity.generation_sha256;
}
