-- ===== src/Generation/Identity/Laws.antt =====
-- When an identity is accepted, in terms of the digest's bytes, and that comparison is equality.
use contract_conformance_tes.Base.{
  ℕ, ◌≤◌, ◌<◌, ◌≡◌, ◌↔◌, ◌⊎◌, true, ok, Text, text_eq_iff, length, All, all_iff, arith,
}
use contract_conformance_tes.Generation.Identity.{
  is_hex_byte, is_canonical_sha256, validate, identity_eq,
}
use contract_conformance_tes.Generation.Types.{GenerationIdentity}

-- A digit or a letter from a to f, as a byte.
abbrev pub IsHexByte : ℕ → Type 0
IsHexByte b = (b'0' ≤ b) × (b ≤ b'9') ⊎ (b'a' ≤ b) × (b ≤ b'f')

-- A lower-case hexadecimal digest of 256 bits.
pub record IsDigest (value : Text) : Type 0 where
  pub size : length value ≡ 64
  pub hex : All IsHexByte value

-- An identity that the code accepts.
pub record IsIdentity (i : GenerationIdentity) : Type 0 where
  pub positive : 0 < i.generation
  pub digest : IsDigest i.generation_sha256

is_hex_byte_iff : (b : ℕ) → (is_hex_byte b ≡ true) ↔ IsHexByte b
is_hex_byte_iff b = ground arith

pub is_canonical_sha256_iff : (value : Text) → (is_canonical_sha256 value ≡ true) ↔ IsDigest value
unfolding is_canonical_sha256
is_canonical_sha256_iff value = ground (arith, all_iff IsHexByte is_hex_byte is_hex_byte_iff value)

pub validate-IsIdentity : (i : GenerationIdentity) → (validate i ≡ ok tt) ↔ IsIdentity i
unfolding validate
validate-IsIdentity i = ground (arith, is_canonical_sha256_iff i.generation_sha256)

-- A validation that does not fail returns the unit value.
pub validate-ok : (i : GenerationIdentity) → IsIdentity i → validate i ≡ ok tt
validate-ok i = (validate-IsIdentity i).1

pub identity_eq_iff : (a b : GenerationIdentity) → (identity_eq a b ≡ true) ↔ (a ≡ b)
unfolding identity_eq
identity_eq_iff a b = ground (arith, text_eq_iff a.generation_sha256 b.generation_sha256)
