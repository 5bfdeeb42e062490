-- ===== src/Policy.antt =====
-- tools/verify_my_ai_170_policy.rs: the credential policy must state its invariants and hold no
-- text that looks like a token. The document that the build includes is an argument.
pub mod Laws
pub mod Faults
use contract_conformance_tes.Base.{
  ℕ, if◌then◌else◌, List, [], ◌∷◌, ◌++◌, Result, ok, err, exit_status, ◌>>=◌, ◌>>◌, Text, bytes,
  contains,
}

-- The texts of the first loop, of the second, and the prefixes that the third one builds.
abbrev pub required_texts : List Text
required_texts =
    bytes "Credentials are runtime inputs, never repository documentation."
    ∷ bytes "Do not place live or credential-shaped token literals"
    ∷ bytes
        "Treat any credential copied into source control, chat, an issue, or a transcript as exposed material."
    ∷ bytes "Revocation or rotation is a human-authorized operation."
    ∷ []

abbrev pub forbidden_texts : List Text
forbidden_texts = bytes "here is an api token" ∷ []

abbrev pub token_prefixes : List Text
token_prefixes =
    (bytes "gh" ++ bytes "p_")
    ∷ (bytes "github" ++ bytes "_pat_")
    ∷ (bytes "lin" ++ bytes "_api_")
    ∷ (bytes "nt" ++ bytes "n_")
    ∷ []

-- An error, with the text that its message shows.
pub data PolicyError : Type 0 where
  missing_invariant legacy_text token_prefix : Text → PolicyError

unfoldable pub check_required : Text → List Text → Result (Unit {0}) PolicyError
check_required policy [] = ok tt
check_required policy (required ∷ rest) =
    let later = check_required policy rest in
    if contains policy required then later else err (missing_invariant required)

-- The second and the third loop differ in their error only.
unfoldable pub check_absent :
    (Text → PolicyError) → Text → List Text → Result (Unit {0}) PolicyError
check_absent error policy [] = ok tt
check_absent error policy (forbidden ∷ rest) =
    let later = check_absent error policy rest in
    if contains policy forbidden then err (error forbidden) else later

unfoldable pub verify_with :
    List Text → List Text → List Text → Text → Result (Unit {0}) PolicyError
verify_with required forbidden prefixes policy = do
  check_required policy required
  check_absent legacy_text policy forbidden
  check_absent token_prefix policy prefixes

unfoldable pub verify : Text → Result (Unit {0}) PolicyError
verify = verify_with required_texts forbidden_texts token_prefixes

-- The exit status of `main`.
unfoldable pub main : Text → ℕ
main policy = exit_status (verify policy)
