-- ===== src/Repository/Rules.antt =====
-- What the check demands of the repository, in its order, each demand with the error for it.
use contract_conformance_tes.Base.{
  ◌≡◌, ◌≢◌, ◌≤◌, ◌⊎◌, true, Option, none, some, List, [], ◌∷◌, ◌++◌, All, length, Rule, under, Text,
  bytes, Has, Holds,
}
use contract_conformance_tes.Repository.{
  Document, mapping, unmapped, no_mapping, Json, string, other, Content, decoded, undecodable,
  unreadable, Entry, Checkout, RepositoryError, no_metadata, no_content, missing_paths,
  no_test_module, conflict_marker, credential_content, missing_phrase, unsafe_workflow,
  unpinned_actions, operation_drift, unbound_organization, missing_key, required, phrases, actions,
  missing,
}
use contract_conformance_tes.Repository.Secrets.{BeginsMarker, IsCredential}
use contract_conformance_tes.Repository.Forms.{IsPinned}
use contract_conformance_tes.Repository.Patterns.Matching.{StartsLine}
use contract_conformance_tes.Repository.Uses.{Uses}

abbrev pub RepositoryRules : Type 1
RepositoryRules = List (Rule RepositoryError)

-- A conflict marker at the start of a line; the form of a credential anywhere.
abbrev pub HasMarker : Text → Type 0
HasMarker text =
    (before : Text) × (rest : Text) × (text ≡ before ++ rest)
    × StartsLine true before
    × BeginsMarker rest

abbrev pub HasCredential : Text → Type 0
HasCredential text =
    (before : Text) × (found : Text) × (after : Text) × (text ≡ before ++ (found ++ after))
    × IsCredential found

abbrev pub EndsWith : Text → Text → Type 0
EndsWith s t = (before : Text) × (s ≡ before ++ t)

-- A value is there whose text, as `str` gives it, ends in "-test".
abbrev pub EndsWithTest : Option Json → Type 0
EndsWithTest value =
    (t : Text) × ((value ≡ some (string t)) ⊎ (value ≡ some (other t))) × EndsWith t (bytes "-test")

abbrev pub content_rules : Text → Content → RepositoryRules
content_rules path unreadable = (⊥, no_content path) ∷ []
content_rules path undecodable = []
content_rules path (decoded text) =
    ((¬ HasMarker text), conflict_marker path)
    ∷ ((¬ HasCredential text), credential_content path)
    ∷ []

-- The entries that are looked at.
abbrev pub IsExamined : Entry → Type 0
IsExamined entry =
    (entry.is_file ≡ true) × (¬ Has entry.parts (bytes ".git")) × (entry.size ≤ 1000000)

abbrev pub entries_rules : List Entry → RepositoryRules
entries_rules [] = []
entries_rules (entry ∷ entries) =
    under (IsExamined entry) (content_rules entry.path entry.content) ++ entries_rules entries

abbrev pub phrases_rules : Text → List Text → RepositoryRules
phrases_rules agents [] = []
phrases_rules agents (phrase ∷ rest) =
    (Holds agents phrase, missing_phrase phrase) ∷ phrases_rules agents rest

abbrev pub workflow_rules : Text → RepositoryRules
workflow_rules workflow =
    (
      Holds workflow (bytes "permissions:\n  contents: read")
          × (¬ Holds workflow (bytes "pull_request_target")),
      unsafe_workflow,
    )
    ∷ (
      (used : List Text) × Uses workflow used × (2 ≤ length used) × All IsPinned used,
      unpinned_actions (actions workflow),
    )
    ∷ []

abbrev pub IsKey : (Text → Option Json) → Text → Type 0
IsKey metadata key = (value : Json) × (metadata key ≡ some value)

abbrev pub metadata_rules : Document → RepositoryRules
metadata_rules unmapped = (⊥, no_mapping) ∷ []
metadata_rules (mapping metadata) =
    (
      metadata (bytes "bootstrap_operation") ≡ some (string (bytes "deep-test-fleet-20260808")),
      operation_drift,
    )
    ∷ (EndsWithTest (metadata (bytes "organization")), unbound_organization)
    ∷ (IsKey metadata (bytes "organization"), missing_key (bytes "organization"))
    ∷ (IsKey metadata (bytes "repository"), missing_key (bytes "repository"))
    ∷ (IsKey metadata (bytes "suite"), missing_key (bytes "suite"))
    ∷ []

-- A file that has to be read, and what follows from its text.
abbrev pub reading : Text → Content → (Text → RepositoryRules) → RepositoryRules
reading path (decoded text) rules = rules text
reading path _ rules = (⊥, no_content path) ∷ []

abbrev pub rules_with : Checkout → Document → RepositoryRules
rules_with root metadata =
    (All (λ path. root.exists path ≡ true) required, missing_paths (missing root))
    ∷ ((root.is_dir (bytes "tests") ≡ true) × (root.modules ≢ []), no_test_module)
    ∷ (entries_rules root.entries
        ++ reading (bytes "AGENTS.md") (root.read_text (bytes "AGENTS.md")) (λ agents.
          phrases_rules agents phrases
          ++ reading (bytes ".github/workflows/deep-tests.yml")
              (root.read_text (bytes ".github/workflows/deep-tests.yml"))
              (λ workflow. workflow_rules workflow ++ metadata_rules metadata)))

abbrev pub repository_rules : Checkout → RepositoryRules
repository_rules root = elim root.metadata [
  | none ↦ (⊥, no_metadata) ∷ []
  | some metadata ↦ rules_with root metadata
]
