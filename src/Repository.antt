-- ===== src/Repository.antt =====
-- scripts/verify_repository.py: the checks of the repository itself. What json, pathlib and the
-- file system give is a parameter; the regular expressions are in Patterns, the lines in Lines.
pub mod Patterns
pub mod Lines
pub mod Expressions
pub mod Forms
pub mod Secrets
pub mod Rules
pub mod Paths
pub mod Uses
pub mod Parts
pub mod Laws
use contract_conformance_tes.Base.{
  ℕ, Bool, true, false, not, ◌&&◌, ◌||◌, ◌==◌, leb, if◌then◌else◌, Option, none, some, List, [],
  ◌∷◌, ◌++◌, all, length, Result, ok, err, ◌>>=◌, ◌>>◌, reject_if, exit_status, Text, bytes,
  text_eq, is_empty, contains, has, collect,
}
use contract_conformance_tes.Repository.Patterns.{
  Regex, one, empty, seq, alt, star, times, at_least, literal, fullmatch, search, search_lines,
}
use contract_conformance_tes.Repository.Expressions.{marker, credential, action_pattern}
use contract_conformance_tes.Repository.Lines.{splitlines, strip, after_first, ends_with}

-- A value of json: a text, or another with its `str`.
pub data Json : Type 0 where
  string other : Text → Json

-- What `json.loads` gives: a mapping, or a value without `get`.
pub data Document : Type 0 where
  mapping : (Text → Option Json) → Document
  unmapped : Document

-- What `read_text` gives: the text, an error of the decoder, or one of the system.
pub data Content : Type 0 where
  decoded : Text → Content
  undecodable unreadable : Content

-- What `ROOT.rglob("*")` yields, with what the loop asks of it.
pub record Entry : Type 0 where
  pub path : Text
  pub parts : List Text
  pub is_file : Bool
  pub size : ℕ
  pub content : Content

-- `metadata` is `json.loads` of project.json, if it can be read; `modules` is what
-- `glob("test_*.py")` finds.
pub record Checkout : Type 0 where
  pub metadata : Option Document
  pub exists : Text → Bool
  pub is_dir : Text → Bool
  pub modules : List Text
  pub entries : List Entry
  pub read_text : Text → Content

-- The ways to end other than by success, with what a message shows; the first three and the last
-- are exceptions of Python.
pub data RepositoryError : Type 0 where
  no_metadata no_mapping : RepositoryError
  no_content : Text → RepositoryError
  missing_paths : List Text → RepositoryError
  no_test_module : RepositoryError
  conflict_marker credential_content missing_phrase : Text → RepositoryError
  unsafe_workflow : RepositoryError
  unpinned_actions : List Text → RepositoryError
  operation_drift unbound_organization : RepositoryError
  missing_key : Text → RepositoryError

abbrev pub required : List Text
required =
    bytes "README.md"
    ∷ bytes "AGENTS.md"
    ∷ bytes "project.json"
    ∷ bytes "pyproject.toml"
    ∷ bytes ".zpkg.toml"
    ∷ bytes "docs/test-strategy.md"
    ∷ bytes "scripts/verify_repository.py"
    ∷ bytes ".github/workflows/deep-tests.yml"
    ∷ bytes "src/deep_tests/__init__.py"
    ∷ []

-- "3–10 relevant commits" has an en dash.
abbrev pub phrases : List Text
phrases =
    bytes "merge base"
    ∷ (bytes "3" ++ (226 ∷ 128 ∷ 147 ∷ []) ++ bytes "10 relevant commits")
    ∷ bytes "ours"
    ∷ bytes "theirs"
    ∷ bytes "Fail closed"
    ∷ []

abbrev pub absent_of : (Text → Bool) → List Text → List Text
absent_of exists [] = []
absent_of exists (path ∷ paths) =
    let rest = absent_of exists paths in if exists path then rest else path ∷ rest

-- The body of the loop over the entries, behind its first guard and whole.
unfoldable pub check_content : Text → Content → Result (Unit {0}) RepositoryError
check_content path unreadable = err (no_content path)
check_content path undecodable = ok tt
check_content path (decoded text) = do
  reject_if (search_lines true marker text) (conflict_marker path)
  reject_if (search credential text) (credential_content path)

unfoldable pub check_entry : Entry → Result (Unit {0}) RepositoryError
check_entry entry =
    if not entry.is_file || (has entry.parts (bytes ".git") || not (leb entry.size 1000000))
    then ok tt
    else check_content entry.path entry.content

unfoldable pub check_entries : List Entry → Result (Unit {0}) RepositoryError
check_entries [] = ok tt
check_entries (entry ∷ entries) = let later = check_entries entries in check_entry entry >> later

unfoldable pub check_phrases : Text → List Text → Result (Unit {0}) RepositoryError
check_phrases agents [] = ok tt
check_phrases agents (phrase ∷ rest) =
    let later = check_phrases agents rest in
    if contains agents phrase then later else err (missing_phrase phrase)

-- The actions of a workflow, from its lines.
abbrev pub uses : Text
uses = bytes "uses:"

abbrev pub actions_of : List Text → List Text
actions_of [] = []
actions_of (line ∷ lines) =
    let rest = actions_of lines in
    if contains line uses then strip (after_first uses line) ∷ rest else rest

unfoldable pub actions : Text → List Text
actions workflow = actions_of (splitlines workflow)

unfoldable pub check_workflow : Text → Result (Unit {0}) RepositoryError
check_workflow workflow = do
  reject_if
      (not (contains workflow (bytes "permissions:\n  contents: read"))
        || contains workflow (bytes "pull_request_target"))
      unsafe_workflow
  reject_if
      (not (leb 2 (length (actions workflow)))
        || not (all (fullmatch action_pattern) (actions workflow)))
      (unpinned_actions (actions workflow))

-- `value == t`, `str(value)` and `metadata[key]`
abbrev pub is_text : Text → Option Json → Bool
is_text t (some (string s)) = text_eq s t
is_text t _ = false

abbrev pub show : Option Json → Text
show none = []
show (some (string s)) = s
show (some (other s)) = s

abbrev pub is_key : (Text → Option Json) → Text → Bool
is_key metadata key = elim (metadata key) [ none ↦ false | some value ↦ true ]

unfoldable pub check_metadata : Document → Result (Unit {0}) RepositoryError
check_metadata unmapped = err no_mapping
check_metadata (mapping metadata) = do
  reject_if
      (not (is_text (bytes "deep-test-fleet-20260808") (metadata (bytes "bootstrap_operation"))))
      operation_drift
  reject_if (not (ends_with (show (metadata (bytes "organization"))) (bytes "-test")))
      unbound_organization
  reject_if (not (is_key metadata (bytes "organization"))) (missing_key (bytes "organization"))
  reject_if (not (is_key metadata (bytes "repository"))) (missing_key (bytes "repository"))
  reject_if (not (is_key metadata (bytes "suite"))) (missing_key (bytes "suite"))

abbrev pub content_of : Text → Content → Result Text RepositoryError
content_of path (decoded text) = ok text
content_of path _ = err (no_content path)

abbrev pub metadata_of : Option Document → Result Document RepositoryError
metadata_of none = err no_metadata
metadata_of (some metadata) = ok metadata

abbrev pub is_nil : List Text → Bool
is_nil [] = true
is_nil (_ ∷ _) = false

module _ (root : Checkout) where
  abbrev pub missing : List Text
  missing = collect (absent_of root.exists required)

  unfoldable pub verify : Result (Unit {0}) RepositoryError
  unfolding check_entries check_phrases check_workflow check_metadata
  verify = do
    metadata ← metadata_of root.metadata
    reject_if (not (is_nil missing)) (missing_paths missing)
    reject_if (not (root.is_dir (bytes "tests")) || is_nil root.modules) no_test_module
    check_entries root.entries
    agents ← content_of (bytes "AGENTS.md") (root.read_text (bytes "AGENTS.md"))
    check_phrases agents phrases
    workflow ←
        content_of (bytes ".github/workflows/deep-tests.yml")
          (root.read_text (bytes ".github/workflows/deep-tests.yml"))
    check_workflow workflow
    check_metadata metadata

  -- The exit status.
  unfoldable pub main : ℕ
  main = exit_status verify
