-- ===== src/Examples/Repositories.antt =====
-- The check of the repository on a small one that passes, and on ones that do not.
use contract_conformance_tes.Base.{
  ◌≡◌, ◌↔◌, refl, true, AllHold, FirstFault, Option, some, List, [], ◌∷◌, ◌++◌, if◌then◌else◌,
  Result, ok, err, Text, bytes, repeat, text_eq, starts_with, contains, has, collect, insert_name,
  place, compare_text,
}
use contract_conformance_tes.Repository.{
  mapping, Json, string, decoded, Entry, Checkout, RepositoryError, conflict_marker,
  credential_content, phrases, check_content, check_entry, check_entries, check_phrases, actions,
  check_workflow, check_metadata, verify, main,
}
use contract_conformance_tes.Repository.Lines.{
  splitlines, strip_start, strip_end, strip, after_first, ends_with,
}
use contract_conformance_tes.Repository.Patterns.{
  nullable, derive, fullmatch, match, search, search_lines,
}
use contract_conformance_tes.Repository.Uses.{Uses}
use contract_conformance_tes.Repository.Uses.Laws.{actions_iff}
use contract_conformance_tes.Repository.Rules.{repository_rules}
use contract_conformance_tes.Repository.Laws.{FirstFault-iff, main-AllHold}

abbrev project : Text → Option Json
project key =
    if text_eq key (bytes "bootstrap_operation")
    then some (string (bytes "deep-test-fleet-20260808"))
    else if text_eq key (bytes "organization")
    then some (string (bytes "zed-pkg-test"))
    else some (string (bytes "contract"))

abbrev workflow : Text
workflow =
    bytes "permissions:\n  contents: read\n"
    ++ (bytes "    - uses: actions/checkout@" ++ (repeat 40 b'a' ++ bytes "\n"))
    ++ (bytes "    - uses: actions/setup-python@" ++ (repeat 40 b'0' ++ bytes " \n"))

abbrev agents : List Text → Text
agents [] = []
agents (phrase ∷ rest) = phrase ++ (bytes "\n" ++ agents rest)

abbrev file : Text → Text → Entry
file path content = record {
  path = path;
  parts = path ∷ [];
  is_file = true;
  size = 100;
  content = decoded content;
}

abbrev checkout : List Entry → Checkout
checkout entries = record {
  metadata = some (mapping project);
  exists = λ path. true;
  is_dir = λ path. true;
  modules = bytes "tests/test_contract_conformance.py" ∷ [];
  entries = entries;
  read_text = λ path.
      if text_eq path (bytes "AGENTS.md") then decoded (agents phrases) else decoded workflow;
}

abbrev sound : Checkout
sound = checkout (file (bytes "a.md") (bytes "a <<<<<<< b\n") ∷ [])

abbrev merged : Checkout
merged = checkout (file (bytes "a.md") (bytes "a\n======= b\n") ∷ [])

abbrev leaked : Checkout
leaked = checkout (file (bytes "a.md") (bytes "export T=ghp_" ++ repeat 20 b'x') ∷ [])

-- The check with all of its parts open.
unfoldable evaluate : Checkout → Result (Unit {0}) RepositoryError
unfolding verify check_content check_entry check_entries check_phrases actions check_workflow
    check_metadata splitlines strip_start strip_end strip after_first ends_with nullable derive
    fullmatch match search search_lines text_eq starts_with contains has collect insert_name place
    compare_text
evaluate = verify

passes : verify sound ≡ ok tt
unfolding evaluate
passes = refl

finds_marker : verify merged ≡ err (conflict_marker (bytes "a.md"))
unfolding evaluate
finds_marker = refl

finds_credential : verify leaked ≡ err (credential_content (bytes "a.md"))
unfolding evaluate
finds_credential = refl

abbrev pinned : List Text
pinned =
    (bytes "actions/checkout@" ++ repeat 40 b'a')
    ∷ (bytes "actions/setup-python@" ++ repeat 40 b'0')
    ∷ []

actions_iff_example : (actions workflow ≡ pinned) ↔ Uses workflow pinned
actions_iff_example = actions_iff workflow pinned

workflow-pinned : actions workflow ≡ pinned
unfolding actions splitlines strip_start strip_end strip after_first text_eq starts_with contains
workflow-pinned = refl

-- A second "uses:" in a line, white space of two bytes, and a line with nothing behind the mark.
actions-named :
    actions (bytes "a: 1\r\n- uses: x uses: y " ++ (194 ∷ (160 ∷ bytes "\r\ruses:\n")))
    ≡ bytes "x uses: y" ∷ [] ∷ []
unfolding actions splitlines strip_start strip_end strip after_first text_eq starts_with contains
actions-named = refl

main-AllHold_example : (main sound ≡ 0) ↔ AllHold (repository_rules sound)
main-AllHold_example = main-AllHold sound

FirstFault-iff_example :
    (verify merged ≡ err (conflict_marker (bytes "a.md")))
    ↔ FirstFault (repository_rules merged) (conflict_marker (bytes "a.md"))
FirstFault-iff_example = FirstFault-iff merged (conflict_marker (bytes "a.md"))
