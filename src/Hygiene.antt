-- ===== src/Hygiene.antt =====
-- scripts/check_generated_evidence_hygiene.py: no tracked file may be generated evidence, other
-- than a fixture. `git ls-files`, pathlib and `str.lower` are parameters.
pub mod Laws
use contract_conformance_tes.Base.{
  ℕ, Bool, true, false, not, if◌then◌else◌, ◌&&◌, ◌||◌, ◌==◌, List, [], ◌∷◌, ◌++◌, map, any, Text,
  bytes, is_empty, text_eq, starts_with, has, collect,
}
use contract_conformance_tes.Codec.Parse.{split}

abbrev pub transient_dirs : List Text
transient_dirs = bytes ".typespec-json-schema-validator" ∷ bytes ".tjsv" ∷ bytes "tmp/tjsv" ∷ []

abbrev pub transient_names : List Text
transient_names =
    bytes "contract-ir.json"
    ∷ bytes "report.json"
    ∷ bytes "report.sarif"
    ∷ bytes "generated.schema.json"
    ∷ bytes "schema-b.json"
    ∷ []

abbrev pub fixture_markers : List Text
fixture_markers =
    bytes "fixture"
    ∷ bytes "fixtures"
    ∷ bytes "testdata"
    ∷ bytes "test-data"
    ∷ bytes "snapshots"
    ∷ []

-- `PurePosixPath(path).parts` and `.name`, and `str.lower`.
pub record PathLibrary : Type 0 where
  pub parts : Text → List Text
  pub name : Text → Text
  pub lower : Text → Text

-- `raw.replace("\\", "/")`
abbrev pub normalize : Text → Text
normalize = map (λ b. if b == b'\\' then b'/' else b)

-- The paths that `git ls-files -z` prints.
abbrev pub tracked_from : List Text → List Text
tracked_from [] = []
tracked_from (path ∷ paths) =
    let rest = tracked_from paths in if is_empty path then rest else path ∷ rest

unfoldable pub tracked_files : Text → List Text
tracked_files raw = tracked_from (split 0 raw)

module _ (library : PathLibrary) where
  open library use {parts, name, lower}

  -- `parts & FIXTURE_MARKERS` is not empty.
  abbrev pub is_fixture : Text → Bool
  is_fixture path = any (λ part. has fixture_markers (lower part)) (parts path)

  abbrev pub in_transient_dir : Text → Bool
  in_transient_dir path =
      any (λ d. text_eq path d || starts_with path (d ++ b'/' ∷ [])) transient_dirs

  -- Whether a round of the loop appends the path.
  unfoldable pub is_violation : Text → Bool
  is_violation raw =
      let path = normalize raw in
      if is_fixture path
      then false
      else if in_transient_dir path
      then true
      else has transient_names (lower (name path))

  abbrev pub violations_from : List Text → List Text
  violations_from [] = []
  violations_from (raw ∷ paths) =
      let rest = violations_from paths in if is_violation raw then raw ∷ rest else rest

  -- `sorted(set(violations))` at the end
  unfoldable pub find_violations : List Text → List Text
  unfolding is_violation
  find_violations paths = collect (violations_from paths)

  abbrev pub status : List Text → ℕ
  status [] = 0
  status (_ ∷ _) = 1

  -- The exit status, by what git prints.
  unfoldable pub main : Text → ℕ
  unfolding find_violations tracked_files
  main raw = status (find_violations (tracked_files raw))
