-- ===== src/Examples/Evidence.antt =====
-- The check of the tracked files, with pathlib read off plain relative paths.
use contract_conformance_tes.Base.{
  ◌≡◌, ◌↔◌, refl, List, [], ◌∷◌, ◌++◌, Text, bytes, to_ascii_lowercase, text_eq, starts_with, has,
  collect, place, compare_text, IsSorted, Has,
}
use contract_conformance_tes.Codec.Parse.{split}
use contract_conformance_tes.Hygiene.{
  PathLibrary, tracked_files, is_violation, find_violations, main,
}
use contract_conformance_tes.Hygiene.Laws.{
  IsTransient, HasNoEvidence, find_violations_iff, main-HasNoEvidence,
}

abbrev last : List Text → Text
last [] = []
last (part ∷ []) = part
last (part ∷ (next ∷ parts)) = last (next ∷ parts)

-- Paths without empty and dot parts, in ASCII.
abbrev plain : PathLibrary
plain = record {
  parts = λ path. split b'/' path;
  name = λ path. last (split b'/' path);
  lower = to_ascii_lowercase;
}

abbrev paths : List Text
paths =
    bytes "src/report.json"
    ∷ bytes "fixtures/report.json"
    ∷ bytes "docs\\REPORT.sarif"
    ∷ bytes ".tjsv/a"
    ∷ bytes "src/report.json"
    ∷ bytes "README.md"
    ∷ []

reported :
    find_violations plain paths
    ≡ bytes ".tjsv/a" ∷ bytes "docs\\REPORT.sarif" ∷ bytes "src/report.json" ∷ []
unfolding find_violations is_violation split text_eq starts_with has collect place compare_text
    to_ascii_lowercase
reported = refl

find_violations_iff_example :
    IsSorted (find_violations plain paths)
    × ((p : Text) → Has (find_violations plain paths) p ↔ (Has paths p × IsTransient plain p))
find_violations_iff_example = find_violations_iff plain paths

abbrev listing : Text
listing = bytes "README.md" ++ (0 ∷ (bytes "tests/fixtures/report.json" ++ 0 ∷ []))

exits_with_0 : main plain listing ≡ 0
unfolding main find_violations tracked_files is_violation split text_eq starts_with has collect
    place compare_text to_ascii_lowercase
exits_with_0 = refl

main-HasNoEvidence_example : (main plain listing ≡ 0) ↔ HasNoEvidence plain listing
main-HasNoEvidence_example = main-HasNoEvidence plain listing
