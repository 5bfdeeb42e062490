-- ===== src/Examples/Extension.antt =====
-- The included matrix with further rows, and rows in another order.
use mathlib.Core.List.Perm
use contract_conformance_tes.Base.{
  ◌≡◌, ◌↔◌, refl, List, [], ◌∷◌, ◌++◌, Result, ok, err, Text, bytes, arith, Has, false,
  if◌then◌else◌, map, text_eq,
}
use contract_conformance_tes.Codec.Matrix.{Row, CheckError, incomplete_coverage, canonical_codecs}
use contract_conformance_tes.Codec.Parse.{parse_matrix}
use contract_conformance_tes.Codec.Parse.Line.{IsPrintable, print_row, parse_line_iff}
use contract_conformance_tes.Codec.Parse.RoundTrip.{IsOneLine, print_rows}
use contract_conformance_tes.Codec.Validate.{validate}
use contract_conformance_tes.Codec.Validate.Coverage.{Uncovered, validate-Uncovered}
use contract_conformance_tes.Codec.Validate.Order.{validate-Perm}
use contract_conformance_tes.Codec.Validate.Rows.{IsSound, names}
use contract_conformance_tes.Codec.Run.{main}
use contract_conformance_tes.Codec.Run.Extend.{main-append}
use contract_conformance_tes.Examples.Checker.{evaluate, json_row, unknown_row, two_rows}
use contract_conformance_tes.Examples.Matrix.{checked_in}

validate-Perm_example :
    (validate two_rows ≡ ok tt) ↔ (validate (unknown_row ∷ json_row ∷ []) ≡ ok tt)
validate-Perm_example =
    validate-Perm two_rows (unknown_row ∷ json_row ∷ []) (Perm.swap unknown_row json_row [])

abbrev without_last : Text → Text
without_last [] = []
without_last (b ∷ []) = []
without_last (b ∷ (c ∷ s)) = b ∷ without_last (c ∷ s)

-- The included matrix without the line feed at its end.
abbrev body : Text
body = without_last checked_in

abbrev rows_of : Result (List Row) CheckError → List Row
rows_of (ok rows) = rows
rows_of (err e) = []

hardened_rows : List Row
unfolding evaluate
hardened_rows = rows_of (parse_matrix checked_in)

body-parses : parse_matrix (body ++ (b'\n' ∷ [])) ≡ ok hardened_rows
unfolding evaluate hardened_rows
body-parses = refl

body-passes : main (body ++ (b'\n' ∷ [])) ≡ 0
unfolding evaluate main
body-passes = refl

-- A further row.
abbrev new_row : Row
new_row = record json_row { case_name = bytes "http_json_again" }

new_row-IsPrintable : IsPrintable new_row
unfolding evaluate print_row
new_row-IsPrintable = ((parse_line_iff 2 (print_row new_row) new_row).0 refl).1

new_row-IsOneLine : IsOneLine new_row
new_row-IsOneLine = record { unbroken = omega arith; clean = omega arith }

main-append_example :
    (main (body ++ (b'\n' ∷ print_rows (new_row ∷ []))) ≡ 0)
    ↔ ((¬ Has (names hardened_rows) (bytes "http_json_again")) × IsSound canonical_codecs new_row)
main-append_example =
    main-append body hardened_rows new_row body-parses body-passes new_row-IsPrintable
      new_row-IsOneLine

-- The included matrix with no valid row for CBOR.
abbrev unmark : Row → Row
unmark row = if text_eq row.codec (bytes "cbor") then record row { valid = false } else row

uncovered_rows : List Row
unfolding evaluate hardened_rows text_eq
uncovered_rows = map unmark hardened_rows

abbrev shown : List Text
shown = bytes "json" ∷ bytes "messagepack" ∷ bytes "protobuf" ∷ bytes "raw" ∷ []

uncovered_rows-refused : validate uncovered_rows ≡ err (incomplete_coverage shown)
unfolding evaluate uncovered_rows
uncovered_rows-refused = refl

validate-Uncovered_example : Uncovered canonical_codecs uncovered_rows shown
validate-Uncovered_example = validate-Uncovered uncovered_rows shown uncovered_rows-refused
