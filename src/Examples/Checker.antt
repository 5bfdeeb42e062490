-- ===== src/Examples/Checker.antt =====
-- The checker on the matrix that the build includes, and on variants of it.
use contract_conformance_tes.Base.{
  FirstFault, insert_name, place, collect, set_eq, compare_text, insert_entry, insert_entries, ℕ,
  ◌≡◌, ◌↔◌, refl, true, false, List, [], ◌∷◌, ◌++◌, Result, ok, err, Text, bytes, text_eq,
  starts_with, contains, to_ascii_lowercase, arith, get, has,
}
use contract_conformance_tes.Codec.Matrix.{
  header, Row, canonical_codecs, CheckError, header_not_canonical, field_count, duplicate_case,
  missing_required,
}
use contract_conformance_tes.Codec.Cases.{required_cases, required_case_shapes}
use contract_conformance_tes.Codec.Parse.{
  split, strip_cr, ended, lines, parse_line, parse_rows, parse_matrix,
}
use contract_conformance_tes.Codec.Parse.Bounds.{IsLineOf, parse_matrix-IsLineOf}
use contract_conformance_tes.Codec.Parse.Errors.{Refused, parse_matrix-Refused}
use contract_conformance_tes.Codec.Parse.Faults.{LineFault, parse_line-LineFault}
use contract_conformance_tes.Codec.Parse.Grammar.{IsMatrix, parse_matrix_iff}
use contract_conformance_tes.Codec.Parse.Line.{IsPrintable, print_row, parse_line_iff}
use contract_conformance_tes.Codec.Parse.RoundTrip.{print_matrix, parse_matrix-print_matrix}
use contract_conformance_tes.Codec.Validate.{
  check_codec, is_stateful, invents_codec_data, breaks_ndjson, drops_control, check_row, check_rows,
  check_required, find_case, has_drifted, require_case_shape, check_shapes, canonical_positive,
  positive_codecs, validate_with, validate,
}
use contract_conformance_tes.Codec.Validate.Accepts.{IsHardened, validate-IsHardened}
use contract_conformance_tes.Codec.Validate.Rejects.{validate-Rejected}
use contract_conformance_tes.Codec.Validate.Rules.{hardening_rules}
use contract_conformance_tes.Codec.Run.{run, main}
use contract_conformance_tes.Codec.Run.Exit.{main-IsHardened}
use contract_conformance_tes.Examples.Matrix.{checked_in}

-- The program with all of its parts open: a test that unfolds it computes.
unfoldable pub evaluate : Text → Result (ℕ × ℕ) CheckError
unfolding run text_eq starts_with contains to_ascii_lowercase split strip_cr ended lines parse_line
    parse_rows parse_matrix has get check_codec is_stateful invents_codec_data breaks_ndjson
    drops_control check_row check_rows check_required find_case has_drifted require_case_shape
    check_shapes canonical_positive positive_codecs insert_name place collect set_eq compare_text
    insert_entries insert_entry canonical_codecs validate_with validate
evaluate = run

-- The included matrix passes: 45 rows, 5 codecs.
pub run-checked_in : run checked_in ≡ ok (45, 5)
unfolding evaluate
run-checked_in = refl

-- The repeated row of the source's own test is refused.
run_duplicate :
    run (
      checked_in
      ++ (bytes "http_json\thttp\tnative-message\tjson\t1\tapplication/json\ttrue\tagain\n"))
    ≡ err (duplicate_case (bytes "http_json"))
unfolding evaluate
run_duplicate = refl

main-IsHardened_example : (main checked_in ≡ 0) ↔ (
    (rows : List Row) × IsMatrix checked_in rows
    × IsHardened canonical_codecs required_cases required_case_shapes rows)
main-IsHardened_example = main-IsHardened checked_in

abbrev pub json_row : Row
json_row = record {
  case_name = bytes "http_json";
  transport = bytes "http";
  framing = bytes "native-message";
  codec = bytes "json";
  wire_id = bytes "1";
  media_type = bytes "application/json";
  valid = true;
  expectation = bytes "media types agree";
}

abbrev pub unknown_row : Row
unknown_row = record {
  case_name = bytes "negative_unknown_codec_id";
  transport = bytes "tcp";
  framing = bytes "ndjson";
  codec = bytes "unknown";
  wire_id = bytes "255";
  media_type = bytes "-";
  valid = false;
  expectation = bytes "fail before dispatch";
}

abbrev pub two_rows : List Row
two_rows = json_row ∷ unknown_row ∷ []

validate-IsHardened_example :
    (validate two_rows ≡ ok tt)
    ↔ IsHardened canonical_codecs required_cases required_case_shapes two_rows
validate-IsHardened_example = validate-IsHardened two_rows

two_rows_incomplete : validate two_rows ≡ err (missing_required (bytes "http_messagepack"))
unfolding evaluate
two_rows_incomplete = refl

validate-Rejected_example :
    (validate two_rows ≡ err (missing_required (bytes "http_messagepack")))
    ↔ FirstFault
        (hardening_rules canonical_codecs required_cases required_case_shapes two_rows)
        (missing_required (bytes "http_messagepack"))
validate-Rejected_example = validate-Rejected two_rows (missing_required (bytes "http_messagepack"))

two_rows_fault :
    FirstFault
      (hardening_rules canonical_codecs required_cases required_case_shapes two_rows)
      (missing_required (bytes "http_messagepack"))
two_rows_fault =
    (validate-Rejected two_rows (missing_required (bytes "http_messagepack"))).0 two_rows_incomplete

pub json_row-IsPrintable : IsPrintable json_row
unfolding evaluate print_row
json_row-IsPrintable = ((parse_line_iff 2 (print_row json_row) json_row).0 refl).1

unknown_row-IsPrintable : IsPrintable unknown_row
unfolding evaluate print_row
unknown_row-IsPrintable = ((parse_line_iff 3 (print_row unknown_row) unknown_row).0 refl).1

parse_matrix-print_matrix_example : parse_matrix (print_matrix two_rows) ≡ ok two_rows
parse_matrix-print_matrix_example =
    parse_matrix-print_matrix two_rows (λ e. cc)
      (json_row-IsPrintable, (unknown_row-IsPrintable, tt))
      (
        record { unbroken = omega arith; clean = omega arith },
        (record { unbroken = omega arith; clean = omega arith }, tt),
      )

parse_matrix_iff_example :
    (parse_matrix (print_matrix two_rows) ≡ ok two_rows) ↔ IsMatrix (print_matrix two_rows) two_rows
parse_matrix_iff_example = parse_matrix_iff (print_matrix two_rows) two_rows

parse_matrix-Refused_example :
    (parse_matrix (bytes "case\tcodec\n") ≡ err header_not_canonical)
    ↔ Refused (bytes "case\tcodec\n") header_not_canonical
parse_matrix-Refused_example = parse_matrix-Refused (bytes "case\tcodec\n") header_not_canonical

header_fault : Refused (bytes "case\tcodec\n") header_not_canonical
unfolding evaluate
header_fault = (parse_matrix-Refused (bytes "case\tcodec\n") header_not_canonical).0 refl

parse_line-LineFault_instance : LineFault 7 (split b'\t' (bytes "http_json\thttp")) (field_count 7)
unfolding evaluate
parse_line-LineFault_instance =
    (parse_line-LineFault 7 (bytes "http_json\thttp") (field_count 7)).0 refl

parse_matrix-IsLineOf_example : IsLineOf (header ++ bytes "\nhttp_json\thttp\n") 2 (field_count 2)
unfolding evaluate
parse_matrix-IsLineOf_example =
    parse_matrix-IsLineOf (header ++ bytes "\nhttp_json\thttp\n") (field_count 2) 2 refl refl
