-- ===== src/Codec/Validate.antt =====
-- `validate` and `require_case_shape`. The tables of `Matrix` are arguments until `validate` puts
-- them in.
pub mod Rows
pub mod Loop
pub mod Tables
pub mod Accepts
pub mod Rules
pub mod Faults
pub mod Rejects
pub mod Coverage
pub mod Order
pub mod Extend
use contract_conformance_tes.Base.{
  Bool, true, false, not, ◌&&◌, ◌||◌, if◌then◌else◌, Option, none, some, List, [], ◌∷◌, map, any,
  all, Result, ok, err, ◌>>=◌, ◌>>◌, reject_if, Text, bytes, text_eq, starts_with, contains,
  to_ascii_lowercase, has, insert_name, collect, set_eq, get, keys, is_known,
}
use contract_conformance_tes.Codec.Matrix.{
  CodecSpec, Row, CaseShape, canonical_codecs, CheckError, missing_case, drifted_case,
  duplicate_case, negative_marked_valid, wrong_wire_id, wrong_media_type, unknown_codec,
  invented_codec_data, ndjson_not_json, raw_without_control, missing_required, incomplete_coverage,
}
use contract_conformance_tes.Codec.Cases.{required_cases, required_case_shapes}

abbrev pub Codecs : Type 0
Codecs = List (Text × CodecSpec)

-- The `if let Some(spec)` and its `else if`.
unfoldable pub check_codec : Option CodecSpec → Row → Result (Unit {0}) CheckError
check_codec (some spec) row = do
  reject_if (not (text_eq row.wire_id spec.wire_id)) (wrong_wire_id row spec.wire_id)
  reject_if (not (text_eq row.media_type spec.media_type)) (wrong_media_type row spec.media_type)
check_codec none row =
    reject_if (row.valid && not (text_eq row.codec (bytes "structured"))) (unknown_codec row)

-- `matches!(row.transport, "tcp" | "websocket")`
unfoldable pub is_stateful : Text → Bool
is_stateful transport = text_eq transport (bytes "tcp") || text_eq transport (bytes "websocket")

-- The conditions of the last three tests of the loop.
unfoldable pub invents_codec_data : Row → Bool
invents_codec_data row =
    text_eq row.codec (bytes "structured")
    && (not (text_eq row.wire_id (bytes "-")) || not (text_eq row.media_type (bytes "-")))

unfoldable pub breaks_ndjson : Row → Bool
breaks_ndjson row =
    row.valid && (text_eq row.framing (bytes "ndjson") && not (text_eq row.codec (bytes "json")))

unfoldable pub drops_control : Row → Bool
drops_control row =
    let normalized = to_ascii_lowercase row.expectation in
    row.valid
    && (is_stateful row.transport
        && (text_eq row.codec (bytes "raw")
            && (not (contains normalized (bytes "control"))
                || not (contains normalized (bytes "correlation")))))

-- The body of the loop over the rows.
unfoldable pub check_row : Codecs → List Text → Row → Result (Unit {0}) CheckError
check_row codecs seen_cases row = do
  reject_if (not (insert_name row.case_name seen_cases).0) (duplicate_case row.case_name)
  reject_if (starts_with row.case_name (bytes "negative_") && row.valid)
      (negative_marked_valid row.case_name)
  check_codec (get codecs row.codec) row
  reject_if (invents_codec_data row) (invented_codec_data row)
  reject_if (breaks_ndjson row) (ndjson_not_json row)
  reject_if (drops_control row) (raw_without_control row)

-- The loop. `seen_cases` and `present_cases` hold the same names; the loop returns them.
unfoldable pub check_rows : Codecs → List Text → List Row → Result (List Text) CheckError
check_rows codecs seen_cases [] = ok seen_cases
check_rows codecs seen_cases (row ∷ rows) =
    let rest = check_rows codecs (insert_name row.case_name seen_cases).1 rows in
    check_row codecs seen_cases row >> rest

unfoldable pub check_required : List Text → List Text → Result (Unit {0}) CheckError
check_required present_cases [] = ok tt
check_required present_cases (required ∷ rest) =
    let later = check_required present_cases rest in
    if has present_cases required then later else err (missing_required required)

-- `rows.iter().find(|row| row.case_name == name)`
unfoldable pub find_case : Text → List Row → Option Row
find_case name [] = none
find_case name (row ∷ rows) =
    let rest = find_case name rows in if text_eq row.case_name name then some row else rest

unfoldable pub has_drifted : CaseShape → Row → Bool
has_drifted expected row =
    not (text_eq row.transport expected.transport)
    || (not (text_eq row.framing expected.framing)
        || (not (text_eq row.codec expected.codec)
            || (not (text_eq row.wire_id expected.wire_id)
                || (not (text_eq row.media_type expected.media_type)
                    || (if row.valid then not expected.valid else expected.valid)))))

require_found : Option Row → CaseShape → Result (Unit {0}) CheckError
require_found none expected = err (missing_case expected.case_name)
require_found (some row) expected = reject_if (has_drifted expected row) (drifted_case row)

unfoldable pub require_case_shape : List Row → CaseShape → Result (Unit {0}) CheckError
unfolding require_found
require_case_shape rows expected = require_found (find_case expected.case_name rows) expected

unfoldable pub check_shapes : List Row → List CaseShape → Result (Unit {0}) CheckError
check_shapes rows [] = ok tt
check_shapes rows (expected ∷ rest) =
    let later = check_shapes rows rest in require_case_shape rows expected >> later

-- The codecs of the rows that are valid and name a canonical codec, in the order of the rows.
unfoldable pub positive_codecs : Codecs → List Row → List Text
positive_codecs codecs [] = []
positive_codecs codecs (row ∷ rows) =
    let rest = positive_codecs codecs rows in
    if row.valid && is_known (get codecs row.codec) then row.codec ∷ rest else rest

unfoldable pub canonical_positive : Codecs → List Row → List Text
canonical_positive codecs rows = collect (positive_codecs codecs rows)

unfoldable pub validate_with :
    Codecs → List Text → List CaseShape → List Row → Result (Unit {0}) CheckError
validate_with codecs cases shapes rows = do
  present_cases ← check_rows codecs [] rows
  check_required present_cases cases
  check_shapes rows shapes
  reject_if (not (set_eq (canonical_positive codecs rows) (collect (keys codecs))))
      (incomplete_coverage (canonical_positive codecs rows))

unfoldable pub validate : List Row → Result (Unit {0}) CheckError
validate = validate_with canonical_codecs required_cases required_case_shapes
