-- ===== src/Codec/Validate/Rules.antt =====
-- The rules of a hardened matrix, in the order in which `validate` looks at them, each with the
-- error for a breach of it.
use contract_conformance_tes.Base.{
  ◌≡◌, true, false, Option, none, some, List, [], ◌∷◌, ◌++◌, All, Any, Rule, Text, bytes, Begins,
  Holds, to_ascii_lowercase, Has, keys, get,
}
use contract_conformance_tes.Codec.Matrix.{
  CodecSpec, Row, CaseShape, CheckError, missing_case, drifted_case, duplicate_case,
  negative_marked_valid, wrong_wire_id, wrong_media_type, unknown_codec, invented_codec_data,
  ndjson_not_json, raw_without_control, missing_required, incomplete_coverage,
}
use contract_conformance_tes.Codec.Validate.{Codecs, canonical_positive}
use contract_conformance_tes.Codec.Validate.Rows.{IsStateful, names}
use contract_conformance_tes.Codec.Validate.Tables.{HasShape, Covers}

abbrev pub CheckRules : Type 1
CheckRules = List (Rule CheckError)

-- The codec of a row, by its specification.
abbrev pub codec_rules : Option CodecSpec → Row → CheckRules
codec_rules (some spec) row =
    (row.wire_id ≡ spec.wire_id, wrong_wire_id row spec.wire_id)
    ∷ (row.media_type ≡ spec.media_type, wrong_media_type row spec.media_type)
    ∷ []
codec_rules none row = ((row.valid ≡ true → row.codec ≡ bytes "structured"), unknown_codec row) ∷ []

-- A row behind others of these names.
abbrev pub row_rules : Codecs → List Text → Row → CheckRules
row_rules codecs earlier row =
    ((¬ Has earlier row.case_name), duplicate_case row.case_name)
    ∷ (
      (Begins row.case_name (bytes "negative_") → row.valid ≡ false),
      negative_marked_valid row.case_name,
    )
    ∷ (codec_rules (get codecs row.codec) row
        ++ ((
          (row.codec ≡ bytes "structured"
              → (row.wire_id ≡ bytes "-") × (row.media_type ≡ bytes "-")),
          invented_codec_data row,
        )
            ∷ (
              (row.valid ≡ true → row.framing ≡ bytes "ndjson" → row.codec ≡ bytes "json"),
              ndjson_not_json row,
            )
            ∷ (
              (row.valid ≡ true
                  → IsStateful row.transport
                  → row.codec ≡ bytes "raw"
                  → Holds (to_ascii_lowercase row.expectation) (bytes "control")
                    × Holds (to_ascii_lowercase row.expectation) (bytes "correlation")),
              raw_without_control row,
            )
            ∷ []))

abbrev pub rows_rules : Codecs → List Text → List Row → CheckRules
rows_rules codecs earlier [] = []
rows_rules codecs earlier (row ∷ rows) =
    row_rules codecs earlier row ++ rows_rules codecs (row.case_name ∷ earlier) rows

abbrev pub case_rules : List Row → List Text → CheckRules
case_rules rows [] = []
case_rules rows (c ∷ cases) = (Has (names rows) c, missing_required c) ∷ case_rules rows cases

-- A required structure: no row of its name has another.
abbrev pub drift_rules : CaseShape → List Row → CheckRules
drift_rules s [] = []
drift_rules s (row ∷ rows) =
    ((row.case_name ≡ s.case_name → HasShape s row), drifted_case row) ∷ drift_rules s rows

abbrev pub shape_rules : List Row → List CaseShape → CheckRules
shape_rules rows [] = []
shape_rules rows (s ∷ shapes) =
    (Has (names rows) s.case_name, missing_case s.case_name)
    ∷ (drift_rules s rows ++ shape_rules rows shapes)

abbrev pub coverage_rules : Codecs → List Row → CheckRules
coverage_rules codecs rows =
    (
      All (λ key. Any (Covers key) rows) (keys codecs),
      incomplete_coverage (canonical_positive codecs rows),
    )
    ∷ []

abbrev pub hardening_rules : Codecs → List Text → List CaseShape → List Row → CheckRules
hardening_rules codecs cases shapes rows =
    rows_rules codecs [] rows
    ++ (case_rules rows cases ++ (shape_rules rows shapes ++ coverage_rules codecs rows))
