-- ===== src/Codec/Validate/Faults.antt =====
-- The loop over the rows stops at the first rule that a row breaks.
use contract_conformance_tes.Base.{
  ◌≡◌, ◌↔◌, false, Option, none, some, List, [], ◌∷◌, Decides, Decides-nil, Decides-reject_if,
  Decides-then, Text, bytes, text_eq, not, text_eq_iff, arith, Has, Has-place, get, has_iff,
  insert_name,
}
use contract_conformance_tes.Codec.Matrix.{CodecSpec, Row}
use contract_conformance_tes.Codec.Validate.{Codecs, check_codec, check_row, check_rows}
use contract_conformance_tes.Codec.Validate.Rows.{
  negative_iff, invents_codec_data_iff, breaks_ndjson_iff, drops_control_iff,
}
use contract_conformance_tes.Codec.Validate.Rules.{codec_rules, row_rules, rows_rules}

differs_iff : (a b : Text) → (not (text_eq a b) ≡ false) ↔ (a ≡ b)
differs_iff a b = ground (arith, text_eq_iff a b)

codec-Decides :
    (spec : Option CodecSpec) (row : Row) → Decides (check_codec spec row) (codec_rules spec row)
unfolding check_codec
codec-Decides (some spec) row =
    Decides-then (Decides-reject_if _ _ _ (differs_iff row.wire_id spec.wire_id))
      (Decides-reject_if _ _ _ (differs_iff row.media_type spec.media_type))
codec-Decides none row =
    Decides-reject_if _ _ _ (ground (arith, text_eq_iff row.codec (bytes "structured")))

-- The names seen are those of the rows before.
abbrev Remembers : List Text → List Text → Type 0
Remembers seen earlier = (x : Text) → Has seen x ↔ Has earlier x

module _ (codecs : Codecs) where
  row-Decides :
      (seen earlier : List Text) (row : Row)
      → Remembers seen earlier
      → Decides (check_row codecs seen row) (row_rules codecs earlier row)
  unfolding check_row insert_name
  row-Decides seen earlier row same =
      Decides-then
        (Decides-reject_if _ _ _ (ground (arith, has_iff seen row.case_name, same row.case_name)))
        (Decides-then (Decides-reject_if _ _ _ (negative_iff row)) (
          Decides-then (codec-Decides (get codecs row.codec) row) (
            Decides-then (Decides-reject_if _ _ _ (invents_codec_data_iff row)) (
              Decides-then (Decides-reject_if _ _ _ (breaks_ndjson_iff row))
                (Decides-reject_if _ _ _ (drops_control_iff row))))))

  Remembers-insert :
      (seen earlier : List Text) (name : Text)
      → Remembers seen earlier
      → Remembers (insert_name name seen).1 (name ∷ earlier)
  unfolding insert_name
  Remembers-insert seen earlier name same x = ground (arith, Has-place name seen x, same x)

  pub rows-Decides :
      (seen earlier : List Text) (rows : List Row)
      → Remembers seen earlier
      → Decides (check_rows codecs seen rows) (rows_rules codecs earlier rows)
  unfolding check_rows
  rows-Decides seen earlier [] same = Decides-nil seen
  rows-Decides seen earlier (row ∷ rows) same = Decides-then (row-Decides seen earlier row same) (
      rows-Decides (insert_name row.case_name seen).1 (row.case_name ∷ earlier) rows
        (Remembers-insert seen earlier row.case_name same))
