-- ===== src/Codec/Validate/Rows.antt =====
-- The loop over the rows: what it accepts of one row, and of all.
use contract_conformance_tes.Base.{
  ◌≡◌, ◌↔◌, ◌&&◌, ◌⊎◌, Bool, true, false, Option, none, some, List, map, ok, Text, bytes,
  text_eq_iff, starts_with, starts_with_iff, contains_iff, Begins, Holds, to_ascii_lowercase, arith,
  Has, has_iff, get, insert_name,
}
use contract_conformance_tes.Codec.Matrix.{CodecSpec, Row}
use contract_conformance_tes.Codec.Validate.{
  Codecs, check_codec, is_stateful, invents_codec_data, breaks_ndjson, drops_control, check_row,
}

-- A row agrees with the specification of its codec, if the codec is canonical; a valid row whose
-- codec is not is `structured`.
abbrev pub FitsCodec : Option CodecSpec → Row → Type 0
FitsCodec (some spec) row = (row.wire_id ≡ spec.wire_id) × (row.media_type ≡ spec.media_type)
FitsCodec none row = row.valid ≡ true → row.codec ≡ bytes "structured"

abbrev pub IsStateful : Text → Type 0
IsStateful transport = (transport ≡ bytes "tcp") ⊎ (transport ≡ bytes "websocket")

-- What a row has to satisfy by itself.
pub record IsSound (codecs : Codecs) (row : Row) : Type 0 where
  pub negative : Begins row.case_name (bytes "negative_") → row.valid ≡ false
  pub codec : FitsCodec (get codecs row.codec) row
  pub structured :
      row.codec ≡ bytes "structured" → (row.wire_id ≡ bytes "-") × (row.media_type ≡ bytes "-")
  pub ndjson : row.valid ≡ true → row.framing ≡ bytes "ndjson" → row.codec ≡ bytes "json"
  pub control :
      row.valid ≡ true
      → IsStateful row.transport
      → row.codec ≡ bytes "raw"
      → Holds (to_ascii_lowercase row.expectation) (bytes "control")
        × Holds (to_ascii_lowercase row.expectation) (bytes "correlation")

check_codec_iff :
    (spec : Option CodecSpec) (row : Row) → (check_codec spec row ≡ ok tt) ↔ FitsCodec spec row
unfolding check_codec
check_codec_iff (some spec) row =
    ground (arith, text_eq_iff row.wire_id spec.wire_id, text_eq_iff row.media_type spec.media_type)
check_codec_iff none row = ground (arith, text_eq_iff row.codec (bytes "structured"))

module _ (row : Row) where
  pub invents_codec_data_iff :
      (invents_codec_data row ≡ false)
      ↔ (row.codec ≡ bytes "structured" → (row.wire_id ≡ bytes "-") × (row.media_type ≡ bytes "-"))
  unfolding invents_codec_data
  invents_codec_data_iff = ground (
    arith,
    text_eq_iff row.codec (bytes "structured"),
    text_eq_iff row.wire_id (bytes "-"),
    text_eq_iff row.media_type (bytes "-"),
  )

  pub breaks_ndjson_iff :
      (breaks_ndjson row ≡ false)
      ↔ (row.valid ≡ true → row.framing ≡ bytes "ndjson" → row.codec ≡ bytes "json")
  unfolding breaks_ndjson
  breaks_ndjson_iff =
      ground (arith, text_eq_iff row.framing (bytes "ndjson"), text_eq_iff row.codec (bytes "json"))

  pub is_stateful_iff : (is_stateful row.transport ≡ true) ↔ IsStateful row.transport
  unfolding is_stateful
  is_stateful_iff = ground (
    arith,
    text_eq_iff row.transport (bytes "tcp"),
    text_eq_iff row.transport (bytes "websocket"),
  )

  pub drops_control_iff : (drops_control row ≡ false) ↔ (
      row.valid ≡ true
      → IsStateful row.transport
      → row.codec ≡ bytes "raw"
      → Holds (to_ascii_lowercase row.expectation) (bytes "control")
        × Holds (to_ascii_lowercase row.expectation) (bytes "correlation"))
  unfolding drops_control
  drops_control_iff = ground (
    arith,
    is_stateful_iff,
    text_eq_iff row.codec (bytes "raw"),
    contains_iff (to_ascii_lowercase row.expectation) (bytes "control"),
    contains_iff (to_ascii_lowercase row.expectation) (bytes "correlation"),
  )

Bool-false : {b : Bool} → ¬ (b ≡ true) → b ≡ false
Bool-false {b} h = ground arith

-- The first test of the loop behind the one for duplicates.
pub negative_iff :
    (row : Row)
    → ((starts_with row.case_name (bytes "negative_") && row.valid) ≡ false)
      ↔ (Begins row.case_name (bytes "negative_") → row.valid ≡ false)
negative_iff row = ground (arith, starts_with_iff row.case_name (bytes "negative_"))

module _ (codecs : Codecs) (seen : List Text) (row : Row) where
  check_row-IsSound :
      check_row codecs seen row ≡ ok tt → (¬ Has seen row.case_name) × IsSound codecs row
  unfolding check_row insert_name
  check_row-IsSound h = (
    λ m. ground (arith, has_iff seen row.case_name),
    record {
      negative = (negative_iff row).0 (ground arith);
      codec = (check_codec_iff (get codecs row.codec) row).0 (ground arith);
      structured = (invents_codec_data_iff row).0 (ground arith);
      ndjson = (breaks_ndjson_iff row).0 (ground arith);
      control = (drops_control_iff row).0 (ground arith);
    },
  )

  check_row_complete :
      ¬ Has seen row.case_name → IsSound codecs row → check_row codecs seen row ≡ ok tt
  unfolding check_row insert_name
  check_row_complete fresh s = rw (
    Bool-false (λ h. fresh ((has_iff seen row.case_name).0 h)),
    (negative_iff row).1 s.negative,
    (check_codec_iff (get codecs row.codec) row).1 s.codec,
    (invents_codec_data_iff row).1 s.structured,
    (breaks_ndjson_iff row).1 s.ndjson,
    (drops_control_iff row).1 s.control,
  )

  -- The body of the loop accepts a row exactly when its name is not among those seen, and the
  -- row satisfies the rules for a single row.
  pub check_row_iff :
      (check_row codecs seen row ≡ ok tt) ↔ ((¬ Has seen row.case_name) × IsSound codecs row)
  check_row_iff = (check_row-IsSound, λ (fresh, s). check_row_complete fresh s)

-- The names of the rows.
abbrev pub names : List Row → List Text
names rows = map (λ r. r.case_name) rows
