-- ===== src/Codec/Matrix.antt =====
-- The types of the checker, its header, the canonical codecs and the errors.
use contract_conformance_tes.Base.{ℕ, Bool, Text, bytes, List, [], ◌∷◌, insert_entries}

abbrev pub header : Text
header = bytes "case\ttransport\tframing\tcodec\twire_id\tmedia_type\tvalid\texpectation"

pub record CodecSpec : Type 0 where
  pub wire_id : Text
  pub media_type : Text

pub record Row : Type 0 where
  pub case_name : Text
  pub transport : Text
  pub framing : Text
  pub codec : Text
  pub wire_id : Text
  pub media_type : Text
  pub valid : Bool
  pub expectation : Text

pub record CaseShape : Type 0 where
  pub case_name : Text
  pub transport : Text
  pub framing : Text
  pub codec : Text
  pub wire_id : Text
  pub media_type : Text
  pub valid : Bool

-- `BTreeMap::from` of the entries in the order of the source.
unfoldable pub canonical_codecs : List (Text × CodecSpec)
unfolding insert_entries
canonical_codecs = insert_entries [] (
    (bytes "json", record { wire_id = bytes "1"; media_type = bytes "application/json" })
    ∷ (
      bytes "messagepack",
      record { wire_id = bytes "2"; media_type = bytes "application/msgpack" },
    )
    ∷ (bytes "cbor", record { wire_id = bytes "3"; media_type = bytes "application/cbor" })
    ∷ (
      bytes "protobuf",
      record { wire_id = bytes "4"; media_type = bytes "application/x-protobuf" },
    )
    ∷ (bytes "raw", record { wire_id = bytes "5"; media_type = bytes "application/octet-stream" })
    ∷ [])

-- An error, with what its message interpolates: the number of a line, the parts of a row.
pub data CheckError : Type 0 where
  header_not_canonical : CheckError
  field_count empty_field : ℕ → CheckError
  invalid_boolean : ℕ → Text → CheckError
  empty_matrix : CheckError
  missing_case : Text → CheckError
  drifted_case : Row → CheckError
  duplicate_case negative_marked_valid : Text → CheckError
  wrong_wire_id : Row → Text → CheckError
  wrong_media_type : Row → Text → CheckError
  unknown_codec invented_codec_data ndjson_not_json raw_without_control : Row → CheckError
  missing_required : Text → CheckError
  incomplete_coverage : List Text → CheckError
