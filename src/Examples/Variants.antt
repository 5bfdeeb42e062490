-- ===== src/Examples/Variants.antt =====
-- The tests of binary_payload_codec_check.rs: the included matrix, and variants of it that parse
-- and are refused.
use contract_conformance_tes.Base.{
  ℕ, zero, suc, ◌≡◌, refl, if◌then◌else◌, List, [], ◌∷◌, ◌++◌, ok, err, Text, bytes, length,
  starts_with,
}
use contract_conformance_tes.Codec.Matrix.{Row, CheckError}
use contract_conformance_tes.Codec.Parse.{lines, parse_matrix}
use contract_conformance_tes.Codec.Validate.{validate}
use contract_conformance_tes.Examples.Checker.{evaluate}
use contract_conformance_tes.Examples.Matrix.{checked_in}

-- `parse_matrix(source).expect(…)` and `validate(&rows).is_err()`
abbrev IsRefused : Text → Type 0
IsRefused source =
    (rows : List Row) × (e : CheckError) × (parse_matrix source ≡ ok rows) × (validate rows ≡ err e)

abbrev drop : ℕ → Text → Text
drop zero s = s
drop (suc n) [] = []
drop (suc n) (b ∷ s) = drop n s

-- `source.replacen(from, to, 1)`
abbrev replace_first : Text → Text → Text → Text
replace_first from to [] = []
replace_first from to (b ∷ s) =
    let rest = replace_first from to s in
    if starts_with (b ∷ s) from then to ++ drop (length from) (b ∷ s) else b ∷ rest

-- `lines().find(|line| line.starts_with(prefix))`, or nothing to append
abbrev first_with : Text → List Text → Text
first_with prefix [] = []
first_with prefix (line ∷ rest) =
    let later = first_with prefix rest in if starts_with line prefix then line else later

abbrev without : Text → List Text → List Text
without prefix [] = []
without prefix (line ∷ rest) =
    let later = without prefix rest in if starts_with line prefix then later else line ∷ later

-- `join("\n")`
abbrev join_lines : List Text → Text
join_lines [] = []
join_lines (line ∷ []) = line
join_lines (line ∷ (next ∷ rest)) = line ++ (b'\n' ∷ join_lines (next ∷ rest))

abbrev CheckedInMatrixIsHardened : Type 0
CheckedInMatrixIsHardened =
    (rows : List Row) × (parse_matrix checked_in ≡ ok rows) × (validate rows ≡ ok tt)

abbrev DuplicateCaseIsRejected : Type 0
DuplicateCaseIsRejected =
    IsRefused (checked_in ++ (first_with (bytes "http_json\t") (lines checked_in) ++ (b'\n' ∷ [])))

abbrev WireIdDriftIsRejected : Type 0
WireIdDriftIsRejected = IsRefused (
    replace_first (bytes "http_cbor\thttp\tnative-message\tcbor\t3\tapplication/cbor")
      (bytes "http_cbor\thttp\tnative-message\tcbor\t4\tapplication/cbor") checked_in)

abbrev NegativeRowDriftIsRejected : Type 0
NegativeRowDriftIsRejected = IsRefused (
    replace_first
      (bytes "negative_trailing_junk_cbor\tall\ttransport-specific\tcbor\t3\tapplication/cbor")
      (bytes "negative_trailing_junk_cbor\tall\ttransport-specific\tcbor\t4\tapplication/x-cbor")
      checked_in)

abbrev WeakenedShapeIsRejected : Type 0
WeakenedShapeIsRejected = IsRefused (
    replace_first
      (bytes "negative_trailing_junk_cbor\tall\ttransport-specific\tcbor\t3\tapplication/cbor")
      (bytes "negative_trailing_junk_cbor\thttp\tnative-message\tcbor\t3\tapplication/cbor")
      checked_in)

abbrev MissingCaseIsRejected : Type 0
MissingCaseIsRejected =
    IsRefused (join_lines (without (bytes "negative_decompression_bomb\t") (lines checked_in)))

abbrev RawNeedsControlLanguage : Type 0
RawNeedsControlLanguage = IsRefused (
    replace_first
      (bytes
        "raw body bytes remain inside/after typed RPC control metadata carrying protocol version operation key request/correlation id and message kind; bare opaque body is not generic RPC")
      (bytes "raw bytes are preserved") checked_in)

checked_in_matrix : CheckedInMatrixIsHardened
unfolding evaluate
checked_in_matrix = (_, refl, refl)

duplicate_case : DuplicateCaseIsRejected
unfolding evaluate
duplicate_case = (_, _, refl, refl)

wire_id_drift : WireIdDriftIsRejected
unfolding evaluate
wire_id_drift = (_, _, refl, refl)

negative_row_drift : NegativeRowDriftIsRejected
unfolding evaluate
negative_row_drift = (_, _, refl, refl)

weakened_shape : WeakenedShapeIsRejected
unfolding evaluate
weakened_shape = (_, _, refl, refl)

missing_case : MissingCaseIsRejected
unfolding evaluate
missing_case = (_, _, refl, refl)

raw_without_language : RawNeedsControlLanguage
unfolding evaluate
raw_without_language = (_, _, refl, refl)
