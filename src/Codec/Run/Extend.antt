-- ===== src/Codec/Run/Extend.antt =====
-- The program on a matrix with a line appended, as the source's tests make one.
use contract_conformance_tes.Base.{
  ◌≡◌, ◌↔◌, inl, inr, refl, Result-cases, List, [], ◌∷◌, ◌++◌, ok, Text, arith, Has,
}
use contract_conformance_tes.Codec.Matrix.{Row, canonical_codecs}
use contract_conformance_tes.Codec.Parse.{parse_matrix}
use contract_conformance_tes.Codec.Parse.Append.{parse_matrix-append}
use contract_conformance_tes.Codec.Parse.Line.{IsPrintable}
use contract_conformance_tes.Codec.Parse.RoundTrip.{IsOneLine, print_rows}
use contract_conformance_tes.Codec.Validate.{validate}
use contract_conformance_tes.Codec.Validate.Extend.{validate-append}
use contract_conformance_tes.Codec.Validate.Rows.{IsSound, names}
use contract_conformance_tes.Codec.Run.{run, main}

-- For a file that parses, the exit status is the result of `validate`.
main_of_parsed :
    (matrix : Text) (rows : List Row)
    → parse_matrix matrix ≡ ok rows
    → (main matrix ≡ 0) ↔ (validate rows ≡ ok tt)
unfolding main run
main_of_parsed matrix rows h = elim (Result-cases (validate rows)) [
  | inl (done, passed) ↦ rw (h, passed) ((λ _. refl), λ _. refl)
  | inr (e, refused) ↦ rw (h, refused) ((λ k. absurd (omega arith)), λ k. absurd (ground arith))
]

-- A matrix that passes and ends in a line feed still passes with a further row in print exactly
-- if the name of that row is new and the row satisfies the rules for a single row; the row is
-- printable and one line. So a repeated case is refused.
pub main-append :
    (s : Text) (rows : List Row) (r : Row)
    → parse_matrix (s ++ (b'\n' ∷ [])) ≡ ok rows
    → main (s ++ (b'\n' ∷ [])) ≡ 0
    → IsPrintable r
    → IsOneLine r
    → (main (s ++ (b'\n' ∷ print_rows (r ∷ []))) ≡ 0)
      ↔ ((¬ Has (names rows) r.case_name) × IsSound canonical_codecs r)
main-append s rows r parsed passes printable one_line =
    let longer = parse_matrix-append s rows (r ∷ []) parsed (printable, tt) (one_line, tt) in
    let (to, from) = main_of_parsed _ (rows ++ (r ∷ [])) longer in
    let (extended, extends) = validate-append rows r ((main_of_parsed _ rows parsed).0 passes) in
    ((λ h. extended (to h)), λ h. from (extends h))
