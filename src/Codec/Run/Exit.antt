-- ===== src/Codec/Run/Exit.antt =====
-- The program as a whole: for which matrix it exits with status 0.
use contract_conformance_tes.Base.{◌≡◌, ◌↔◌, inl, inr, Result-cases, List, Text, arith}
use contract_conformance_tes.Codec.Matrix.{Row, canonical_codecs}
use contract_conformance_tes.Codec.Cases.{required_cases, required_case_shapes}
use contract_conformance_tes.Codec.Parse.{parse_matrix}
use contract_conformance_tes.Codec.Parse.Grammar.{IsMatrix, parse_matrix_iff}
use contract_conformance_tes.Codec.Validate.{validate}
use contract_conformance_tes.Codec.Validate.Accepts.{IsHardened, validate-IsHardened}
use contract_conformance_tes.Codec.Run.{run, main}

-- The program exits with status 0 exactly for a file that is a matrix of rows, header and rows
-- in print, where those rows are a hardened matrix.
pub main-IsHardened :
    (matrix : Text)
    → (main matrix ≡ 0) ↔ (
        (rows : List Row) × IsMatrix matrix rows
        × IsHardened canonical_codecs required_cases required_case_shapes rows)
unfolding main run
main-IsHardened matrix = (
  forward,
  λ (rows, parsed, hardened).
      rw ((parse_matrix_iff matrix rows).1 parsed, (validate-IsHardened rows).1 hardened),
)
  where
    forward :
        main matrix ≡ 0
        → (rows : List Row) × IsMatrix matrix rows
          × IsHardened canonical_codecs required_cases required_case_shapes rows
    forward h = elim (Result-cases (parse_matrix matrix)) [
      | inl (rows, read) ↦ elim (Result-cases (validate rows)) [
        | inl (done, passed) ↦
            (rows, (parse_matrix_iff matrix rows).0 read, (validate-IsHardened rows).0 passed)
        | inr (e, refused) ↦ absurd (omega (arith, rw (read, refused) at h))
      ]
      | inr (e, refused) ↦ absurd (omega (arith, rw refused at h))
    ]
