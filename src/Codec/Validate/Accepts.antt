-- ===== src/Codec/Validate/Accepts.antt =====
-- Which matrices the checker accepts: an independent description, and that it is exact.
use contract_conformance_tes.Base.{
  Distinct, ◌≡◌, ◌↔◌, inl, inr, refl, Result-cases, List, [], ◌∷◌, All, Any, ok, Text, arith, Has,
  keys,
}
use contract_conformance_tes.Codec.Matrix.{Row, CaseShape, canonical_codecs}
use contract_conformance_tes.Codec.Cases.{required_cases, required_case_shapes}
use contract_conformance_tes.Codec.Validate.{Codecs, check_rows, validate_with, validate}
use contract_conformance_tes.Codec.Validate.Rows.{IsSound, names}
use contract_conformance_tes.Codec.Validate.Loop.{recorded, check_rows_iff, Has-recorded}
use contract_conformance_tes.Codec.Validate.Tables.{
  check_required_iff, HasShape, check_shapes_iff, Covers, coverage_iff,
}

-- The rows of a hardened matrix, for given tables.
pub record IsHardened (codecs : Codecs) (cases : List Text) (shapes : List CaseShape)
    (rows : List Row) : Type 0 where
  pub distinct : Distinct (names rows)
  pub sound : All (IsSound codecs) rows
  pub required : All (Has (names rows)) cases
  pub shaped : All (λ s. Any (HasShape s) rows) shapes
  pub covered : All (λ key. Any (Covers key) rows) (keys codecs)

required_iff :
    (rows : List Row) (cases : List Text)
    → All (Has (recorded [] rows)) cases ↔ All (Has (names rows)) cases
required_iff rows [] = ((λ _. tt), λ _. tt)
required_iff rows (c ∷ cases) = ground (arith, Has-recorded [] rows c, required_iff rows cases)

module _ (codecs : Codecs) (cases : List Text) (shapes : List CaseShape) (rows : List Row) where
  validate_with_sound :
      validate_with codecs cases shapes rows ≡ ok tt → IsHardened codecs cases shapes rows
  unfolding validate_with
  validate_with_sound h = elim (Result-cases (check_rows codecs [] rows)) [
    | inl (present, passed) ↦
        let (distinct, sound, same) = (check_rows_iff codecs rows present).0 passed in
        let listed = (check_required_iff present cases).0 (ground arith) in
        record {
          distinct = distinct;
          sound = sound;
          required = (required_iff rows cases).0 (rw same at listed);
          shaped = (check_shapes_iff rows shapes distinct).0 (ground arith);
          covered = (coverage_iff codecs rows).0 (ground arith);
        }
    | inr (e, refused) ↦ absurd (ground arith)
  ]

  validate_with_complete :
      IsHardened codecs cases shapes rows → validate_with codecs cases shapes rows ≡ ok tt
  unfolding validate_with
  validate_with_complete h = rw (
    (check_rows_iff codecs rows (recorded [] rows)).1 (h.distinct, h.sound, refl),
    (check_required_iff (recorded [] rows) cases).1 ((required_iff rows cases).1 h.required),
    (check_shapes_iff rows shapes h.distinct).1 h.shaped,
    (coverage_iff codecs rows).1 h.covered,
  )

-- `validate` accepts exactly the matrices whose case names are distinct, whose rows each satisfy
-- the rules for a row, that have every required case, a row of each required structure, and for
-- each canonical codec a valid row that names it.
pub validate-IsHardened :
    (rows : List Row)
    → (validate rows ≡ ok tt) ↔ IsHardened canonical_codecs required_cases required_case_shapes rows
unfolding validate
validate-IsHardened rows = (
  validate_with_sound canonical_codecs required_cases required_case_shapes rows,
  validate_with_complete canonical_codecs required_cases required_case_shapes rows,
)
