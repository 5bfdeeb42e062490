-- ===== src/Codec/Validate/Rejects.antt =====
-- Why a matrix is rejected: by the first rule that it breaks.
use contract_conformance_tes.Base.{
  Distinct, ◌≡◌, ◌≢◌, ◌↔◌, ◌⊎◌, inl, inr, not, Bool-cases, List, [], ◌∷◌, AllHold, FirstFault,
  Decides, Decides-nil, Decides-reject_if, Decides-if, Decides-then, Decides-bind,
  Decides-FirstFault, ok, err, reject_if, Text, text_eq, text_eq_iff, has, has_iff, arith, Has,
  keys, set_eq, collect, ◌>>◌,
}
use contract_conformance_tes.Codec.Matrix.{
  Row, CaseShape, CheckError, missing_case, canonical_codecs, incomplete_coverage,
}
use contract_conformance_tes.Codec.Cases.{required_cases, required_case_shapes}
use contract_conformance_tes.Codec.Validate.{
  Codecs, find_case, require_case_shape, check_required, check_shapes, canonical_positive,
  validate_with, validate,
}
use contract_conformance_tes.Codec.Validate.Rows.{names}
use contract_conformance_tes.Codec.Validate.Loop.{check_rows_iff, Has-recorded}
use contract_conformance_tes.Codec.Validate.Tables.{has_drifted_iff, coverage_iff}
use contract_conformance_tes.Codec.Validate.Rules.{
  case_rules, drift_rules, shape_rules, coverage_rules, hardening_rules,
}
use contract_conformance_tes.Codec.Validate.Faults.{rows-Decides}

case_Decides :
    (rows : List Row) (present cases : List Text)
    → ((c : Text) → Has present c ↔ Has (names rows) c)
    → Decides (check_required present cases) (case_rules rows cases)
unfolding check_required
case_Decides rows present [] same = Decides-nil tt
case_Decides rows present (c ∷ cases) same =
    Decides-if (has present c) _ _ (ground (arith, has_iff present c, same c))
      (case_Decides rows present cases same)

module _ (s : CaseShape) where
  drift_vacuous : (rows : List Row) → ¬ Has (names rows) s.case_name → AllHold (drift_rules s rows)
  drift_vacuous [] absent = tt
  drift_vacuous (row ∷ rows) absent =
      (λ named. absurd (absent (inl named)), drift_vacuous rows (λ m. absent (inr m)))

  shape_passed :
      (rows : List Row)
      → Distinct (names rows)
      → require_case_shape rows s ≡ ok tt
      → Has (names rows) s.case_name × AllHold (drift_rules s rows)
  unfolding require_case_shape find_case
  shape_passed [] distinct h = cc
  shape_passed (row ∷ rows) (new, distinct) h =
      elim (Bool-cases (text_eq row.case_name s.case_name)) [
        | inl same ↦
            let named = (text_eq_iff row.case_name s.case_name).0 same in
            (
              inl named,
              (
                (λ n. (has_drifted_iff s row named).0 (ground arith)),
                drift_vacuous rows (rw named at new),
              ),
            )
        | inr other ↦
            let (found, keep) = shape_passed rows distinct (ground arith) in
            (inr found, ((λ n. ground (arith, text_eq_iff row.case_name s.case_name)), keep))
      ]

  shape_failed :
      (rows : List Row) (e : CheckError)
      → require_case_shape rows s ≡ err e
      → ((e ≡ missing_case s.case_name) × (¬ Has (names rows) s.case_name))
        ⊎ (Has (names rows) s.case_name × FirstFault (drift_rules s rows) e)
  unfolding require_case_shape find_case
  shape_failed [] e h = inl (ground arith, λ m. m)
  shape_failed (row ∷ rows) e h = elim (Bool-cases (text_eq row.case_name s.case_name)) [
    | inl same ↦
        let named = (text_eq_iff row.case_name s.case_name).0 same in
        inr (
          inl named,
          inl (
            (λ fits. ground (arith, (has_drifted_iff s row named).1 (fits named))),
            ground arith,
          ),
        )
    | inr other ↦
        let differs : row.case_name ≢ s.case_name =
          λ n. ground (arith, text_eq_iff row.case_name s.case_name) in
        elim (shape_failed rows e (ground arith)) [
          | inl (same, absent) ↦ inl (same, elim [ inl n ↦ differs n | inr m ↦ absent m ])
          | inr (found, later) ↦ inr (inr found, inr ((λ n. absurd (differs n)), later))
        ]
  ]

shape_Decides :
    (rows : List Row) (shapes : List CaseShape)
    → Distinct (names rows)
    → Decides (check_shapes rows shapes) (shape_rules rows shapes)
unfolding check_shapes
shape_Decides rows [] distinct = Decides-nil tt
shape_Decides rows (s ∷ shapes) distinct =
    Decides-then
      {xs = (Has (names rows) s.case_name, missing_case s.case_name) ∷ drift_rules s rows}
      (record {
        passed = λ a h. shape_passed s rows distinct h;
        failed = λ e h. elim (shape_failed s rows e h) [
          | inl (same, absent) ↦ inl (absent, same)
          | inr (found, first) ↦ inr (found, first)
        ];
      })
      (shape_Decides rows shapes distinct)

module _ (codecs : Codecs) (cases : List Text) (shapes : List CaseShape) (rows : List Row) where
  coverage_Decides :
      Decides
        (reject_if
          (not (set_eq (canonical_positive codecs rows) (collect (keys codecs))))
          (incomplete_coverage (canonical_positive codecs rows)))
        (coverage_rules codecs rows)
  coverage_Decides = Decides-reject_if _ _ _ (ground (arith, coverage_iff codecs rows))

  validate_with-Decides :
      Decides (validate_with codecs cases shapes rows) (hardening_rules codecs cases shapes rows)
  unfolding validate_with
  validate_with-Decides =
      Decides-bind
        (λ present.
          check_required present cases
          >> (check_shapes rows shapes
              >> reject_if (not (set_eq (canonical_positive codecs rows) (collect (keys codecs))))
                  (incomplete_coverage (canonical_positive codecs rows))))
        _ (rows-Decides codecs [] [] rows (λ x. ((λ m. m), λ m. m)))
        (λ present passed.
          let (distinct, sound, same) = (check_rows_iff codecs rows present).0 passed in
          Decides-then
            (case_Decides rows present cases
              (λ c. rw same (ground (arith, Has-recorded [] rows c))))
            (Decides-then (shape_Decides rows shapes distinct) coverage_Decides))

-- `validate` returns an error exactly if it is that of the first rule which the rows break, of
-- these: each row in turn has a new name, is not valid if it is named negative, agrees with its
-- codec, invents no codec data, uses ndjson for json only, and names control and correlation if it
-- is raw over a stream; each required case has a row; each required structure has a row of its name,
-- and no row of its name differs from it; a valid row names each canonical codec.
pub validate-Rejected :
    (rows : List Row) (e : CheckError)
    → (validate rows ≡ err e)
      ↔ FirstFault (hardening_rules canonical_codecs required_cases required_case_shapes rows) e
unfolding validate
validate-Rejected rows e =
    Decides-FirstFault _ _
      (validate_with-Decides canonical_codecs required_cases required_case_shapes rows) e
