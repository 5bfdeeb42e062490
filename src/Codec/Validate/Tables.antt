-- ===== src/Codec/Validate/Tables.antt =====
-- The checks against the tables: required cases, their shapes, and the coverage of the codecs.
use contract_conformance_tes.Base.{
  Distinct, ◌≡◌, ◌↔◌, inl, inr, refl, true, false, ◌&&◌, Bool-cases, Result-cases, List, [], ◌∷◌,
  All, Any, ok, Text, text_eq, text_eq_iff, arith, Has, get, has_iff, is_known, keys, Has-collect,
  collect, collect-IsSorted, is_known-get, All-Has_elem, All-of_Has, set_eq, set_eq_iff,
}
use contract_conformance_tes.Codec.Matrix.{Row, CaseShape}
use contract_conformance_tes.Codec.Validate.{
  Codecs, check_required, find_case, has_drifted, require_case_shape, check_shapes, positive_codecs,
  canonical_positive,
}
use contract_conformance_tes.Codec.Validate.Rows.{names}

pub check_required_iff :
    (present cases : List Text) → (check_required present cases ≡ ok tt) ↔ All (Has present) cases
unfolding check_required
check_required_iff present [] = ((λ _. tt), λ _. refl)
check_required_iff present (c ∷ cases) =
    ground (arith, has_iff present c, check_required_iff present cases)

-- A row has the structure that the table demands of its case.
pub record HasShape (expected : CaseShape) (row : Row) : Type 0 where
  pub case_name : row.case_name ≡ expected.case_name
  pub transport : row.transport ≡ expected.transport
  pub framing : row.framing ≡ expected.framing
  pub codec : row.codec ≡ expected.codec
  pub wire_id : row.wire_id ≡ expected.wire_id
  pub media_type : row.media_type ≡ expected.media_type
  pub valid : row.valid ≡ expected.valid

pub has_drifted_iff :
    (expected : CaseShape) (row : Row)
    → row.case_name ≡ expected.case_name
    → (has_drifted expected row ≡ false) ↔ HasShape expected row
unfolding has_drifted
has_drifted_iff expected row named = ground (
  arith,
  text_eq_iff row.transport expected.transport,
  text_eq_iff row.framing expected.framing,
  text_eq_iff row.codec expected.codec,
  text_eq_iff row.wire_id expected.wire_id,
  text_eq_iff row.media_type expected.media_type,
)

module _ (expected : CaseShape) where
  shape_sound :
      (rows : List Row) → require_case_shape rows expected ≡ ok tt → Any (HasShape expected) rows
  unfolding require_case_shape find_case
  shape_sound [] h = absurd (ground arith)
  shape_sound (row ∷ rows) h = elim (Bool-cases (text_eq row.case_name expected.case_name)) [
    | inl same ↦ inl (
        (has_drifted_iff expected row ((text_eq_iff row.case_name expected.case_name).0 same)).0
          (ground arith))
    | inr other ↦ inr (shape_sound rows (ground arith))
  ]

  names_of_shape :
      (rows : List Row) → Any (HasShape expected) rows → Has (names rows) expected.case_name
  names_of_shape [] h = h
  names_of_shape (row ∷ rows) (inl shape) = inl shape.case_name
  names_of_shape (row ∷ rows) (inr later) = inr (names_of_shape rows later)

  shape_complete :
      (rows : List Row)
      → Distinct (names rows)
      → Any (HasShape expected) rows
      → require_case_shape rows expected ≡ ok tt
  unfolding require_case_shape find_case
  shape_complete [] distinct h = absurd h
  shape_complete (row ∷ rows) distinct (inl shape) = rw (
    (text_eq_iff row.case_name expected.case_name).1 shape.case_name,
    (has_drifted_iff expected row shape.case_name).1 shape,
  )
  shape_complete (row ∷ rows) (new, distinct) (inr later) =
      elim (Bool-cases (text_eq row.case_name expected.case_name)) [
        | inl same ↦
            let named = (text_eq_iff row.case_name expected.case_name).0 same in
            absurd (new (rw named (names_of_shape rows later)))
        | inr other ↦ rw other (shape_complete rows distinct later)
      ]

-- With distinct names, the shapes are accepted exactly when each has a row of that structure.
pub check_shapes_iff :
    (rows : List Row) (shapes : List CaseShape)
    → Distinct (names rows)
    → (check_shapes rows shapes ≡ ok tt) ↔ All (λ s. Any (HasShape s) rows) shapes
unfolding check_shapes
check_shapes_iff rows [] distinct = ((λ _. tt), λ _. refl)
check_shapes_iff rows (s ∷ shapes) distinct = (
  λ h. elim (Result-cases (require_case_shape rows s)) [
    | inl (done, found) ↦
        (shape_sound s rows found, (check_shapes_iff rows shapes distinct).0 (ground arith))
    | inr (e, refused) ↦ absurd (ground arith)
  ],
  λ (found, rest).
      rw (shape_complete s rows distinct found) ((check_shapes_iff rows shapes distinct).1 rest),
)

-- A valid row names the codec.
abbrev pub Covers : Text → Row → Type 0
Covers codec row = (row.valid ≡ true) × (row.codec ≡ codec)

module _ (codecs : Codecs) where
  Has-positive_codecs :
      (rows : List Row) (key : Text)
      → Has (positive_codecs codecs rows) key ↔ (Has (keys codecs) key × Any (Covers key) rows)
  unfolding positive_codecs
  Has-positive_codecs [] key = ((λ m. absurd m), λ (k, m). absurd m)
  Has-positive_codecs (row ∷ rows) key =
      elim (Bool-cases (row.valid && is_known (get codecs row.codec))) [
        | inl taken ↦
            let known = (is_known-get codecs row.codec).0 (ground arith) in
            rw taken (
              (elim [
                | inl e ↦ (rw (← e) known, inl (ground arith, e))
                | inr m ↦ let (k, later) = (Has-positive_codecs rows key).0 m in (k, inr later)
              ]),
              λ (k, found). elim found [
                | inl (v, e) ↦ inl e
                | inr later ↦ inr ((Has-positive_codecs rows key).1 (k, later))
              ],
            )
        | inr left ↦ rw left (
          (λ m. let (k, later) = (Has-positive_codecs rows key).0 m in (k, inr later)),
          λ (k, found). elim found [
            | inl (v, e) ↦
                let known = (is_known-get codecs row.codec).1 (rw e k) in absurd (ground arith)
            | inr later ↦ (Has-positive_codecs rows key).1 (k, later)
          ],
        )
      ]

  pub Has-canonical_positive :
      (rows : List Row) (key : Text)
      → Has (canonical_positive codecs rows) key ↔ (Has (keys codecs) key × Any (Covers key) rows)
  unfolding canonical_positive
  Has-canonical_positive rows key =
      ground (arith, Has-collect (positive_codecs codecs rows) key, Has-positive_codecs rows key)

  -- The two sets agree exactly when each canonical codec is named by a valid row.
  pub coverage_iff :
      (rows : List Row)
      → (set_eq (canonical_positive codecs rows) (collect (keys codecs)) ≡ true)
        ↔ All (λ key. Any (Covers key) rows) (keys codecs)
  unfolding canonical_positive
  coverage_iff rows =
      let (to, from) =
        set_eq_iff (canonical_positive codecs rows) (collect (keys codecs))
          (collect-IsSorted (positive_codecs codecs rows)) (collect-IsSorted (keys codecs)) in
      (
        λ h.
            All-of_Has (λ key. Any (Covers key) rows) (keys codecs)
              (λ key m.
                ground (
                  arith,
                  to h key,
                  Has-collect (keys codecs) key,
                  Has-canonical_positive rows key,
                )),
        λ h. from (λ key. ground (
          arith,
          Has-collect (keys codecs) key,
          Has-canonical_positive rows key,
          All-Has_elem (λ k. Any (Covers k) rows) (keys codecs) key h,
        )),
      )
