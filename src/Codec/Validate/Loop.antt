-- ===== src/Codec/Validate/Loop.antt =====
-- The loop over all rows: the names it has seen, and when it runs to its end.
use contract_conformance_tes.Base.{
  Distinct, ◌≡◌, ◌↔◌, ◌⊎◌, inl, inr, refl, sym, Result-cases, List, [], ◌∷◌, All, ok, Text, arith,
  Has, Has-place, insert_name,
}
use contract_conformance_tes.Codec.Matrix.{Row}
use contract_conformance_tes.Codec.Validate.{Codecs, check_row, check_rows}
use contract_conformance_tes.Codec.Validate.Rows.{IsSound, check_row_iff, names}

-- No row has a name among those seen.
abbrev pub AllFresh : List Text → List Row → Type 0
AllFresh seen rows = All (λ r. ¬ Has seen r.case_name) rows

-- The names seen at the end of the loop.
abbrev pub recorded : List Text → List Row → List Text
recorded seen [] = seen
recorded seen (row ∷ rows) = recorded (insert_name row.case_name seen).1 rows

-- What an insertion adds to the names seen.
Has-seen :
    (name : Text) (seen : List Text) (x : Text)
    → Has (insert_name name seen).1 x ↔ ((name ≡ x) ⊎ Has seen x)
unfolding insert_name
Has-seen = Has-place

pub AllFresh-insert :
    (name : Text) (seen : List Text) (rows : List Row)
    → AllFresh (insert_name name seen).1 rows ↔ ((¬ Has (names rows) name) × AllFresh seen rows)
AllFresh-insert name seen [] = ((λ _. ((λ x. x), tt)), λ _. tt)
AllFresh-insert name seen (row ∷ rows) =
    let (to, from) = Has-seen name seen row.case_name in
    (
      λ (fresh, rest).
          let (new, old) = (AllFresh-insert name seen rows).0 rest in
          (
            (elim [ inl e ↦ fresh (from (inl (sym e))) | inr m ↦ new m ]),
            (λ m. fresh (from (inr m)), old),
          ),
      λ (new, (fresh, old)). (
        (λ m. elim (to m) [ inl e ↦ new (inl (sym e)) | inr m' ↦ fresh m' ]),
        (AllFresh-insert name seen rows).1 ((λ m. new (inr m)), old),
      ),
    )

module _ (codecs : Codecs) where
  pub check_rows-IsSound :
      (seen : List Text) (rows : List Row) (present : List Text)
      → check_rows codecs seen rows ≡ ok present
      → AllFresh seen rows
        × Distinct (names rows)
        × All (IsSound codecs) rows
        × (present ≡ recorded seen rows)
  unfolding check_rows
  check_rows-IsSound seen [] present h = (tt, tt, tt, ground arith)
  check_rows-IsSound seen (row ∷ rows) present h = elim (Result-cases (check_row codecs seen row)) [
    | inl (done, passed) ↦
        let (fresh, sound) = (check_row_iff codecs seen row).0 passed in
        let (later, distinct, sounds, same) =
          check_rows-IsSound (insert_name row.case_name seen).1 rows present (ground arith) in
        let (new, old) = (AllFresh-insert row.case_name seen rows).0 later in
        ((fresh, old), (new, distinct), (sound, sounds), same)
    | inr (e, refused) ↦ absurd (ground arith)
  ]

  check_rows_complete :
      (seen : List Text) (rows : List Row)
      → AllFresh seen rows
      → Distinct (names rows)
      → All (IsSound codecs) rows
      → check_rows codecs seen rows ≡ ok (recorded seen rows)
  unfolding check_rows
  check_rows_complete seen [] fresh distinct sound = refl
  check_rows_complete seen (row ∷ rows) (fresh, old) (new, distinct) (sound, sounds) =
      rw ((check_row_iff codecs seen row).1 (fresh, sound)) (
        check_rows_complete (insert_name row.case_name seen).1 rows
          ((AllFresh-insert row.case_name seen rows).1 (new, old)) distinct sounds)

  -- Started with no name seen, the loop ends exactly when the names are distinct and every row
  -- is sound, and it then returns the names of the rows.
  pub check_rows_iff :
      (rows : List Row) (present : List Text)
      → (check_rows codecs [] rows ≡ ok present)
        ↔ (Distinct (names rows) × All (IsSound codecs) rows × (present ≡ recorded [] rows))
  check_rows_iff rows present = (
    λ h.
        let (_, distinct, sound, same) = check_rows-IsSound [] rows present h in
        (distinct, sound, same),
    λ (distinct, sound, same).
        rw same (check_rows_complete [] rows (none_seen rows) distinct sound),
  )
    where
      none_seen : (rows : List Row) → AllFresh [] rows
      none_seen [] = tt
      none_seen (row ∷ rows) = ((λ x. x), none_seen rows)

-- The names at the end are those of the rows, and those at the start.
pub Has-recorded :
    (seen : List Text) (rows : List Row) (name : Text)
    → Has (recorded seen rows) name ↔ (Has (names rows) name ⊎ Has seen name)
Has-recorded seen [] name = (inr, elim [ inl x ↦ absurd x | inr m ↦ m ])
Has-recorded seen (row ∷ rows) name = ground (
  arith,
  Has-recorded (insert_name row.case_name seen).1 rows name,
  Has-seen row.case_name seen name,
)
