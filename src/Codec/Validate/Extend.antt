-- ===== src/Codec/Validate/Extend.antt =====
-- A row behind the rows of a hardened matrix.
use contract_conformance_tes.Base.{
  Distinct, ◌≡◌, ◌↔◌, sym, refl, inl, inr, List, [], ◌∷◌, ◌++◌, Any-append_left, All, All-append,
  All-imp, ok, Text, Has, keys,
}
use contract_conformance_tes.Codec.Matrix.{Row, CaseShape, canonical_codecs}
use contract_conformance_tes.Codec.Validate.{Codecs, validate}
use contract_conformance_tes.Codec.Validate.Rows.{IsSound, names}
use contract_conformance_tes.Codec.Validate.Tables.{HasShape, Covers}
use contract_conformance_tes.Codec.Validate.Accepts.{IsHardened, validate-IsHardened}

Has-names_append :
    (rows : List Row) (r : Row) (name : Text)
    → Has (names rows) name
    → Has (names (rows ++ (r ∷ []))) name
Has-names_append [] r name m = absurd m
Has-names_append (row ∷ rows) r name (inl e) = inl e
Has-names_append (row ∷ rows) r name (inr m) = inr (Has-names_append rows r name m)

-- The names at the end are the old ones and the new one.
Has-names_split :
    (rows : List Row) (r : Row) (name : Text)
    → ¬ (r.case_name ≡ name)
    → Has (names (rows ++ (r ∷ []))) name
    → Has (names rows) name
Has-names_split [] r name n (inl e) = absurd (n e)
Has-names_split [] r name n (inr m) = absurd m
Has-names_split (row ∷ rows) r name n (inl e) = inl e
Has-names_split (row ∷ rows) r name n (inr m) = inr (Has-names_split rows r name n m)

Has-names_last : (rows : List Row) (r : Row) → Has (names (rows ++ (r ∷ []))) r.case_name
Has-names_last [] r = inl refl
Has-names_last (row ∷ rows) r = inr (Has-names_last rows r)

Distinct-append_iff :
    (rows : List Row) (r : Row)
    → Distinct (names rows)
    → Distinct (names (rows ++ (r ∷ []))) ↔ ¬ Has (names rows) r.case_name
Distinct-append_iff [] r h = ((λ _ m. m), λ _. ((λ m. m), tt))
Distinct-append_iff (row ∷ rows) r (new, h) = (
  λ (fresh, later) m. elim m [
    | inl e ↦ fresh (rw e (Has-names_last rows r))
    | inr old ↦ (Distinct-append_iff rows r h).0 later old
  ],
  λ absent. (
    (λ m. new (Has-names_split rows r row.case_name (λ e. absent (inl (sym e))) m)),
    (Distinct-append_iff rows r h).1 (λ m. absent (inr m)),
  ),
)

All-last : (P : Row → Type 0) (rows : List Row) (r : Row) → All P (rows ++ (r ∷ [])) → P r
All-last P [] r (p, _) = p
All-last P (row ∷ rows) r (_, h) = All-last P rows r h

module _ {codecs : Codecs} {cases : List Text} {shapes : List CaseShape} (rows : List Row)
    (r : Row) where
  IsHardened-append :
      IsHardened codecs cases shapes rows
      → ¬ Has (names rows) r.case_name
      → IsSound codecs r
      → IsHardened codecs cases shapes (rows ++ (r ∷ []))
  IsHardened-append h fresh sound = record {
    distinct = (Distinct-append_iff rows r h.distinct).1 fresh;
    sound = All-append (IsSound codecs) rows (r ∷ []) h.sound (sound, tt);
    required = All-imp (Has-names_append rows r) cases h.required;
    shaped = All-imp (λ s. Any-append_left (HasShape s) rows (r ∷ [])) shapes h.shaped;
    covered = All-imp (λ key. Any-append_left (Covers key) rows (r ∷ [])) (keys codecs) h.covered;
  }

-- Behind the rows that `validate` accepts, it accepts exactly the further rows whose name is new
-- and that satisfy the rules for a single row.
pub validate-append :
    (rows : List Row) (r : Row)
    → validate rows ≡ ok tt
    → (validate (rows ++ (r ∷ [])) ≡ ok tt)
      ↔ ((¬ Has (names rows) r.case_name) × IsSound canonical_codecs r)
validate-append rows r h =
    let hardened = (validate-IsHardened rows).0 h in
    (
      λ k.
          let longer = (validate-IsHardened (rows ++ (r ∷ []))).0 k in
          (
            (Distinct-append_iff rows r hardened.distinct).0 longer.distinct,
            All-last (IsSound canonical_codecs) rows r longer.sound,
          ),
      λ (fresh, sound).
          (validate-IsHardened (rows ++ (r ∷ []))).1
            (IsHardened-append rows r hardened fresh sound),
    )
