-- ===== src/Codec/Parse/Faults.antt =====
-- What is wrong with a line, in the order in which the loop looks for it.
use contract_conformance_tes.Base.{
  ℕ, ◌≡◌, ◌≢◌, ◌↔◌, inl, inr, refl, true, Bool-cases, Any, any_iff, is_empty_iff, is_empty, any,
  get_elem?, some, List, [], ◌∷◌, length, err, Text, bytes, text_eq_iff, arith,
}
use contract_conformance_tes.Codec.Matrix.{CheckError, field_count, empty_field, invalid_boolean}
use contract_conformance_tes.Codec.Parse.{split, parse_valid, parse_fields, parse_line}

-- The first fault of the fields of a line: not eight of them, an empty one, or a seventh that is
-- no truth value; with the error that says so.
pub data LineFault (number : ℕ) (fields : List Text) (e : CheckError) : Type 0 where
  miscounted : e ≡ field_count number → length fields ≢ 8 → LineFault number fields e
  with_empty :
      e ≡ empty_field number
      → length fields ≡ 8
      → Any (λ f. f ≡ []) fields
      → LineFault number fields e
  not_boolean :
      (field : Text)
      → e ≡ invalid_boolean number field
      → length fields ≡ 8
      → ¬ Any (λ f. f ≡ []) fields
      → get_elem? fields 6 ≡ some field
      → field ≢ bytes "true"
      → field ≢ bytes "false"
      → LineFault number fields e

parse_valid_iff :
    (number : ℕ) (field : Text) (e : CheckError)
    → (parse_valid number field ≡ err e)
      ↔ ((e ≡ invalid_boolean number field) × (field ≢ bytes "true") × (field ≢ bytes "false"))
unfolding parse_valid
parse_valid_iff number field e =
    ground (arith, text_eq_iff field (bytes "true"), text_eq_iff field (bytes "false"))

any_empty_iff : (fields : List Text) → (any is_empty fields ≡ true) ↔ Any (λ f. f ≡ []) fields
any_empty_iff fields = any_iff (λ f. f ≡ []) is_empty is_empty_iff fields

parse_fields_refused :
    (number : ℕ) (fields : List Text) (e : CheckError)
    → parse_fields number fields ≡ err e
    → LineFault number fields e
unfolding parse_fields
parse_fields_refused number (f0 ∷ f1 ∷ f2 ∷ f3 ∷ f4 ∷ f5 ∷ f6 ∷ f7 ∷ []) e h =
    let fields : List Text = f0 ∷ f1 ∷ f2 ∷ f3 ∷ f4 ∷ f5 ∷ f6 ∷ f7 ∷ [] in
    elim (Bool-cases (any is_empty fields)) [
      | inl some_empty ↦ with_empty (ground arith) refl ((any_empty_iff fields).0 some_empty)
      | inr full ↦
          let (same, not_true, not_false) = (parse_valid_iff number f6 e).0 (ground arith) in
          not_boolean f6 same refl (λ m. cc ((any_empty_iff fields).1 m)) refl not_true not_false
    ]
parse_fields_refused number _ e h = miscounted (ground arith) (omega arith)

parse_fields_faulty :
    (number : ℕ) (fields : List Text) (e : CheckError)
    → LineFault number fields e
    → parse_fields number fields ≡ err e
unfolding parse_fields
parse_fields_faulty number (f0 ∷ f1 ∷ f2 ∷ f3 ∷ f4 ∷ f5 ∷ f6 ∷ f7 ∷ []) e fault =
    let fields : List Text = f0 ∷ f1 ∷ f2 ∷ f3 ∷ f4 ∷ f5 ∷ f6 ∷ f7 ∷ [] in
    elim fault [
      | miscounted same n ↦ absurd (n refl)
      | with_empty same n m ↦ rw ((any_empty_iff fields).1 m) (ground arith)
      | not_boolean field same n full seventh not_true not_false ↦
          elim (Bool-cases (any is_empty fields)) [
            | inl some_empty ↦ absurd (full ((any_empty_iff fields).0 some_empty))
            | inr none_empty ↦
                let bad = (parse_valid_iff number f6 e).1 (ground arith) in
                rw (none_empty, bad) refl
          ]
    ]
parse_fields_faulty number _ e (miscounted same n) = ground arith
parse_fields_faulty number _ e (with_empty same n m) = absurd (omega arith)
parse_fields_faulty number _ e (not_boolean field same n full seventh t f) = absurd (omega arith)

-- A line gives an error exactly for the first fault of its fields.
pub parse_line-LineFault :
    (number : ℕ) (line : Text) (e : CheckError)
    → (parse_line number line ≡ err e) ↔ LineFault number (split b'\t' line) e
unfolding parse_line
parse_line-LineFault number line e = (
  parse_fields_refused number (split b'\t' line) e,
  parse_fields_faulty number (split b'\t' line) e,
)
