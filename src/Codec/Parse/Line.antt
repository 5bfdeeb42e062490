-- ===== src/Codec/Parse/Line.antt =====
-- One line: the printed form of a row, and that the parser accepts exactly printed rows.
use contract_conformance_tes.Base.{
  is_empty_iff, ℕ, ◌≡◌, ◌≢◌, ◌↔◌, inl, inr, refl, sym, ap, subst, ◌∙◌, Bool, true, false,
  Bool-cases, Result-cases, List, [], ◌∷◌, All, any, ok, Text, bytes, text_eq, text_eq_iff,
  is_empty, arith,
}
use contract_conformance_tes.Codec.Matrix.{Row}
use contract_conformance_tes.Codec.Parse.{split, parse_valid, parse_fields, parse_line}
use contract_conformance_tes.Codec.Parse.Split.{
  Lacks, join, join-split, split-Lacks, split_of_Lacks, split-append,
}

abbrev pub print_valid : Bool → Text
print_valid true = bytes "true"
print_valid false = bytes "false"

-- The fields of a row in the order of the header.
abbrev pub print_fields : Row → List Text
print_fields r =
    r.case_name
    ∷ r.transport
    ∷ r.framing
    ∷ r.codec
    ∷ r.wire_id
    ∷ r.media_type
    ∷ print_valid r.valid
    ∷ r.expectation
    ∷ []

-- A row as a line of the file.
unfoldable pub print_row : Row → Text
print_row r = join b'\t' (print_fields r)

-- A field that a line can hold: not empty, and with no tab.
abbrev pub IsField : Text → Type 0
IsField f = (f ≢ []) × Lacks b'\t' f

abbrev pub IsPrintable : Row → Type 0
IsPrintable r = All IsField (print_fields r)

print_valid-eq :
    (number : ℕ) (field : Text) (valid : Bool)
    → parse_valid number field ≡ ok valid
    → field ≡ print_valid valid
unfolding parse_valid
print_valid-eq number field valid h =
    ground (arith, text_eq_iff field (bytes "true"), text_eq_iff field (bytes "false"))

parse_valid-print_valid :
    (number : ℕ) (valid : Bool) → parse_valid number (print_valid valid) ≡ ok valid
unfolding parse_valid text_eq
parse_valid-print_valid number true = refl
parse_valid-print_valid number false = refl

All-zip :
    {A : Type 0} (P Q : A → Type 0) (xs : List A) → All P xs → All Q xs → All (λ x. P x × Q x) xs
All-zip P Q [] h k = tt
All-zip P Q (x ∷ xs) (p, h) (q, k) = ((p, q), All-zip P Q xs h k)

All-second : {A : Type 0} (P Q : A → Type 0) (xs : List A) → All (λ x. P x × Q x) xs → All Q xs
All-second P Q [] h = tt
All-second P Q (x ∷ xs) ((p, q), h) = (q, All-second P Q xs h)

All-first : {A : Type 0} (P Q : A → Type 0) (xs : List A) → All (λ x. P x × Q x) xs → All P xs
All-first P Q [] h = tt
All-first P Q (x ∷ xs) ((p, q), h) = (p, All-first P Q xs h)

any-is_empty_iff : (fs : List Text) → (any is_empty fs ≡ false) ↔ All (λ f. f ≢ []) fs
any-is_empty_iff [] = ((λ _. tt), λ _. refl)
any-is_empty_iff (f ∷ fs) = ground (arith, is_empty_iff f, any-is_empty_iff fs)

-- The fields that the parser accepts are those of the row that it returns, and none is empty.
parse_fields_sound :
    (number : ℕ) (fields : List Text) (r : Row)
    → parse_fields number fields ≡ ok r
    → (fields ≡ print_fields r) × All (λ f. f ≢ []) fields
unfolding parse_fields
parse_fields_sound number (f0 ∷ f1 ∷ f2 ∷ f3 ∷ f4 ∷ f5 ∷ f6 ∷ f7 ∷ []) r h =
    let fields : List Text = f0 ∷ f1 ∷ f2 ∷ f3 ∷ f4 ∷ f5 ∷ f6 ∷ f7 ∷ [] in
    elim (Bool-cases (any is_empty fields)) [
      | inl some_empty ↦ absurd (ground arith)
      | inr full ↦ elim (Result-cases (parse_valid number f6)) [
        | inl (valid, read) ↦
            (ground (arith, print_valid-eq number f6 valid), (any-is_empty_iff fields).0 full)
        | inr (e, refused) ↦ absurd (ground arith)
      ]
    ]
parse_fields_sound number _ r h = cc

parse_fields_complete :
    (number : ℕ) (r : Row) → IsPrintable r → parse_fields number (print_fields r) ≡ ok r
unfolding parse_fields
parse_fields_complete number r h = rw (
  (any-is_empty_iff (print_fields r)).1 (All-first (λ f. f ≢ []) (Lacks b'\t') (print_fields r) h),
  parse_valid-print_valid,
)

split-join :
    (sep : ℕ) (piece : Text) (pieces : List Text)
    → All (Lacks sep) (piece ∷ pieces)
    → split sep (join sep (piece ∷ pieces)) ≡ piece ∷ pieces
split-join sep piece [] (h, _) = split_of_Lacks sep piece h
split-join sep piece (next ∷ pieces) (h, hs) =
    split-append sep piece (join sep (next ∷ pieces)) h
    ∙ ap (λ l. piece ∷ l) (split-join sep next pieces hs)

parse_line_sound :
    (number : ℕ) (line : Text) (r : Row)
    → parse_line number line ≡ ok r
    → (line ≡ print_row r) × IsPrintable r
unfolding parse_line print_row
parse_line_sound number line r h =
    let (same, full) = parse_fields_sound number (split b'\t' line) r h in
    (
      sym (join-split b'\t' line) ∙ ap (join b'\t') same,
      subst (All IsField) same
          (All-zip (λ f. f ≢ []) (Lacks b'\t') (split b'\t' line) full (split-Lacks b'\t' line)),
    )

parse_line_complete :
    (number : ℕ) (r : Row) → IsPrintable r → parse_line number (print_row r) ≡ ok r
unfolding parse_line print_row
parse_line_complete number r h =
    rw (split-join b'\t' _ _ (All-second (λ f. f ≢ []) (Lacks b'\t') (print_fields r) h))
      (parse_fields_complete number r h)

-- A line is accepted exactly if it is a printable row in print, whatever its number.
pub parse_line_iff :
    (number : ℕ) (line : Text) (r : Row)
    → (parse_line number line ≡ ok r) ↔ ((line ≡ print_row r) × IsPrintable r)
parse_line_iff number line r =
    (parse_line_sound number line r, λ (same, h). rw same (parse_line_complete number r h))
