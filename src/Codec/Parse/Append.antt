-- ===== src/Codec/Parse/Append.antt =====
-- A line behind the end of a matrix.
use mathlib.Core.List.{append-nil}
use contract_conformance_tes.Base.{
  ℕ, ◌≡◌, ◌≢◌, ◌∙◌, inl, inr, refl, sym, ap, Bool-cases, ◌==◌, List, [], ◌∷◌, ◌++◌, map, All,
  All-append, ok, Text, is_empty, arith,
}
use contract_conformance_tes.Codec.Matrix.{Row, header}
use contract_conformance_tes.Codec.Parse.{push_byte, split, strip_cr, ended, lines, parse_matrix}
use contract_conformance_tes.Codec.Parse.Split.{IsCons, split-IsCons, lines-nil}
use contract_conformance_tes.Codec.Parse.Line.{print_row, IsPrintable}
use contract_conformance_tes.Codec.Parse.Grammar.{written, parse_matrix_iff}
use contract_conformance_tes.Codec.Parse.RoundTrip.{
  IsOneLine, print_rows, lines-print_rows, written-print_row,
}

push_byte-append :
    (b : ℕ) (xs ys : List Text) → IsCons xs → push_byte b (xs ++ ys) ≡ push_byte b xs ++ ys
unfolding push_byte
push_byte-append b _ ys (IsCons.cons piece pieces) = refl

split-append_any : (sep : ℕ) (s t : Text) → split sep (s ++ (sep ∷ t)) ≡ split sep s ++ split sep t
unfolding split
split-append_any sep [] t = ground arith
split-append_any sep (b ∷ s) t = elim (Bool-cases (b == sep)) [
  | inl same ↦ rw same (ap (λ l. [] ∷ l) (split-append_any sep s t))
  | inr other ↦
      rw (other, split-append_any sep s t)
        (push_byte-append b (split sep s) (split sep t) (split-IsCons sep s))
]

ended-append : (xs ys : List Text) → IsCons ys → ended (xs ++ ys) ≡ map strip_cr xs ++ ended ys
unfolding ended
ended-append [] ys c = refl
ended-append (x ∷ []) _ (IsCons.cons piece pieces) = refl
ended-append (x ∷ (y ∷ xs)) ys c = ap (λ l. strip_cr x ∷ l) (ended-append (y ∷ xs) ys c)

-- The lines in front of a line feed and those behind it.
lines-split : (s t : Text) → lines (s ++ (b'\n' ∷ t)) ≡ map strip_cr (split b'\n' s) ++ lines t
unfolding lines
lines-split s t =
    rw (split-append_any b'\n' s t)
      (ended-append (split b'\n' s) (split b'\n' t) (split-IsCons b'\n' t))

written-append : (xs ys : List Text) → written (xs ++ ys) ≡ written xs ++ written ys
written-append [] ys = refl
written-append (x ∷ xs) ys = elim (Bool-cases (is_empty x)) [
  | inl blank ↦ rw blank (written-append xs ys)
  | inr full ↦ rw full (ap (λ l. x ∷ l) (written-append xs ys))
]

map-append : (xs ys : List Row) → map print_row (xs ++ ys) ≡ map print_row xs ++ map print_row ys
map-append [] ys = refl
map-append (x ∷ xs) ys = ap (λ l. print_row x ∷ l) (map-append xs ys)

append_filled : (xs ys : List Row) → xs ≢ [] → xs ++ ys ≢ []
append_filled [] ys h = absurd (h refl)
append_filled (x ∷ xs) ys h = λ e. cc

-- Further rows in print behind a matrix that ends in a line feed are parsed as further rows, if
-- they are printable and each is one line.
pub parse_matrix-append :
    (s : Text) (rows more : List Row)
    → parse_matrix (s ++ (b'\n' ∷ [])) ≡ ok rows
    → All IsPrintable more
    → All IsOneLine more
    → parse_matrix (s ++ (b'\n' ∷ print_rows more)) ≡ ok (rows ++ more)
parse_matrix-append s rows more h printable one_line =
    let m = (parse_matrix_iff _ rows).0 h in
    let ends : map strip_cr (split b'\n' s) ≡ header ∷ m.rest =
      sym (append-nil _)
      ∙ (ap (λ l. map strip_cr (split b'\n' s) ++ l) (sym lines-nil)
          ∙ (sym (lines-split s []) ∙ m.headed)) in
    (parse_matrix_iff _ (rows ++ more)).1 (record {
      rest = m.rest ++ map print_row more;
      headed = rw (lines-split s (print_rows more), ends, lines-print_rows more one_line) refl;
      content =
          rw
            (
              written-append m.rest (map print_row more),
              m.content,
              written-print_row more,
              map-append rows more,
            )
            refl;
      printable = All-append IsPrintable rows more m.printable printable;
      filled = append_filled rows more m.filled;
    })
