-- ===== src/Codec/Parse/RoundTrip.antt =====
-- Printing a matrix and parsing it.
use contract_conformance_tes.Base.{
  ℕ, ◌≡◌, ◌≢◌, refl, ap, false, List, [], ◌∷◌, ◌++◌, map, All, All-append, ok, Text, is_empty,
  arith, ◌∙◌,
}
use contract_conformance_tes.Codec.Matrix.{Row, header}
use contract_conformance_tes.Codec.Parse.{lines, parse_matrix}
use contract_conformance_tes.Codec.Parse.Split.{
  Lacks, join, EndsClean, EndsClean-append, lines-append, lines-nil,
}
use contract_conformance_tes.Codec.Parse.Line.{print_fields, print_row, IsPrintable}
use contract_conformance_tes.Codec.Parse.Grammar.{written, parse_matrix_iff}

pub print_rows : List Row → Text
print_rows [] = []
print_rows (r ∷ rs) = print_row r ++ (b'\n' ∷ print_rows rs)

-- The header and the rows in print, a line each.
pub print_matrix : List Row → Text
print_matrix rows = header ++ (b'\n' ∷ print_rows rows)

-- No field holds a line feed, and the last one does not end in a carriage return.
pub record IsOneLine (r : Row) : Type 0 where
  pub unbroken : All (Lacks b'\n') (print_fields r)
  pub clean : EndsClean r.expectation

All-join :
    (P : ℕ → Type 0) (sep : ℕ) (pieces : List Text)
    → P sep
    → All (All P) pieces
    → All P (join sep pieces)
All-join P sep [] p h = tt
All-join P sep (piece ∷ []) p (h, _) = h
All-join P sep (piece ∷ (next ∷ pieces)) p (h, hs) =
    All-append P piece (sep ∷ join sep (next ∷ pieces)) h (p, All-join P sep (next ∷ pieces) p hs)

EndsClean-cons : (b : ℕ) (s : Text) → b ≢ b'\r' → EndsClean s → EndsClean (b ∷ s)
EndsClean-cons b [] n h = n
EndsClean-cons b (c ∷ s) n h = h

-- The last piece does not end in a carriage return.
abbrev EndsLast : List Text → Type 0
EndsLast [] = Unit
EndsLast (piece ∷ []) = EndsClean piece
EndsLast (piece ∷ (next ∷ pieces)) = EndsLast (next ∷ pieces)

EndsClean-join :
    (sep : ℕ) (pieces : List Text) → sep ≢ b'\r' → EndsLast pieces → EndsClean (join sep pieces)
EndsClean-join sep [] n h = tt
EndsClean-join sep (piece ∷ []) n h = h
EndsClean-join sep (piece ∷ (next ∷ pieces)) n h =
    EndsClean-append piece sep (join sep (next ∷ pieces))
      (EndsClean-cons sep (join sep (next ∷ pieces)) n (EndsClean-join sep (next ∷ pieces) n h))

print_row-EndsClean : (r : Row) → EndsClean r.expectation → EndsClean (print_row r)
unfolding print_row
print_row-EndsClean r h = EndsClean-join b'\t' (print_fields r) (omega arith) h

print_row-Lacks : (r : Row) → All (Lacks b'\n') (print_fields r) → Lacks b'\n' (print_row r)
unfolding print_row
print_row-Lacks r h = All-join (λ b. b ≢ b'\n') b'\t' (print_fields r) (omega arith) h

pub lines-print_rows :
    (rows : List Row) → All IsOneLine rows → lines (print_rows rows) ≡ map print_row rows
unfolding print_rows
lines-print_rows [] h = lines-nil
lines-print_rows (r ∷ rs) (h, hs) =
    lines-append (print_row r) (print_rows rs) (print_row-Lacks r h.unbroken)
      (print_row-EndsClean r h.clean)
    ∙ ap (λ l. print_row r ∷ l) (lines-print_rows rs hs)

is_empty-append : (s : Text) (b : ℕ) (t : Text) → is_empty (s ++ (b ∷ t)) ≡ false
is_empty-append [] b t = refl
is_empty-append (c ∷ s) b t = refl

pub written-print_row : (rows : List Row) → written (map print_row rows) ≡ map print_row rows
unfolding print_row
written-print_row [] = refl
written-print_row (r ∷ rs) =
    rw (is_empty-append r.case_name b'\t' _) (ap (λ l. print_row r ∷ l) (written-print_row rs))

-- Parsing a printed matrix gives its rows back, if there is a row, no field is empty or holds a
-- tab or a line feed, and no expectation ends in a carriage return.
pub parse_matrix-print_matrix :
    (rows : List Row)
    → rows ≢ []
    → All IsPrintable rows
    → All IsOneLine rows
    → parse_matrix (print_matrix rows) ≡ ok rows
unfolding print_matrix
parse_matrix-print_matrix rows filled printable one_line = (parse_matrix_iff _ rows).1 (record {
  rest = map print_row rows;
  headed =
      lines-append header (print_rows rows) (omega arith) (omega arith)
      ∙ ap (λ l. header ∷ l) (lines-print_rows rows one_line);
  content = written-print_row rows;
  printable = printable;
  filled = filled;
})
