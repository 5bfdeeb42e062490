-- ===== src/Codec/Parse/Errors.antt =====
-- Which line an error names.
use native.Mathlib.Nat.{add-zero}
use contract_conformance_tes.Base.{
  is_empty_iff, text_eq_refl, ◌↔◌, ℕ, suc, ◌+◌, ◌≡◌, ◌≢◌, ◌⊎◌, inl, inr, refl, ap, ◌∙◌, Bool-cases,
  Result-cases, List, [], ◌∷◌, ◌++◌, All, length, err, ◌>>=◌, Text, is_empty, text_eq, text_eq_iff,
  arith,
}
use contract_conformance_tes.Codec.Matrix.{
  Row, CheckError, header, header_not_canonical, empty_matrix,
}
use contract_conformance_tes.Codec.Parse.{
  split, lines, parse_line, parse_rows, parse_lines, non_empty, parse_matrix,
}
use contract_conformance_tes.Codec.Parse.Grammar.{written, parse_rows_sound, parse_rows_complete}
use contract_conformance_tes.Codec.Parse.Line.{print_row, IsPrintable, parse_line_iff}
use contract_conformance_tes.Codec.Parse.Faults.{LineFault, parse_line-LineFault}

-- A line that the loop passes: blank, or a printable row in print.
abbrev pub IsPassed : Text → Type 0
IsPassed line = (line ≡ []) ⊎ ((r : Row) × (line ≡ print_row r) × IsPrintable r)

-- The first line that is neither blank nor a row in print, and what is wrong with it; the error has
-- its number, counted from one.
pub record StopsAt (index : ℕ) (ls : List Text) (e : CheckError) : Type 0 where
  pub before : List Text
  pub line : Text
  pub after : List Text
  pub splits : ls ≡ before ++ (line ∷ after)
  pub passed : All IsPassed before
  pub written : line ≢ []
  pub fault : LineFault (index + length before + 1) (split b'\t' line) e

count : (index k : ℕ) → index + suc k + 1 ≡ suc index + k + 1
count index k = omega arith

StopsAt-cons :
    (index : ℕ) (line : Text) (rest : List Text) (e : CheckError)
    → IsPassed line
    → StopsAt (suc index) rest e
    → StopsAt index (line ∷ rest) e
StopsAt-cons index line rest e passed s = record {
  before = line ∷ s.before;
  line = s.line;
  after = s.after;
  splits = ap (λ l. line ∷ l) s.splits;
  passed = (passed, s.passed);
  written = s.written;
  fault = rw (count index (length s.before)) s.fault;
}

at_start :
    (index : ℕ) (line : Text) (e : CheckError)
    → (parse_line (index + 1) line ≡ err e) ↔ LineFault (index + 0 + 1) (split b'\t' line) e
at_start index line e = rw add-zero (parse_line-LineFault (index + 1) line e)

parse_rows-StopsAt :
    (index : ℕ) (ls : List Text) (e : CheckError) → parse_rows index ls ≡ err e → StopsAt index ls e
unfolding parse_rows
parse_rows-StopsAt index [] e h = cc
parse_rows-StopsAt index (line ∷ rest) e h = elim (Bool-cases (is_empty line)) [
  | inl blank ↦
      StopsAt-cons index line rest e (inl ((is_empty_iff line).0 blank))
        (parse_rows-StopsAt (suc index) rest e (rw blank at h))
  | inr full ↦ elim (Result-cases (parse_line (index + 1) line)) [
    | inl (r, read) ↦
        let (printed, good) = (parse_line_iff (index + 1) line r).0 read in
        StopsAt-cons index line rest e (inr (r, printed, good))
          (parse_rows-StopsAt (suc index) rest e (ground arith))
    | inr (e', refused) ↦ record {
      before = [];
      line = line;
      after = rest;
      splits = refl;
      passed = tt;
      written = (λ e. ground (arith, is_empty_iff line));
      fault = (at_start index line e).0 (ground arith);
    }
  ]
]

-- The loop fails at that line, whatever comes behind it.
parse_rows_stops :
    (index : ℕ) (before : List Text) (line : Text) (after : List Text) (e : CheckError)
    → All IsPassed before
    → line ≢ []
    → LineFault (index + length before + 1) (split b'\t' line) e
    → parse_rows index (before ++ (line ∷ after)) ≡ err e
unfolding parse_rows
parse_rows_stops index [] line after e passed full fault =
    let refused = (at_start index line e).1 fault in
    elim (Bool-cases (is_empty line)) [
      | inl blank ↦ absurd (full ((is_empty_iff line).0 blank))
      | inr filled ↦ rw (filled, refused) refl
    ]
parse_rows_stops index (first ∷ before) line after e (inl blank, passed) full fault =
    rw ((is_empty_iff first).1 blank)
      (parse_rows_stops (suc index) before line after e passed full (rw count at fault))
parse_rows_stops index (first ∷ before) line after e (inr (r, printed, good), passed) full fault =
    let later = parse_rows_stops (suc index) before line after e passed full (rw count at fault) in
    elim (Bool-cases (is_empty first)) [
      | inl blank ↦ rw blank later
      | inr filled ↦ rw (filled, (parse_line_iff (index + 1) first r).1 (printed, good), later) refl
    ]

-- Why a file is refused.
pub data Refused (source : Text) (e : CheckError) : Type 0 where
  bad_header :
      (first : Text) (rest : List Text)
      → lines source ≡ first ∷ rest
      → first ≢ header
      → e ≡ header_not_canonical
      → Refused source e
  bad_line : (rest : List Text) → lines source ≡ header ∷ rest → StopsAt 1 rest e → Refused source e
  no_line : lines source ≡ [] → e ≡ empty_matrix → Refused source e
  no_row :
      (rest : List Text)
      → lines source ≡ header ∷ rest
      → written rest ≡ []
      → e ≡ empty_matrix
      → Refused source e

parse_lines-Refused :
    (source : Text) (e : CheckError) (ls : List Text)
    → lines source ≡ ls
    → (parse_lines ls >>= non_empty) ≡ err e
    → Refused source e
unfolding parse_lines non_empty
parse_lines-Refused source e [] found h = no_line found (ground arith)
parse_lines-Refused source e (first ∷ rest) found h = elim (Bool-cases (text_eq first header)) [
  | inl same ↦
      let headed : lines source ≡ header ∷ rest =
        found ∙ ap (λ l. l ∷ rest) ((text_eq_iff first header).0 same) in
      elim (Result-cases (parse_rows 1 rest)) [
        | inl ([], read) ↦ no_row rest headed (parse_rows_sound 1 rest [] read).0 (ground arith)
        | inl (r ∷ rs, read) ↦ absurd (ground arith)
        | inr (e', refused) ↦ bad_line rest headed (parse_rows-StopsAt 1 rest e (ground arith))
      ]
  | inr other ↦
      bad_header first rest found (λ eq. ground (arith, text_eq_iff first header)) (ground arith)
]

Refused-parse_lines :
    (source : Text) (e : CheckError)
    → Refused source e
    → (parse_lines (lines source) >>= non_empty) ≡ err e
unfolding parse_lines non_empty
Refused-parse_lines source e (bad_header first rest found other same) =
    elim (Bool-cases (text_eq first header)) [
      | inl headed ↦ absurd (other ((text_eq_iff first header).0 headed))
      | inr differs ↦ rw (found, differs, same) refl
    ]
Refused-parse_lines source e (bad_line rest headed s) =
    let stopped : parse_rows 1 rest ≡ err e =
      rw s.splits (parse_rows_stops 1 s.before s.line s.after e s.passed s.written s.fault) in
    rw (headed, text_eq_refl header, stopped) refl
Refused-parse_lines source e (no_line found same) = rw (found, same) refl
Refused-parse_lines source e (no_row rest headed blank same) =
    rw (headed, text_eq_refl header, parse_rows_complete 1 rest [] blank tt, same) refl

-- `parse_matrix` returns an error exactly if the first line is not the header; or, behind a header,
-- the first line that is neither blank nor a row in print has the fault that the error says, the
-- first of a number of fields other than eight, an empty field and a seventh field that is no truth
-- value, at the line's number in the file; or, as `empty_matrix`, there is no line or no row.
pub parse_matrix-Refused :
    (source : Text) (e : CheckError) → (parse_matrix source ≡ err e) ↔ Refused source e
unfolding parse_matrix
parse_matrix-Refused source e =
    (parse_lines-Refused source e (lines source) refl, Refused-parse_lines source e)
