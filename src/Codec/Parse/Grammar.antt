-- ===== src/Codec/Parse/Grammar.antt =====
-- Which files the parser accepts, and with which rows: an independent description.
use contract_conformance_tes.Base.{
  ℕ, suc, ◌+◌, ◌≡◌, ◌≢◌, ◌↔◌, inl, inr, refl, sym, ap, true, false, Bool-cases, Result-cases, List,
  [], ◌∷◌, map, All, ok, ◌>>=◌, if◌then◌else◌, Text, is_empty, text_eq, text_eq_iff, text_eq_refl,
  arith,
}
use contract_conformance_tes.Codec.Matrix.{Row, header}
use contract_conformance_tes.Codec.Parse.{
  lines, parse_line, parse_rows, parse_lines, non_empty, parse_matrix,
}
use contract_conformance_tes.Codec.Parse.Line.{print_row, IsPrintable, parse_line_iff}

-- The lines that are not blank.
abbrev pub written : List Text → List Text
written [] = []
written (line ∷ rest) = let later = written rest in if is_empty line then later else line ∷ later

module _ (index : ℕ) (line : Text) (rest : List Text) where
  parse_rows-cons_sound :
      (rows : List Row)
      → is_empty line ≡ false
      → parse_rows index (line ∷ rest) ≡ ok rows
      → (r : Row) × (rs : List Row) × (rows ≡ r ∷ rs)
        × (parse_line (index + 1) line ≡ ok r)
        × (parse_rows (suc index) rest ≡ ok rs)
  unfolding parse_rows
  parse_rows-cons_sound rows full h = elim (Result-cases (parse_line (index + 1) line)) [
    | inl (r, read) ↦ elim (Result-cases (parse_rows (suc index) rest)) [
      | inl (rs, later) ↦ (r, rs, ground arith, read, later)
      | inr (e, refused) ↦ absurd (ground arith)
    ]
    | inr (e, refused) ↦ absurd (ground arith)
  ]

  parse_rows_blank :
      is_empty line ≡ true → parse_rows index (line ∷ rest) ≡ parse_rows (suc index) rest
  unfolding parse_rows
  parse_rows_blank h = rw h

parse_rows-nil : (index : ℕ) (rows : List Row) → parse_rows index [] ≡ ok rows → rows ≡ []
unfolding parse_rows
parse_rows-nil index rows h = cc

pub parse_rows_sound :
    (index : ℕ) (ls : List Text) (rows : List Row)
    → parse_rows index ls ≡ ok rows
    → (written ls ≡ map print_row rows) × All IsPrintable rows
parse_rows_sound index [] rows h = rw (parse_rows-nil index rows h) (refl, tt)
parse_rows_sound index (line ∷ rest) rows h = elim (Bool-cases (is_empty line)) [
  | inl blank ↦
      let (same, good) =
        parse_rows_sound (suc index) rest rows (rw (parse_rows_blank index line rest blank) at h) in
      (rw blank same, good)
  | inr full ↦
      let (r, rs, split, read, later) = parse_rows-cons_sound index line rest rows full h in
      let (printed, good) = (parse_line_iff (index + 1) line r).0 read in
      let (same, goods) = parse_rows_sound (suc index) rest rs later in
      rw (split, full) (cc (printed, same), (good, goods))
]

pub parse_rows_complete :
    (index : ℕ) (ls : List Text) (rows : List Row)
    → written ls ≡ map print_row rows
    → All IsPrintable rows
    → parse_rows index ls ≡ ok rows
unfolding parse_rows
parse_rows_complete index [] [] same good = refl
parse_rows_complete index [] (r ∷ rs) same good = cc
parse_rows_complete index (line ∷ rest) [] same good = elim (Bool-cases (is_empty line)) [
  | inl blank ↦ rw blank (parse_rows_complete (suc index) rest [] (ground arith) tt)
  | inr full ↦ absurd (ground arith)
]
parse_rows_complete index (line ∷ rest) (r ∷ rs) same (good, goods) =
    elim (Bool-cases (is_empty line)) [
      | inl blank ↦
          rw blank (parse_rows_complete (suc index) rest (r ∷ rs) (ground arith) (good, goods))
      | inr full ↦ rw (
        full,
        (parse_line_iff (index + 1) line r).1 (ground arith, good),
        parse_rows_complete (suc index) rest rs (ground arith) goods,
      )
    ]

-- `source` is the header and lines, of which those that are not blank are the rows in print.
pub record IsMatrix (source : Text) (rows : List Row) : Type 0 where
  pub rest : List Text
  pub headed : lines source ≡ header ∷ rest
  pub content : written rest ≡ map print_row rows
  pub printable : All IsPrintable rows
  pub filled : rows ≢ []

filled_of_ok : (rs rows : List Row) → non_empty rs ≡ ok rows → (rs ≡ rows) × (rows ≢ [])
unfolding non_empty
filled_of_ok [] rows h = cc
filled_of_ok (r ∷ rs) rows h = ground arith

parse_lines_sound :
    (ls : List Text) (rows : List Row)
    → (parse_lines ls >>= non_empty) ≡ ok rows
    → (rest : List Text) × (ls ≡ header ∷ rest) × (parse_rows 1 rest ≡ ok rows) × (rows ≢ [])
unfolding parse_lines
parse_lines_sound [] rows h = absurd ((filled_of_ok [] rows h).1 (sym (filled_of_ok [] rows h).0))
parse_lines_sound (first ∷ rest) rows h = elim (Bool-cases (text_eq first header)) [
  | inl same ↦ elim (Result-cases (parse_rows 1 rest)) [
    | inl (rs, read) ↦
        let (kept, filled) = filled_of_ok rs rows (rw (same, read) at h) in
        (rest, ap (λ l. l ∷ rest) ((text_eq_iff first header).0 same), rw (read, kept), filled)
    | inr (e, refused) ↦ absurd (cc (rw (same, refused) at h))
  ]
  | inr other ↦ absurd (cc (rw other at h))
]

parse_matrix_sound :
    (source : Text) (rows : List Row) → parse_matrix source ≡ ok rows → IsMatrix source rows
unfolding parse_matrix
parse_matrix_sound source rows h =
    let (rest, headed, read, filled) = parse_lines_sound (lines source) rows h in
    let (content, printable) = parse_rows_sound 1 rest rows read in
    record {
      rest = rest;
      headed = headed;
      content = content;
      printable = printable;
      filled = filled;
    }

parse_matrix_complete :
    (source : Text) (rows : List Row) → IsMatrix source rows → parse_matrix source ≡ ok rows
unfolding parse_matrix
parse_matrix_complete source [] m = absurd (m.filled refl)
parse_matrix_complete source (r ∷ rs) m =
    rw (m.headed, text_eq_refl header, parse_rows_complete 1 m.rest (r ∷ rs) m.content m.printable)

-- `parse_matrix` returns rows exactly when the first line is the header, the other lines that
-- are not blank are those rows in print, each row has fields that are not empty and hold no tab,
-- and there is a row.
pub parse_matrix_iff :
    (source : Text) (rows : List Row) → (parse_matrix source ≡ ok rows) ↔ IsMatrix source rows
parse_matrix_iff source rows = (parse_matrix_sound source rows, parse_matrix_complete source rows)
