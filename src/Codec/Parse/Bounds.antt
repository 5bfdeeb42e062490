-- ===== src/Codec/Parse/Bounds.antt =====
-- The numbers of lines that errors carry: `index + 1` stays within the file.
use contract_conformance_tes.Base.{
  ℕ, suc, ◌+◌, ◌≤◌, ◌≡◌, inl, inr, Bool-cases, Option, none, some, ◌==◌, List, [], ◌∷◌, ◌++◌,
  length, length-append, get_elem?, ap, refl, ◌-◌, err, Text, arith,
}
use contract_conformance_tes.Codec.Matrix.{
  header, CheckError, field_count, empty_field, invalid_boolean,
}
use contract_conformance_tes.Codec.Parse.{push_byte, split, ended, lines, parse_line, parse_matrix}
use contract_conformance_tes.Codec.Parse.Errors.{StopsAt, Refused, parse_matrix-Refused}
use contract_conformance_tes.Codec.Parse.Faults.{
  LineFault, miscounted, with_empty, not_boolean, parse_line-LineFault,
}
use contract_conformance_tes.Codec.Parse.Split.{IsCons, split-IsCons}

-- The number of a line that an error carries.
abbrev pub line_of : CheckError → Option ℕ
line_of (field_count number) = some number
line_of (empty_field number) = some number
line_of (invalid_boolean number field) = some number
line_of _ = none

ended-push_byte :
    (b : ℕ) (pieces : List Text) → length (ended (push_byte b pieces)) ≤ suc (length (ended pieces))
unfolding ended push_byte
ended-push_byte b [] = omega arith
ended-push_byte b (piece ∷ []) = ground arith
ended-push_byte b (piece ∷ (next ∷ pieces)) = omega arith

ended-skip :
    (pieces : List Text)
    → IsCons pieces
    → length (ended ([] ∷ pieces)) ≡ suc (length (ended pieces))
unfolding ended
ended-skip _ (IsCons.cons piece pieces) = omega arith

ended-split : (sep : ℕ) (s : Text) → length (ended (split sep s)) ≤ length s
unfolding split
ended-split sep [] = unfold ended in omega arith
ended-split sep (b ∷ s) = elim (Bool-cases (b == sep)) [
  | inl same ↦
      rw same (omega (arith, ended-skip (split sep s) (split-IsCons sep s), ended-split sep s))
  | inr other ↦ rw other (omega (arith, ended-push_byte b (split sep s), ended-split sep s))
]

-- A file has no more lines than bytes.
length-lines : (source : Text) → length (lines source) ≤ length source
unfolding lines
length-lines source = ended-split b'\n' source

LineFault-line_of :
    (number : ℕ) (fields : List Text) (e : CheckError)
    → LineFault number fields e
    → line_of e ≡ some number
LineFault-line_of number fields e (miscounted same n) = ap line_of same
LineFault-line_of number fields e (with_empty same n m) = ap line_of same
LineFault-line_of number fields e (not_boolean field same n full found t f) = ap line_of same

get_elem?-middle :
    (before : List Text) (line : Text) (after : List Text)
    → get_elem? (before ++ (line ∷ after)) (length before) ≡ some line
get_elem?-middle [] line after = refl
get_elem?-middle (b ∷ before) line after = get_elem?-middle before line after

-- A line of the file, by the number that an error carries.
pub record IsLineOf (source : Text) (number : ℕ) (e : CheckError) : Type 0 where
  pub line : Text
  pub behind_header : 2 ≤ number
  pub within_lines : number ≤ length (lines source)
  pub within_bytes : number ≤ length source
  pub found : get_elem? (lines source) (number - 1) ≡ some line
  pub refused : parse_line number line ≡ err e

StopsAt-IsLineOf :
    (source : Text) (rest : List Text) (e : CheckError) (number : ℕ)
    → lines source ≡ header ∷ rest
    → StopsAt 1 rest e
    → line_of e ≡ some number
    → IsLineOf source number e
StopsAt-IsLineOf source rest e number headed s numbered =
    let explained = LineFault-line_of (1 + length s.before + 1) _ e s.fault in
    let exact : number ≡ 1 + length s.before + 1 = ground (arith) in
    let count : length (lines source) ≡ suc (length s.before + suc (length s.after)) =
      rw (headed, s.splits) (omega (arith, length-append s.before (s.line ∷ s.after))) in
    let place : number - 1 ≡ suc (length s.before) = omega arith in
    record {
      line = s.line;
      behind_header = omega arith;
      within_lines = omega arith;
      within_bytes = omega (arith, length-lines source);
      found = rw (headed, s.splits, place) (get_elem?-middle s.before s.line s.after);
      refused = rw exact ((parse_line-LineFault (1 + length s.before + 1) s.line e).1 s.fault);
    }

-- An error that carries the number of a line carries that of a line of the file, behind the
-- header, and it is the error of that line at that number. The number is at most the number of
-- bytes of the file, so that counting lines cannot overflow.
pub parse_matrix-IsLineOf :
    (source : Text) (e : CheckError) (number : ℕ)
    → parse_matrix source ≡ err e
    → line_of e ≡ some number
    → IsLineOf source number e
parse_matrix-IsLineOf source e number h numbered = elim ((parse_matrix-Refused source e).0 h) [
  | Refused.bad_header first rest found other same ↦ absurd (cc (numbered, ap line_of same))
  | Refused.bad_line rest headed s ↦ StopsAt-IsLineOf source rest e number headed s numbered
  | Refused.no_line found same ↦ absurd (cc (numbered, ap line_of same))
  | Refused.no_row rest headed blank same ↦ absurd (cc (numbered, ap line_of same))
]
