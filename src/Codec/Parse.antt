-- ===== src/Codec/Parse.antt =====
-- `parse_matrix`: the lines of the file, the fields of a line, and the rows.
pub mod Split
pub mod Line
pub mod Grammar
pub mod RoundTrip
pub mod Faults
pub mod Errors
pub mod Append
pub mod Bounds
use contract_conformance_tes.Base.{
  ℕ, suc, ◌+◌, Bool, true, false, ◌==◌, if◌then◌else◌, List, [], ◌∷◌, any, Result, ok, err, ◌>>=◌,
  Text, bytes, text_eq, is_empty,
}
use contract_conformance_tes.Codec.Matrix.{
  header, Row, CheckError, header_not_canonical, field_count, empty_field, invalid_boolean,
  empty_matrix,
}

-- `str::split` at one byte: one piece more than there are separators.
push_byte : ℕ → List Text → List Text
push_byte b [] = (b ∷ []) ∷ []
push_byte b (piece ∷ pieces) = (b ∷ piece) ∷ pieces

unfoldable pub split : ℕ → Text → List Text
unfolding push_byte
split sep [] = [] ∷ []
split sep (b ∷ s) = let rest = split sep s in if b == sep then [] ∷ rest else push_byte b rest

-- `str::lines`: the end of a line is "\n" or "\r\n", the last line may have none, and an empty
-- piece behind the last end is no line.
unfoldable pub strip_cr : Text → Text
strip_cr [] = []
strip_cr (b ∷ []) = if b == b'\r' then [] else b ∷ []
strip_cr (b ∷ (c ∷ s)) = b ∷ strip_cr (c ∷ s)

unfoldable pub ended : List Text → List Text
unfolding strip_cr
ended [] = []
ended (last ∷ []) = if is_empty last then [] else last ∷ []
ended (piece ∷ (next ∷ pieces)) = strip_cr piece ∷ ended (next ∷ pieces)

unfoldable pub lines : Text → List Text
unfolding ended split
lines source = ended (split b'\n' source)

-- `match fields[6]`; `number` is the number of the line, counted from one.
parse_valid : ℕ → Text → Result Bool CheckError
parse_valid number field =
    if text_eq field (bytes "true")
    then ok true
    else if text_eq field (bytes "false")
    then ok false
    else err (invalid_boolean number field)

-- The body of the loop behind `line.split('\t')`.
parse_fields : ℕ → List Text → Result Row CheckError
parse_fields number (f0 ∷ f1 ∷ f2 ∷ f3 ∷ f4 ∷ f5 ∷ f6 ∷ f7 ∷ []) =
    if any is_empty (f0 ∷ f1 ∷ f2 ∷ f3 ∷ f4 ∷ f5 ∷ f6 ∷ f7 ∷ [])
    then err (empty_field number)
    else (parse_valid number f6 >>= λ valid. ok (record {
      case_name = f0;
      transport = f1;
      framing = f2;
      codec = f3;
      wire_id = f4;
      media_type = f5;
      valid = valid;
      expectation = f7;
    }))
parse_fields number _ = err (field_count number)

unfoldable pub parse_line : ℕ → Text → Result Row CheckError
unfolding parse_fields parse_valid
parse_line number line = parse_fields number (split b'\t' line)

-- The rounds of the loop behind the header; `index` counts the lines from zero.
unfoldable pub parse_rows : ℕ → List Text → Result (List Row) CheckError
parse_rows index [] = ok []
parse_rows index (line ∷ rest) =
    let later = parse_rows (suc index) rest in
    if is_empty line
    then later
    else (parse_line (index + 1) line >>= λ row. later >>= λ rows. ok (row ∷ rows))

parse_lines : List Text → Result (List Row) CheckError
parse_lines [] = ok []
parse_lines (first ∷ rest) =
    if text_eq first header then parse_rows 1 rest else err header_not_canonical

non_empty : List Row → Result (List Row) CheckError
non_empty [] = err empty_matrix
non_empty (row ∷ rows) = ok (row ∷ rows)

unfoldable pub parse_matrix : Text → Result (List Row) CheckError
unfolding parse_lines non_empty
parse_matrix source = parse_lines (lines source) >>= non_empty
