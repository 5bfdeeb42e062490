-- ===== src/Repository/Lines.antt =====
-- `str.splitlines`, `str.strip` and `str.split` as the check calls them, on UTF-8 bytes.
use contract_conformance_tes.Base.{
  ℕ, Bool, ◌&&◌, ◌||◌, ◌==◌, leb, if◌then◌else◌, List, [], ◌∷◌, Text, is_empty, starts_with,
  text_eq, is_wide_space,
}

-- The ends of lines: one byte from "\n" to "\r" or from 0x1c to 0x1e; "\r\n" or U+0085; U+2028 or
-- U+2029.
abbrev pub ends_line : ℕ → Bool
ends_line a = leb 10 a && leb a 13 || leb 28 a && leb a 30

abbrev pub ends_line_2 : ℕ → ℕ → Bool
ends_line_2 a b = a == 13 && b == 10 || a == 194 && b == 133

abbrev pub ends_line_3 : ℕ → ℕ → ℕ → Bool
ends_line_3 a b c = a == 226 && (b == 128 && (c == 168 || c == 169))

abbrev pub put_byte : ℕ → List Text → List Text
put_byte b [] = (b ∷ []) ∷ []
put_byte b (line ∷ lines) = (b ∷ line) ∷ lines

-- A text that is not empty has a line for each end, and one behind the last end if there is more.
unfoldable pub splitlines : Text → List Text
splitlines [] = []
splitlines (a ∷ []) = if ends_line a then [] ∷ [] else (a ∷ []) ∷ []
splitlines (a ∷ (b ∷ [])) =
    let rest = splitlines (b ∷ []) in
    if ends_line_2 a b then [] ∷ [] else if ends_line a then [] ∷ rest else put_byte a rest
splitlines (a ∷ (b ∷ (c ∷ s))) =
    let one = splitlines (b ∷ (c ∷ s)) in
    let two = splitlines (c ∷ s) in
    let three = splitlines s in
    if ends_line_2 a b
    then [] ∷ two
    else if ends_line a
    then [] ∷ one
    else if ends_line_3 a b c
    then [] ∷ three
    else put_byte a one

-- White space of `str.strip`.
abbrev pub is_space : ℕ → Bool
is_space a = leb 9 a && leb a 13 || (leb 28 a && leb a 32)

abbrev pub is_space_2 : ℕ → ℕ → Bool
is_space_2 a b = a == 194 && (b == 133 || b == 160)

unfoldable pub strip_start : Text → Text
strip_start [] = []
strip_start (a ∷ []) = if is_space a then [] else a ∷ []
strip_start (a ∷ (b ∷ [])) =
    let one = strip_start (b ∷ []) in
    if is_space a then one else if is_space_2 a b then [] else a ∷ (b ∷ [])
strip_start (a ∷ (b ∷ (c ∷ s))) =
    let one = strip_start (b ∷ (c ∷ s)) in
    let two = strip_start (c ∷ s) in
    let three = strip_start s in
    if is_space a
    then one
    else if is_space_2 a b
    then two
    else if is_wide_space a b c
    then three
    else a ∷ (b ∷ (c ∷ s))

-- A text ends where only white space follows.
unfoldable pub strip_end : Text → Text
unfolding strip_start
strip_end [] = []
strip_end (a ∷ s) =
    let rest = strip_end s in if is_empty (strip_start (a ∷ s)) then [] else a ∷ rest

unfoldable pub strip : Text → Text
unfolding strip_start strip_end
strip s = strip_end (strip_start s)

unfoldable pub drop : Text → Text → Text
drop [] s = s
drop (b ∷ mark) [] = []
drop (b ∷ mark) (c ∷ s) = drop mark s

-- `line.split(mark, 1)[1]`, where the mark is in the line.
unfoldable pub after_first : Text → Text → Text
unfolding drop
after_first mark [] = []
after_first mark (b ∷ s) =
    let later = after_first mark s in if starts_with (b ∷ s) mark then drop mark (b ∷ s) else later

-- `s.endswith(t)`
unfoldable pub ends_with : Text → Text → Bool
ends_with [] t = text_eq [] t
ends_with (b ∷ s) t = text_eq (b ∷ s) t || ends_with s t
