-- ===== src/Repository/Uses.antt =====
-- The actions that a workflow uses, described without the code: its lines, the text behind the
-- first "uses:" of a line, and the white space around it.
pub mod Cut
pub mod Strip
pub mod Split
pub mod Laws
use contract_conformance_tes.Base.{
  ℕ, ◌≤◌, ◌≡◌, ◌≢◌, ◌⊎◌, List, [], ◌∷◌, ◌++◌, length, Text, bytes, Holds,
}

-- White space characters: U+0009 to U+000D and U+001C to U+0020; U+0085 and U+00A0; U+1680, U+2000
-- to U+200A, U+2028, U+2029, U+202F, U+205F and U+3000.
abbrev pub IsSpace : Text → Type 0
IsSpace (a ∷ []) = ((9 ≤ a) × (a ≤ 13)) ⊎ ((28 ≤ a) × (a ≤ 32))
IsSpace (a ∷ (b ∷ [])) = (a ≡ 194) × ((b ≡ 133) ⊎ (b ≡ 160))
IsSpace (a ∷ (b ∷ (c ∷ []))) =
    ((a ≡ 225) × (b ≡ 154) × (c ≡ 128))
    ⊎ (((a ≡ 226) × (b ≡ 128) × (((128 ≤ c) × (c ≤ 138)) ⊎ ((c ≡ 168) ⊎ ((c ≡ 169) ⊎ (c ≡ 175)))))
        ⊎ (((a ≡ 226) × (b ≡ 129) × (c ≡ 159)) ⊎ ((a ≡ 227) × (b ≡ 128) × (c ≡ 128))))
IsSpace _ = ⊥

-- Any number of white space characters.
pub data White : Text → Type 0 where
  blank : White []
  space : (c s : Text) → IsSpace c → White s → White (c ++ s)

-- The ends of lines: U+000A to U+000D and U+001C to U+001E; "\r\n" and U+0085; U+2028 and U+2029.
abbrev pub IsEnd : Text → Type 0
IsEnd (a ∷ []) = ((10 ≤ a) × (a ≤ 13)) ⊎ ((28 ≤ a) × (a ≤ 30))
IsEnd (a ∷ (b ∷ [])) = ((a ≡ 13) × (b ≡ 10)) ⊎ ((a ≡ 194) × (b ≡ 133))
IsEnd (a ∷ (b ∷ (c ∷ []))) = (a ≡ 226) × (b ≡ 128) × ((c ≡ 168) ⊎ (c ≡ 169))
IsEnd _ = ⊥

-- The text from a place on begins with an end of a line.
abbrev pub EndsAt : Text → Text → Text → Text → Type 0
EndsAt t line e rest = IsEnd e × (t ≡ line ++ (e ++ rest))

-- A line that ends: it stands before the first end in the text, which is as long as can be.
pub record Ended (t line e rest : Text) : Type 0 where
  pub here : EndsAt t line e rest
  pub first : (x f y : Text) → EndsAt t x f y → length line ≤ length x
  pub longest : (f y : Text) → EndsAt t line f y → length f ≤ length e

-- A line without an end.
abbrev pub IsOpen : Text → Type 0
IsOpen t = (x f y : Text) → ¬ EndsAt t x f y

-- The lines of a text; behind the last end there is a line only if there is a text.
abbrev pub AreLines : Text → List Text → Type 0
AreLines t [] = t ≡ []
AreLines t (line ∷ lines) =
    ((t ≢ []) × (line ≡ t) × (lines ≡ []) × IsOpen t)
    ⊎ ((e : Text) × (rest : Text) × Ended t line e rest × AreLines rest lines)

-- What follows the first place of a mark.
pub record IsBehind (mark t rest : Text) : Type 0 where
  pub before : Text
  pub whole : t ≡ before ++ (mark ++ rest)
  pub first : (x y : Text) → t ≡ x ++ (mark ++ y) → length before ≤ length x

-- What is left of a text without the longest white space at its start, and at its end.
pub record IsLeft (t rest : Text) : Type 0 where
  pub left : Text
  pub whole : t ≡ left ++ rest
  pub white : White left
  pub longest : (x y : Text) → t ≡ x ++ y → White x → length x ≤ length left

pub record IsFront (t front : Text) : Type 0 where
  pub right : Text
  pub whole : t ≡ front ++ right
  pub white : White right
  pub longest : (x y : Text) → t ≡ x ++ y → White y → length y ≤ length right

-- The action of a line is what follows its first "uses:", without the white space around it.
abbrev pub IsActionOf : Text → Text → Type 0
IsActionOf line action =
    (rest : Text) × (middle : Text) × IsBehind (bytes "uses:") line rest
    × IsLeft rest middle
    × IsFront middle action

-- The actions of lines are those of the lines with "uses:", in their order.
abbrev pub AreActions : List Text → List Text → Type 0
AreActions [] actions = actions ≡ []
AreActions (line ∷ lines) actions =
    ((¬ Holds line (bytes "uses:")) × AreActions lines actions)
    ⊎ ((action : Text) × (more : List Text) × (actions ≡ action ∷ more)
        × IsActionOf line action
        × AreActions lines more)

abbrev pub Uses : Text → List Text → Type 0
Uses workflow actions = (lines : List Text) × AreLines workflow lines × AreActions lines actions
