-- ===== src/Repository/Patterns.antt =====
-- The regular expressions of Python's `re` that the check uses, over bytes: what they match, and
-- `fullmatch` and `search` by derivatives.
pub mod Matching
use contract_conformance_tes.Base.{
  ℕ, zero, suc, ◌≡◌, ◌↔◌, ◌⊎◌, inl, inr, refl, sym, ap, ◌∙◌, subst, Bool, true, false, ◌&&◌, ◌||◌,
  ◌==◌, Bool-cases, if◌then◌else◌, List, [], ◌∷◌, ◌++◌, All, Text, arith,
}

pub data Regex : Type 0 where
  nothing empty : Regex
  one : (ℕ → Bool) → Regex
  seq alt : Regex → Regex → Regex
  star : Regex → Regex

abbrev pub join : List Text → Text
join [] = []
join (part ∷ parts) = part ++ join parts

-- The texts that an expression matches.
abbrev pub Matches : Regex → Text → Type 0
Matches nothing s = ⊥
Matches empty s = s ≡ []
Matches (one p) s = (b : ℕ) × (s ≡ b ∷ []) × (p b ≡ true)
Matches (seq r t) s = (a : Text) × (b : Text) × (s ≡ a ++ b) × Matches r a × Matches t b
Matches (alt r t) s = Matches r s ⊎ Matches t s
Matches (star r) s = (parts : List Text) × (s ≡ join parts) × All (Matches r) parts

-- `r{n}` and `r{n,}`
abbrev pub times : ℕ → Regex → Regex
times zero r = empty
times (suc n) r = seq r (times n r)

abbrev pub at_least : ℕ → Regex → Regex
at_least n r = seq (times n r) (star r)

abbrev pub literal : Text → Regex
literal [] = empty
literal (b ∷ s) = seq (one (λ c. c == b)) (literal s)

unfoldable pub nullable : Regex → Bool
nullable nothing = false
nullable empty = true
nullable (one p) = false
nullable (seq r t) = nullable r && nullable t
nullable (alt r t) = nullable r || nullable t
nullable (star r) = true

-- What may follow a byte.
unfoldable pub derive : ℕ → Regex → Regex
unfolding nullable
derive b nothing = nothing
derive b empty = nothing
derive b (one p) = if p b then empty else nothing
derive b (seq r t) =
    let later = derive b t in
    if nullable r then alt (seq (derive b r) t) later else seq (derive b r) t
derive b (alt r t) = alt (derive b r) (derive b t)
derive b (star r) = seq (derive b r) (star r)

unfoldable pub fullmatch : Regex → Text → Bool
unfolding nullable derive
fullmatch r [] = nullable r
fullmatch r (b ∷ s) = fullmatch (derive b r) s

-- A match at the start.
unfoldable pub match : Regex → Text → Bool
unfolding nullable derive
match r [] = nullable r
match r (b ∷ s) = nullable r || match (derive b r) s

unfoldable pub search : Regex → Text → Bool
unfolding match
search r [] = match r []
search r (b ∷ s) = match r (b ∷ s) || search r s

-- `search` for `^r` with `re.MULTILINE`, which matches at the start of a line.
unfoldable pub search_lines : Bool → Regex → Text → Bool
unfolding match
search_lines at_start r [] = at_start && match r []
search_lines at_start r (b ∷ s) = at_start && match r (b ∷ s) || search_lines (b == b'\n') r s
