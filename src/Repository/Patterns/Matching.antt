-- ===== src/Repository/Patterns/Matching.antt =====
-- `fullmatch`, `search` and `search_lines` find what the expressions match.
use contract_conformance_tes.Base.{
  ℕ, ◌≡◌, ◌↔◌, ◌⊎◌, inl, inr, refl, sym, ap, ◌∙◌, subst, Bool, true, ◌&&◌, ◌==◌, Bool-cases, List,
  [], ◌∷◌, ◌++◌, All, Text, arith,
}
use contract_conformance_tes.Repository.Patterns.{
  Regex, nothing, empty, one, seq, alt, star, join, Matches, nullable, derive, fullmatch, match,
  search, search_lines,
}

append-empty : (a b : Text) → [] ≡ a ++ b → (a ≡ []) × (b ≡ [])
append-empty [] b h = (refl, sym h)
append-empty (x ∷ a) b h = cc

nullable_iff : (r : Regex) → (nullable r ≡ true) ↔ Matches r []
unfolding nullable
nullable_iff nothing = ground arith
nullable_iff empty = ((λ h. refl), λ h. refl)
nullable_iff (one p) = ((λ h. cc), λ (b, h, q). cc)
nullable_iff (seq r t) = (
  λ h. ([], [], refl, (nullable_iff r).0 (ground arith), (nullable_iff t).0 (ground arith)),
  λ (a, b, h, m, n).
      let (first, second) = append-empty a b h in
      ground (arith, (nullable_iff r).1 (rw first at m), (nullable_iff t).1 (rw second at n)),
)
nullable_iff (alt r t) = ground (arith, nullable_iff r, nullable_iff t)
nullable_iff (star r) = ((λ h. ([], refl, tt)), λ h. refl)

-- A match of a repetition that is not empty has a first part that is not.
first_part :
    (r : Regex) (b : ℕ) (s : Text) (parts : List Text)
    → b ∷ s ≡ join parts
    → All (Matches r) parts
    → (a : Text) × (rest : List Text) × (s ≡ a ++ join rest)
      × Matches r (b ∷ a)
      × All (Matches r) rest
first_part r b s [] h m = cc
first_part r b s ([] ∷ parts) h (m, ms) = first_part r b s parts h ms
first_part r b s ((c ∷ a) ∷ parts) h (m, ms) =
    let same : c ≡ b = ground (arith, h) in
    (a, parts, ground (arith, h), subst (λ x. Matches r (x ∷ a)) same m, ms)

cons_split :
    (b : ℕ) (s a c : Text)
    → b ∷ s ≡ a ++ c
    → ((a ≡ []) × (c ≡ b ∷ s)) ⊎ ((d : Text) × (a ≡ b ∷ d) × (s ≡ d ++ c))
cons_split b s [] c h = inl (refl, sym h)
cons_split b s (x ∷ d) c h = inr (d, ground (arith, h), ground (arith, h))

derive_iff : (b : ℕ) (r : Regex) (s : Text) → Matches (derive b r) s ↔ Matches r (b ∷ s)
unfolding derive
derive_iff b nothing s = ((λ m. m), λ m. m)
derive_iff b empty s = ((λ m. absurd m), λ m. cc)
derive_iff b (one p) s = elim (Bool-cases (p b)) [
  | inl taken ↦ rw taken ((λ h. (b, ap (λ l. b ∷ l) h, taken)), λ (c, h, q). ground (arith, h))
  | inr refused ↦ rw refused (
    (λ m. absurd m),
    λ (c, h, q). let same : c ≡ b = ground (arith, h) in cc (rw same at q, refused),
  )
]
derive_iff b (seq r t) s =
    let inside : Matches (seq (derive b r) t) s → Matches (seq r t) (b ∷ s) =
      λ (a, c, h, m, n). (b ∷ a, c, ap (λ l. b ∷ l) h, (derive_iff b r a).0 m, n) in
    elim (Bool-cases (nullable r)) [
      | inl skipped ↦ rw skipped (
        elim [
          | inl m ↦ inside m
          | inr n ↦ ([], b ∷ s, refl, (nullable_iff r).0 skipped, (derive_iff b t s).0 n)
        ],
        λ (a, c, h, m, n). elim (cons_split b s a c h) [
          | inl (first, second) ↦ inr ((derive_iff b t s).1 (rw second at n))
          | inr (d, first, rest) ↦ inl (d, c, rest, (derive_iff b r d).1 (rw first at m), n)
        ],
      )
      | inr kept ↦ rw kept (
        inside,
        λ (a, c, h, m, n). elim (cons_split b s a c h) [
          | inl (first, second) ↦ cc ((nullable_iff r).1 (rw first at m), kept)
          | inr (d, first, rest) ↦ (d, c, rest, (derive_iff b r d).1 (rw first at m), n)
        ],
      )
    ]
derive_iff b (alt r t) s = ground (arith, derive_iff b r s, derive_iff b t s)
derive_iff b (star r) s = (
  λ (a, c, h, m, (parts, k, ms)).
      ((b ∷ a) ∷ parts, ap (λ l. b ∷ l) (h ∙ ap (λ l. a ++ l) k), ((derive_iff b r a).0 m, ms)),
  λ (parts, h, ms).
      let (a, rest, split, m, later) = first_part r b s parts h ms in
      (a, join rest, split, (derive_iff b r a).1 m, (rest, refl, later)),
)

-- `re.fullmatch`
pub fullmatch_iff : (r : Regex) (s : Text) → (fullmatch r s ≡ true) ↔ Matches r s
unfolding fullmatch
fullmatch_iff r [] = nullable_iff r
fullmatch_iff r (b ∷ s) = ground (arith, fullmatch_iff (derive b r) s, derive_iff b r s)

-- A match at the start of a text.
abbrev pub MatchesFront : Regex → Text → Type 0
MatchesFront r s = (a : Text) × (after : Text) × (s ≡ a ++ after) × Matches r a

match_iff : (r : Regex) (s : Text) → (match r s ≡ true) ↔ MatchesFront r s
unfolding match
match_iff r [] = (
  λ h. ([], [], refl, (nullable_iff r).0 h),
  λ (a, after, h, m). (nullable_iff r).1 (rw (append-empty a after h).0 at m),
)
match_iff r (b ∷ s) = (
  λ h. elim (Bool-cases (nullable r)) [
    | inl none_needed ↦ ([], b ∷ s, refl, (nullable_iff r).0 none_needed)
    | inr some_needed ↦
        let (a, after, k, m) = (match_iff (derive b r) s).0 (ground arith) in
        (b ∷ a, after, ap (λ l. b ∷ l) k, (derive_iff b r a).0 m)
  ],
  λ (a, after, h, m). elim (cons_split b s a after h) [
    | inl (first, second) ↦ let skips = (nullable_iff r).1 (rw first at m) in rw skips refl
    | inr (d, first, rest) ↦
        let found =
          (match_iff (derive b r) s).1 (d, after, rest, (derive_iff b r d).1 (rw first at m)) in
        ground arith
  ],
)

-- `re.search`: a match somewhere.
pub search_iff :
    (r : Regex) (s : Text)
    → (search r s ≡ true)
      ↔ ((before : Text) × (rest : Text) × (s ≡ before ++ rest) × MatchesFront r rest)
unfolding search
search_iff r [] = (
  λ h. ([], [], refl, (match_iff r []).0 h),
  λ (before, rest, h, m). (match_iff r []).1 (rw (append-empty before rest h).1 at m),
)
search_iff r (b ∷ s) = (
  λ h. elim (Bool-cases (match r (b ∷ s))) [
    | inl here ↦ ([], b ∷ s, refl, (match_iff r (b ∷ s)).0 here)
    | inr not_here ↦
        let (before, rest, k, m) = (search_iff r s).0 (ground arith) in
        (b ∷ before, rest, ap (λ l. b ∷ l) k, m)
  ],
  λ (before, rest, h, m). elim (cons_split b s before rest h) [
    | inl (first, second) ↦ let here = (match_iff r (b ∷ s)).1 (rw second at m) in rw here refl
    | inr (d, first, more) ↦ let later = (search_iff r s).1 (d, rest, more, m) in ground arith
  ],
)

-- A line starts behind these bytes: the last is the end of a line, or there is none and one starts.
abbrev pub StartsLine : Bool → Text → Type 0
StartsLine at_start [] = at_start ≡ true
StartsLine at_start (b ∷ before) = StartsLine (b == b'\n') before

pub search_lines_iff :
    (at_start : Bool) (r : Regex) (s : Text)
    → (search_lines at_start r s ≡ true) ↔ (
        (before : Text) × (rest : Text) × (s ≡ before ++ rest)
        × StartsLine at_start before
        × MatchesFront r rest)
unfolding search_lines
search_lines_iff at_start r [] = (
  λ h. ([], [], refl, ground arith, (match_iff r []).0 (ground arith)),
  λ (before, rest, h, starts, m).
      let (first, second) = append-empty before rest h in
      let yes_it : at_start ≡ true = rw first at starts in
      let found = (match_iff r []).1 (rw second at m) in ground arith,
)
search_lines_iff at_start r (b ∷ s) = (
  λ h. elim (Bool-cases (at_start && match r (b ∷ s))) [
    | inl here ↦ ([], b ∷ s, refl, ground arith, (match_iff r (b ∷ s)).0 (ground arith))
    | inr not_here ↦
        let (before, rest, k, starts, m) =
          (search_lines_iff (b == b'\n') r s).0 (rw not_here at h) in
        (b ∷ before, rest, ap (λ l. b ∷ l) k, starts, m)
  ],
  λ (before, rest, h, starts, m). elim (cons_split b s before rest h) [
    | inl (first, second) ↦
        let yes_it : at_start ≡ true = rw first at starts in
        let here = (match_iff r (b ∷ s)).1 (rw second at m) in ground arith
    | inr (d, first, more) ↦
        let later = (search_lines_iff (b == b'\n') r s).1 (d, rest, more, rw first at starts, m) in
        ground arith
  ],
)
