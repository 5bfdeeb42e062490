-- ===== src/Base/Search.antt =====
-- What `starts_with` and `contains` decide.
use mathlib.Core.Path.{◌≡◌, refl, ap}
use mathlib.Core.Logic.{◌↔◌, inl, inr}
use mathlib.Core.Bool.{true}
use mathlib.Core.List.{[], ◌∷◌, ◌++◌}
use native.Mathlib.Omega.{arith}
use contract_conformance_tes.Base.Tests.{Bool-cases}
use contract_conformance_tes.Base.Strings.{Text, starts_with, contains}

-- `s` begins with `t`; `t` stands somewhere in `s`.
abbrev pub Begins : Text → Text → Type 0
Begins s t = (rest : Text) × (s ≡ t ++ rest)

abbrev pub Holds : Text → Text → Type 0
Holds s t = (before : Text) × (after : Text) × (s ≡ before ++ (t ++ after))

-- Only the empty text is the front of the empty one.
pub Begins-empty : (t : Text) → Begins [] t → t ≡ []
Begins-empty [] (rest, e) = refl
Begins-empty (b ∷ t) (rest, e) = ground arith

starts_with_sound : (s t : Text) → starts_with s t ≡ true → Begins s t
unfolding starts_with
starts_with_sound s [] h = (s, refl)
starts_with_sound [] (b ∷ t) h = cc
starts_with_sound (a ∷ s) (b ∷ t) h =
    let (rest, e) = starts_with_sound s t (ground arith) in
    let first : a ≡ b = ground arith in (rest, cc (first, e))

starts_with_complete : (t rest : Text) → starts_with (t ++ rest) t ≡ true
unfolding starts_with
starts_with_complete [] rest = nil rest
  where
    nil : (s : Text) → starts_with s [] ≡ true
    nil [] = refl
    nil (a ∷ s) = refl
starts_with_complete (b ∷ t) rest = ground (arith, starts_with_complete t rest)

pub starts_with_iff : (s t : Text) → (starts_with s t ≡ true) ↔ Begins s t
starts_with_iff s t = (starts_with_sound s t, λ (rest, e). rw e (starts_with_complete t rest))

contains_sound : (s t : Text) → contains s t ≡ true → Holds s t
unfolding contains
contains_sound [] t h = let (rest, e) = starts_with_sound [] t h in ([], rest, e)
contains_sound (a ∷ s) t h = elim (Bool-cases (starts_with (a ∷ s) t)) [
  | inl here ↦ let (rest, e) = starts_with_sound (a ∷ s) t here in ([], rest, e)
  | inr later ↦
      let (before, after, e) = contains_sound s t (rw later at h) in
      (a ∷ before, after, ap (λ l. a ∷ l) e)
]

contains_here : (s t : Text) → starts_with s t ≡ true → contains s t ≡ true
unfolding contains
contains_here [] t h = h
contains_here (a ∷ s) t h = rw h

contains_complete : (before t after : Text) → contains (before ++ (t ++ after)) t ≡ true
unfolding contains
contains_complete [] t after = contains_here (t ++ after) t (starts_with_complete t after)
contains_complete (a ∷ before) t after = ground (arith, contains_complete before t after)

pub contains_iff : (s t : Text) → (contains s t ≡ true) ↔ Holds s t
contains_iff s t =
    (contains_sound s t, λ (before, after, e). rw e (contains_complete before t after))
