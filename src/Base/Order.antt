-- ===== src/Base/Order.antt =====
-- The order of `str`: byte by byte, a text before its extensions.
use Prim.Native.Nat.{compare, Ordering}
use Prim.Native.Nat.Ordering.{lt, eq, gt}
use mathlib.Core.Path.{◌≡◌, refl}
use mathlib.Core.List.{[], ◌∷◌}
use native.Mathlib.Omega.{arith}
use contract_conformance_tes.Base.Strings.{Text}

-- `str::cmp`
unfoldable pub compare_text : Text → Text → Ordering
compare_text [] [] = eq
compare_text [] (b ∷ t) = lt
compare_text (a ∷ s) [] = gt
compare_text (a ∷ s) (b ∷ t) =
    let rest = compare_text s t in elim (compare a b) [ lt ↦ lt | eq ↦ rest | gt ↦ gt ]

-- The text stands in front of the other one.
abbrev pub PrecedesText : Text → Text → Type 0
PrecedesText s t = compare_text s t ≡ lt

pub compare_text_refl : (s : Text) → compare_text s s ≡ eq
unfolding compare_text
compare_text_refl [] = refl
compare_text_refl (a ∷ s) = ground (arith, compare_text_refl s)

pub compare_text-eq : (s t : Text) → compare_text s t ≡ eq → s ≡ t
unfolding compare_text
compare_text-eq [] [] h = refl
compare_text-eq [] (b ∷ t) h = cc
compare_text-eq (a ∷ s) [] h = cc
compare_text-eq (a ∷ s) (b ∷ t) h = ground (arith, compare_text-eq s t)

pub compare_text-gt : (s t : Text) → compare_text s t ≡ gt → compare_text t s ≡ lt
unfolding compare_text
compare_text-gt [] [] h = cc
compare_text-gt [] (b ∷ t) h = cc
compare_text-gt (a ∷ s) [] h = refl
compare_text-gt (a ∷ s) (b ∷ t) h = ground (arith, compare_text-gt s t)

pub compare_text_trans :
    (s t u : Text) → compare_text s t ≡ lt → compare_text t u ≡ lt → compare_text s u ≡ lt
unfolding compare_text
compare_text_trans [] [] u h k = k
compare_text_trans [] (b ∷ t) [] h k = cc
compare_text_trans [] (b ∷ t) (c ∷ u) h k = refl
compare_text_trans (a ∷ s) [] u h k = cc
compare_text_trans (a ∷ s) (b ∷ t) [] h k = cc
compare_text_trans (a ∷ s) (b ∷ t) (c ∷ u) h k = ground (arith, compare_text_trans s t u)
