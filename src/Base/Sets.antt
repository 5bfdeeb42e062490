-- ===== src/Base/Sets.antt =====
-- `BTreeSet<&str>`: its elements in ascending order.
use Prim.Native.Nat.Ordering.{lt, eq, gt}
use mathlib.Core.Path.{◌≡◌, refl, sym}
use mathlib.Core.Logic.{◌↔◌, ◌⊎◌, inl, inr}
use mathlib.Core.Bool.{Bool, true, false, not, ◌&&◌}
use mathlib.Core.List.{List, [], ◌∷◌}
use native.Mathlib.Omega.{arith}
use contract_conformance_tes.Base.Lists.{All, Any, any, any_iff}
use contract_conformance_tes.Base.Strings.{Text, text_eq, text_eq_iff}
use contract_conformance_tes.Base.Order.{
  compare_text, PrecedesText, compare_text_refl, compare_text-eq, compare_text-gt,
  compare_text_trans,
}

-- `set.contains(name)`
unfoldable pub has : List Text → Text → Bool
has names name = any (λ x. text_eq x name) names

-- A name is among the names.
abbrev pub Has : List Text → Text → Type 0
Has names name = Any (λ x. x ≡ name) names

pub has_iff : (names : List Text) (name : Text) → (has names name ≡ true) ↔ Has names name
unfolding has
has_iff names name = any_iff (λ x. x ≡ name) (λ x. text_eq x name) (λ x. text_eq_iff x name) names

-- The place of a name among names in order; a name that is there stays.
unfoldable pub place : Text → List Text → List Text
place name [] = name ∷ []
place name (x ∷ set) =
    let rest = place name set in
    elim (compare_text name x) [ lt ↦ name ∷ (x ∷ set) | eq ↦ x ∷ set | gt ↦ x ∷ rest ]

-- `set.insert(name)`: whether the name is new, and the set after.
unfoldable pub insert_name : Text → List Text → Bool × List Text
unfolding place
insert_name name set = (not (has set name), place name set)

-- `collect::<BTreeSet<_>>()`
unfoldable pub collect : List Text → List Text
unfolding place
collect [] = []
collect (x ∷ xs) = place x (collect xs)

-- `==` of two sets: the elements in order.
unfoldable pub set_eq : List Text → List Text → Bool
set_eq [] [] = true
set_eq (x ∷ xs) (y ∷ ys) = let rest = set_eq xs ys in text_eq x y && rest
set_eq _ _ = false

pub Has-place :
    (name : Text) (set : List Text) (x : Text) → Has (place name set) x ↔ ((name ≡ x) ⊎ Has set x)
unfolding place
Has-place name [] x = ground arith
Has-place name (y ∷ set) x = ground (arith, Has-place name set x, compare_text-eq name y)

pub Has-collect : (xs : List Text) (x : Text) → Has (collect xs) x ↔ Has xs x
unfolding collect
Has-collect [] x = ground arith
Has-collect (y ∷ xs) x = ground (arith, Has-place y (collect xs) x, Has-collect xs x)

-- Ascending, so without repetition.
abbrev pub IsSorted : List Text → Type 0
IsSorted [] = Unit
IsSorted (x ∷ xs) = All (PrecedesText x) xs × IsSorted xs

-- A name stands behind itself in no order.
irreflexive : (s : Text) → ¬ PrecedesText s s
irreflexive s h = let same = compare_text_refl s in cc

-- A property of all elements is one of each element.
pub All-Has_elem : (P : Text → Type 0) (xs : List Text) (x : Text) → All P xs → Has xs x → P x
All-Has_elem P [] x h m = absurd m
All-Has_elem P (y ∷ xs) x (p, h) (inl e) = rw e at p
All-Has_elem P (y ∷ xs) x (p, h) (inr m) = All-Has_elem P xs x h m

pub All-of_Has : (P : Text → Type 0) (xs : List Text) → ((x : Text) → Has xs x → P x) → All P xs
All-of_Has P [] f = tt
All-of_Has P (x ∷ xs) f = (f x (inl refl), All-of_Has P xs (λ y m. f y (inr m)))

PrecedesText-All :
    (x y : Text) (xs : List Text)
    → PrecedesText x y
    → All (PrecedesText y) xs
    → All (PrecedesText x) xs
PrecedesText-All x y [] h k = tt
PrecedesText-All x y (z ∷ xs) h (k, ks) =
    (compare_text_trans x y z h k, PrecedesText-All x y xs h ks)

place-PrecedesText :
    (x name : Text) (xs : List Text)
    → PrecedesText x name
    → All (PrecedesText x) xs
    → All (PrecedesText x) (place name xs)
unfolding place
place-PrecedesText x name [] h k = (h, tt)
place-PrecedesText x name (y ∷ xs) h (k, ks) = ground (arith, place-PrecedesText x name xs h ks)

pub place-IsSorted : (name : Text) (xs : List Text) → IsSorted xs → IsSorted (place name xs)
unfolding place
place-IsSorted name [] h = (tt, tt)
place-IsSorted name (x ∷ xs) (low, h) = ground (
  arith,
  PrecedesText-All name x xs,
  compare_text-gt name x,
  place-PrecedesText x name xs,
  place-IsSorted name xs,
)

pub collect-IsSorted : (xs : List Text) → IsSorted (collect xs)
unfolding collect
collect-IsSorted [] = tt
collect-IsSorted (x ∷ xs) = place-IsSorted x (collect xs) (collect-IsSorted xs)

-- Two sets have the same elements.
abbrev pub SameElements : List Text → List Text → Type 0
SameElements xs ys = (x : Text) → Has xs x ↔ Has ys x

same_head :
    (x y : Text) (xs ys : List Text)
    → IsSorted (x ∷ xs)
    → IsSorted (y ∷ ys)
    → SameElements (x ∷ xs) (y ∷ ys)
    → x ≡ y
same_head x y xs ys (low, h) (low', h') same = elim ((same x).0 (inl refl)) [
  | inl e ↦ sym e
  | inr m ↦ elim ((same y).1 (inl refl)) [
    | inl e ↦ e
    | inr m' ↦
        let below = All-Has_elem (PrecedesText y) ys x low' m in
        let above = All-Has_elem (PrecedesText x) xs y low m' in
        absurd (irreflexive x (compare_text_trans x y x above below))
  ]
]

-- Behind the same least element, the other elements agree.
same_tail :
    (x : Text) (xs ys : List Text)
    → IsSorted (x ∷ xs)
    → ((z : Text) → Has (x ∷ xs) z → Has (x ∷ ys) z)
    → (z : Text) → Has xs z
    → Has ys z
same_tail x xs ys (low, h) sub z m = elim (sub z (inr m)) [
  | inl e ↦ absurd (irreflexive x (rw (← e) at (All-Has_elem (PrecedesText x) xs z low m)))
  | inr m' ↦ m'
]

ascending_ext :
    (xs ys : List Text) → IsSorted xs → IsSorted ys → SameElements xs ys → set_eq xs ys ≡ true
unfolding set_eq
ascending_ext [] [] h k same = refl
ascending_ext [] (y ∷ ys) h k same = absurd ((same y).1 (inl refl))
ascending_ext (x ∷ xs) [] h k same = absurd ((same x).0 (inl refl))
ascending_ext (x ∷ xs) (y ∷ ys) h k same =
    let head = same_head x y xs ys h k same in
    let rest = ascending_ext xs ys h.1 k.1 (λ z. (
      same_tail x xs ys h (λ w m. rw head ((same w).0 m)) z,
      same_tail y ys xs k (λ w m. rw (← head) ((same w).1 m)) z,
    )) in
    ground (arith, text_eq_iff x y)

pub set_eq-eq : (xs ys : List Text) → set_eq xs ys ≡ true → xs ≡ ys
unfolding set_eq
set_eq-eq [] [] h = refl
set_eq-eq [] (y ∷ ys) h = cc
set_eq-eq (x ∷ xs) [] h = cc
set_eq-eq (x ∷ xs) (y ∷ ys) h = ground (arith, text_eq_iff x y, set_eq-eq xs ys)

-- Sets are equal exactly if they have the same elements.
pub set_eq_iff :
    (xs ys : List Text) → IsSorted xs → IsSorted ys → (set_eq xs ys ≡ true) ↔ SameElements xs ys
set_eq_iff xs ys h k =
    (λ e x. let same = set_eq-eq xs ys e in rw same ((λ m. m), λ m. m), ascending_ext xs ys h k)
