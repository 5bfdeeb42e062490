-- ===== src/Base/Perms.antt =====
-- Lists without repetitions, and what a permutation keeps.
use mathlib.Core.Path.{◌≡◌, sym, ◌∙◌}
use mathlib.Core.Logic.{inl, inr}
use mathlib.Core.List.{List, [], ◌∷◌, Permᴰ}
use mathlib.Core.List.Permᴰ
use contract_conformance_tes.Base.Lists.{Any, All}
use contract_conformance_tes.Base.Strings.{Text}
use contract_conformance_tes.Base.Sets.{Has}

-- No two of the names are alike.
abbrev pub Distinct : List Text → Type 0
Distinct [] = Unit
Distinct (name ∷ rest) = (¬ Has rest name) × Distinct rest

module _ {A : Type 0} (P : A → Type 0) where
  pub Any-Permᴰ : {xs ys : List A} → Permᴰ xs ys → Any P xs → Any P ys
  Any-Permᴰ Permᴰ.nil h = h
  Any-Permᴰ (Permᴰ.cons e p) (inl h) = inl (rw e at h)
  Any-Permᴰ (Permᴰ.cons e p) (inr h) = inr (Any-Permᴰ p h)
  Any-Permᴰ (Permᴰ.swap e f) (inl h) = inr (inl (rw e at h))
  Any-Permᴰ (Permᴰ.swap e f) (inr (inl h)) = inl (rw f at h)
  Any-Permᴰ (Permᴰ.swap e f) (inr (inr h)) = inr (inr h)
  Any-Permᴰ (Permᴰ.trans p q) h = Any-Permᴰ q (Any-Permᴰ p h)

  pub All-Permᴰ : {xs ys : List A} → Permᴰ xs ys → All P xs → All P ys
  All-Permᴰ Permᴰ.nil h = h
  All-Permᴰ (Permᴰ.cons e p) (h, hs) = (rw e at h, All-Permᴰ p hs)
  All-Permᴰ (Permᴰ.swap e f) (h, (k, hs)) = (rw f at k, (rw e at h, hs))
  All-Permᴰ (Permᴰ.trans p q) h = All-Permᴰ q (All-Permᴰ p h)

pub Distinct-Permᴰ : {xs ys : List Text} → Permᴰ xs ys → Distinct xs → Distinct ys
Distinct-Permᴰ Permᴰ.nil h = h
Distinct-Permᴰ (Permᴰ.cons {b = b} e p) (new, h) =
    (λ m. new (Any-Permᴰ (λ x. x ≡ _) (Permᴰ.symm p) (rw (← e) at m)), Distinct-Permᴰ p h)
Distinct-Permᴰ (Permᴰ.swap e f) (new, (fresh, h)) = (
  (elim [ inl same ↦ new (inl (f ∙ sym same ∙ sym e)) | inr m ↦ fresh (rw (← f) at m) ]),
  (λ m. new (inr (rw (← e) at m)), h),
)
Distinct-Permᴰ (Permᴰ.trans p q) h = Distinct-Permᴰ q (Distinct-Permᴰ p h)
