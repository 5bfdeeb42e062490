-- ===== src/Repository/Uses/Cut.antt =====
-- A text in two parts, determined by the length of the first or of the second.
use contract_conformance_tes.Base.{
  ◌≡◌, ◌+◌, refl, ap, ◌∙◌, [], ◌∷◌, ◌++◌, length, length-append, Text, arith,
}

pub cut-eq : (a b c d : Text) → a ++ b ≡ c ++ d → length a ≡ length c → (a ≡ c) × (b ≡ d)
cut-eq [] b [] d h same = (refl, h)
cut-eq [] b (y ∷ c) d h same = absurd (omega (arith, same))
cut-eq (x ∷ a) b [] d h same = absurd (omega (arith, same))
cut-eq (x ∷ a) b (y ∷ c) d h same =
    let tail : a ++ b ≡ c ++ d = ground (arith, h) in
    let (front, rest) = cut-eq a b c d tail (omega (arith, same)) in ground (arith, h)

pub length-cut : (t a b : Text) → t ≡ a ++ b → length t ≡ length a + length b
length-cut t a b h = ap (λ s. length s) h ∙ length-append a b

pub cut_end-eq : (a b c d : Text) → a ++ b ≡ c ++ d → length b ≡ length d → (a ≡ c) × (b ≡ d)
cut_end-eq a b c d h same =
    let left = length-cut (a ++ b) a b refl in
    let right = length-cut (a ++ b) c d h in cut-eq a b c d h (omega arith)
