-- ===== src/Repository/Uses/Strip.antt =====
-- `strip` takes the white space away.
use mathlib.Core.List.{append-nil, append_assoc}
use contract_conformance_tes.Base.{
  ℕ, ◌≡◌, ◌≤◌, ◌∙◌, refl, sym, ap, inl, inr, true, Bool-cases, [], ◌∷◌, ◌++◌, length, Text,
  is_empty, is_empty_iff, ◌↔◌, subst, is_wide_space, arith,
}
use contract_conformance_tes.Repository.Lines.{is_space, is_space_2, strip_start, strip_end}
use contract_conformance_tes.Repository.Uses.{IsSpace, White, IsLeft, IsFront}
use contract_conformance_tes.Repository.Uses.Cut.{length-cut}

-- A white space character at the start goes.
strip_start-IsSpace : (c s : Text) → IsSpace c → strip_start (c ++ s) ≡ strip_start s
unfolding strip_start
strip_start-IsSpace [] s h = absurd h
strip_start-IsSpace (a ∷ []) [] h = ground (arith, h)
strip_start-IsSpace (a ∷ []) (x ∷ []) h = ground (arith, h)
strip_start-IsSpace (a ∷ []) (x ∷ (y ∷ s)) h = ground (arith, h)
strip_start-IsSpace (a ∷ (b ∷ [])) [] h = ground (arith, h)
strip_start-IsSpace (a ∷ (b ∷ [])) (x ∷ s) h = ground (arith, h)
strip_start-IsSpace (a ∷ (b ∷ (c ∷ []))) s h = ground (arith, h)
strip_start-IsSpace (a ∷ (b ∷ (c ∷ (d ∷ t)))) s h = absurd h

strip_start-White : (t s : Text) → White t → strip_start (t ++ s) ≡ strip_start s
strip_start-White _ s White.blank = refl
strip_start-White _ s (White.space c u h w) =
    ap strip_start (append_assoc c u s) ∙ strip_start-IsSpace c (u ++ s) h ∙ strip_start-White u s w

-- What goes is white space.
abbrev WhiteBefore : Text → Text → Type 0
WhiteBefore t rest = (left : Text) × (t ≡ left ++ rest) × White left

WhiteBefore-step : (c t rest : Text) → IsSpace c → WhiteBefore t rest → WhiteBefore (c ++ t) rest
WhiteBefore-step c t rest h (left, e, w) =
    (c ++ left, ap (λ x. c ++ x) e ∙ sym (append_assoc c left rest), White.space c left h w)

strip_start-WhiteBefore : (t : Text) → WhiteBefore t (strip_start t)
unfolding strip_start
strip_start-WhiteBefore [] = ([], refl, White.blank)
strip_start-WhiteBefore (a ∷ []) = elim (Bool-cases (is_space a)) [
  | inl one ↦ rw one (WhiteBefore-step (a ∷ []) [] [] (ground arith) ([], refl, White.blank))
  | inr solid ↦ rw solid ([], refl, White.blank)
]
strip_start-WhiteBefore (a ∷ (b ∷ [])) = elim (Bool-cases (is_space a)) [
  | inl one ↦
      rw (one, strip_start)
        (WhiteBefore-step (a ∷ []) (b ∷ []) (strip_start (b ∷ [])) (ground arith)
          (strip_start-WhiteBefore (b ∷ [])))
  | inr solid ↦ elim (Bool-cases (is_space_2 a b)) [
    | inl two ↦
        rw (solid, two)
          (WhiteBefore-step (a ∷ (b ∷ [])) [] [] (ground arith) ([], refl, White.blank))
    | inr ends ↦ rw (solid, ends) ([], refl, White.blank)
  ]
]
strip_start-WhiteBefore (a ∷ (b ∷ (c ∷ s))) = elim (Bool-cases (is_space a)) [
  | inl one ↦
      rw (one, strip_start)
        (WhiteBefore-step (a ∷ []) (b ∷ (c ∷ s)) (strip_start (b ∷ (c ∷ s))) (ground arith)
          (strip_start-WhiteBefore (b ∷ (c ∷ s))))
  | inr solid ↦ elim (Bool-cases (is_space_2 a b)) [
    | inl two ↦
        rw (solid, two, strip_start)
          (WhiteBefore-step (a ∷ (b ∷ [])) (c ∷ s) (strip_start (c ∷ s)) (ground arith)
            (strip_start-WhiteBefore (c ∷ s)))
    | inr ends ↦ elim (Bool-cases (is_wide_space a b c)) [
      | inl wide ↦
          rw (solid, ends, wide, strip_start)
            (WhiteBefore-step (a ∷ (b ∷ (c ∷ []))) s (strip_start s) (ground arith)
              (strip_start-WhiteBefore s))
      | inr none ↦ rw (solid, ends, none) ([], refl, White.blank)
    ]
  ]
]

pub strip_start-IsLeft : (t : Text) → IsLeft t (strip_start t)
strip_start-IsLeft t =
    let (left, e, w) = strip_start-WhiteBefore t in
    record {
      left = left;
      whole = e;
      white = w;
      longest = λ x y h v.
          let (part, f, u) = strip_start-WhiteBefore y in
          let same : strip_start t ≡ strip_start y = ap strip_start h ∙ strip_start-White x y v in
          let size = length-cut t left (strip_start t) e in
          let sizes = length-cut t x y h in
          let rest = length-cut y part (strip_start y) f in
          let equal = ap (λ s. length s) same in omega arith;
    }

strip_start-empty : strip_start [] ≡ []
unfolding strip_start
strip_start-empty = refl

-- A text is white exactly if nothing is left.
strip_start_iff : (t : Text) → (is_empty (strip_start t) ≡ true) ↔ White t
strip_start_iff t = (
  λ h.
      let (left, e, w) = strip_start-WhiteBefore t in
      let none = (is_empty_iff (strip_start t)).0 h in
      subst White (sym (e ∙ ap (λ s. left ++ s) none ∙ append-nil left)) w,
  λ w.
      (is_empty_iff (strip_start t)).1
        (ap strip_start (sym (append-nil t)) ∙ strip_start-White t [] w ∙ strip_start-empty),
)

longest_later :
    (a : ℕ) (s right x y : Text)
    → (¬ White (a ∷ s))
    → ((u v : Text) → s ≡ u ++ v → White v → length v ≤ length right)
    → a ∷ s ≡ x ++ y
    → White y
    → length y ≤ length right
longest_later a s right [] y n longest h w = absurd (n (subst White (sym h) w))
longest_later a s right (b ∷ x) y n longest h w = longest x y (ground (arith, h)) w

pub strip_end-IsFront : (t : Text) → IsFront t (strip_end t)
unfolding strip_end
strip_end-IsFront [] = record {
  right = [];
  whole = refl;
  white = White.blank;
  longest = λ x y h w. let size = length-cut [] x y h in omega arith;
}
strip_end-IsFront (a ∷ s) = elim (Bool-cases (is_empty (strip_start (a ∷ s)))) [
  | inl white ↦ rw white (record {
    right = a ∷ s;
    whole = refl;
    white = (strip_start_iff (a ∷ s)).0 white;
    longest = λ x y h w. let size = length-cut (a ∷ s) x y h in omega arith;
  })
  | inr solid ↦
      let rest = strip_end-IsFront s in
      rw solid (record {
        right = rest.right;
        whole = ap (λ l. a ∷ l) rest.whole;
        white = rest.white;
        longest = λ x y h w.
            longest_later a s rest.right x y (λ v. cc ((strip_start_iff (a ∷ s)).1 v)) rest.longest
              h w;
      })
]
