-- ===== src/Repository/Uses/Split.antt =====
-- `splitlines` gives the lines of a text.
use contract_conformance_tes.Base.{
  ℕ, ◌≡◌, ◌≤◌, ◌∙◌, refl, sym, ap, subst, inl, inr, true, false, Bool-cases, List, [], ◌∷◌, ◌++◌,
  length, Text, arith,
}
use contract_conformance_tes.Repository.Lines.{
  ends_line, ends_line_2, ends_line_3, put_byte, splitlines,
}
use contract_conformance_tes.Repository.Uses.{IsEnd, EndsAt, Ended, IsOpen, AreLines}
use contract_conformance_tes.Repository.Uses.Cut.{cut-eq}

-- An end at the start ends an empty line, if there is no longer one.
AreLines-end :
    (e rest : Text) (lines : List Text)
    → IsEnd e
    → ((f y : Text) → EndsAt (e ++ rest) [] f y → length f ≤ length e)
    → AreLines rest lines
    → AreLines (e ++ rest) ([] ∷ lines)
AreLines-end e rest lines h longest later =
    inr (
      e,
      rest,
      record { here = (h, refl); first = λ x f y k. omega arith; longest = longest },
      later,
    )

-- No end stands at the start.
abbrev NoEnd : Text → Type 0
NoEnd t = (f y : Text) → ¬ EndsAt t [] f y

later_end :
    (a : ℕ) (t line x f y : Text)
    → NoEnd (a ∷ t)
    → ((u g v : Text) → EndsAt t u g v → length line ≤ length u)
    → EndsAt (a ∷ t) x f y
    → length (a ∷ line) ≤ length x
later_end a t line [] f y none_here first k = absurd (none_here f y k)
later_end a t line (b ∷ x) f y none_here first (end, k) =
    let short = first x f y (end, ground (arith, k)) in omega arith

open_later : (a : ℕ) (t x f y : Text) → NoEnd (a ∷ t) → IsOpen t → ¬ EndsAt (a ∷ t) x f y
open_later a t [] f y none_here open_rest k = none_here f y k
open_later a t (b ∷ x) f y none_here open_rest (end, k) = open_rest x f y (end, ground (arith, k))

IsOpen-empty : IsOpen []
IsOpen-empty [] [] y (end, k) = absurd end
IsOpen-empty [] (b ∷ f) y (end, k) = cc
IsOpen-empty (b ∷ x) f y (end, k) = cc

-- A byte where no end begins stands in the first line.
AreLines-put_byte :
    (a : ℕ) (t : Text) (lines : List Text)
    → NoEnd (a ∷ t)
    → AreLines t lines
    → AreLines (a ∷ t) (put_byte a lines)
AreLines-put_byte a t [] none_here h = inl (
  (λ e. cc),
  ap (λ s. a ∷ s) (sym h),
  refl,
  λ x f y. open_later a t x f y none_here (rw h IsOpen-empty),
)
AreLines-put_byte a t (line ∷ lines) none_here (inl (some_text, same, last, open_rest)) =
    inl ((λ e. cc), ap (λ s. a ∷ s) same, last, λ x f y. open_later a t x f y none_here open_rest)
AreLines-put_byte a t (line ∷ lines) none_here (inr (e, rest, ended, later)) = inr (
  e,
  rest,
  record {
    here = (ended.here.0, ap (λ s. a ∷ s) ended.here.1);
    first = λ x f y k. later_end a t line x f y none_here ended.first k;
    longest = λ f y (end, k). ended.longest f y (end, ground (arith, k));
  },
  later,
)

NoEnd-one : (a : ℕ) → ends_line a ≡ false → NoEnd (a ∷ [])
NoEnd-one a h [] y (end, k) = absurd end
NoEnd-one a h (x ∷ []) y (end, k) = ground (arith, end, k)
NoEnd-one a h (x ∷ (z ∷ f)) y (end, k) = cc

NoEnd-two : (a b : ℕ) → ends_line a ≡ false → ends_line_2 a b ≡ false → NoEnd (a ∷ (b ∷ []))
NoEnd-two a b one two [] y (end, k) = absurd end
NoEnd-two a b one two (x ∷ []) y (end, k) = ground (arith, end, k)
NoEnd-two a b one two (x ∷ (z ∷ [])) y (end, k) = ground (arith, end, k)
NoEnd-two a b one two (x ∷ (z ∷ (w ∷ f))) y (end, k) = cc

NoEnd-three :
    (a b c : ℕ) (s : Text)
    → ends_line a ≡ false
    → ends_line_2 a b ≡ false
    → ends_line_3 a b c ≡ false
    → NoEnd (a ∷ (b ∷ (c ∷ s)))
NoEnd-three a b c s one two three [] y (end, k) = absurd end
NoEnd-three a b c s one two three (x ∷ []) y (end, k) = ground (arith, end, k)
NoEnd-three a b c s one two three (x ∷ (z ∷ [])) y (end, k) = ground (arith, end, k)
NoEnd-three a b c s one two three (x ∷ (z ∷ (w ∷ []))) y (end, k) = ground (arith, end, k)
NoEnd-three a b c s one two three (x ∷ (z ∷ (w ∷ (v ∷ f)))) y (end, k) = absurd end

-- An end of one byte is the longest one, unless it is the start of one of two.
longest_one :
    (a : ℕ) (s f y : Text)
    → ends_line a ≡ true
    → ((b : ℕ) (t : Text) → s ≡ b ∷ t → ends_line_2 a b ≡ false)
    → EndsAt (a ∷ s) [] f y
    → length f ≤ 1
longest_one a s [] y h none_here k = omega arith
longest_one a s (x ∷ []) y h none_here k = omega arith
longest_one a [] (x ∷ (z ∷ f)) y h none_here (end, k) = cc
longest_one a (b ∷ s) (x ∷ (z ∷ [])) y h none_here (end, k) =
    let two = none_here b s refl in ground (arith, end, k)
longest_one a (b ∷ s) (x ∷ (z ∷ (w ∷ []))) y h none_here (end, k) = ground (arith, end, k)
longest_one a s (x ∷ (z ∷ (w ∷ (v ∷ f)))) y h none_here (end, k) = absurd end

longest_two :
    (a b : ℕ) (s f y : Text) → ends_line_2 a b ≡ true → EndsAt (a ∷ (b ∷ s)) [] f y → length f ≤ 2
longest_two a b s [] y h k = omega arith
longest_two a b s (x ∷ []) y h k = omega arith
longest_two a b s (x ∷ (z ∷ [])) y h k = omega arith
longest_two a b s (x ∷ (z ∷ (w ∷ []))) y h (end, k) = ground (arith, end, k)
longest_two a b s (x ∷ (z ∷ (w ∷ (v ∷ f)))) y h (end, k) = absurd end

longest_three : (t f y : Text) → EndsAt t [] f y → length f ≤ 3
longest_three t [] y k = omega arith
longest_three t (x ∷ []) y k = omega arith
longest_three t (x ∷ (z ∷ [])) y k = omega arith
longest_three t (x ∷ (z ∷ (w ∷ []))) y k = omega arith
longest_three t (x ∷ (z ∷ (w ∷ (v ∷ f)))) y (end, k) = absurd end

pub splitlines-AreLines : (t : Text) → AreLines t (splitlines t)
unfolding splitlines
splitlines-AreLines [] = refl
splitlines-AreLines (a ∷ []) = elim (Bool-cases (ends_line a)) [
  | inl ends ↦ rw ends (
      AreLines-end (a ∷ []) [] [] (ground arith) (λ f y. longest_one a [] f y ends (λ b t e. cc))
        refl)
  | inr inside ↦ rw inside (AreLines-put_byte a [] [] (NoEnd-one a inside) refl)
]
splitlines-AreLines (a ∷ (b ∷ [])) = elim (Bool-cases (ends_line_2 a b)) [
  | inl two ↦
      rw two
        (AreLines-end (a ∷ (b ∷ [])) [] [] (ground arith) (λ f y. longest_two a b [] f y two) refl)
  | inr other ↦ elim (Bool-cases (ends_line a)) [
    | inl ends ↦
        rw (other, ends, splitlines)
          (AreLines-end (a ∷ []) (b ∷ []) (splitlines (b ∷ [])) (ground arith)
            (λ f y. longest_one a (b ∷ []) f y ends (λ d t e. ground (arith, e)))
            (splitlines-AreLines (b ∷ [])))
    | inr inside ↦
        rw (other, inside, splitlines)
          (AreLines-put_byte a (b ∷ []) (splitlines (b ∷ [])) (NoEnd-two a b inside other)
            (splitlines-AreLines (b ∷ [])))
  ]
]
splitlines-AreLines (a ∷ (b ∷ (c ∷ s))) = elim (Bool-cases (ends_line_2 a b)) [
  | inl two ↦
      rw (two, splitlines)
        (AreLines-end (a ∷ (b ∷ [])) (c ∷ s) (splitlines (c ∷ s)) (ground arith)
          (λ f y. longest_two a b (c ∷ s) f y two) (splitlines-AreLines (c ∷ s)))
  | inr other ↦ elim (Bool-cases (ends_line a)) [
    | inl ends ↦
        rw (other, ends, splitlines)
          (AreLines-end (a ∷ []) (b ∷ (c ∷ s)) (splitlines (b ∷ (c ∷ s))) (ground arith)
            (λ f y. longest_one a (b ∷ (c ∷ s)) f y ends (λ d t e. ground (arith, e)))
            (splitlines-AreLines (b ∷ (c ∷ s))))
    | inr inside ↦ elim (Bool-cases (ends_line_3 a b c)) [
      | inl three ↦
          rw (other, inside, three, splitlines)
            (AreLines-end (a ∷ (b ∷ (c ∷ []))) s (splitlines s) (ground arith)
              (longest_three (a ∷ (b ∷ (c ∷ s)))) (splitlines-AreLines s))
      | inr plain ↦
          rw (other, inside, plain, splitlines)
            (AreLines-put_byte a (b ∷ (c ∷ s)) (splitlines (b ∷ (c ∷ s)))
              (NoEnd-three a b c s inside other plain) (splitlines-AreLines (b ∷ (c ∷ s))))
    ]
  ]
]

-- The lines of a text are determined.
Ended-eq :
    (t line e rest other f more : Text)
    → Ended t line e rest
    → Ended t other f more
    → (line ≡ other) × (rest ≡ more)
Ended-eq t line e rest other f more p q =
    let here = p.here in
    let there = q.here in
    let less = p.first other f more there in
    let greater = q.first line e rest here in
    let (same, behind) =
      cut-eq line (e ++ rest) other (f ++ more) (sym here.1 ∙ there.1) (omega arith) in
    let short = p.longest f more (there.0, there.1 ∙ ap (λ l. l ++ (f ++ more)) (sym same)) in
    let long = q.longest e rest (here.0, here.1 ∙ ap (λ l. l ++ (e ++ rest)) same) in
    let (ends, others) = cut-eq e rest f more behind (omega arith) in (same, others)

pub AreLines-eq :
    (t : Text) (lines others : List Text) → AreLines t lines → AreLines t others → lines ≡ others
AreLines-eq t [] [] h k = refl
AreLines-eq t [] (line ∷ lines) h (inl (some_text, k, last, open_rest)) = absurd (some_text h)
AreLines-eq t [] (line ∷ lines) h (inr (e, rest, ended, later)) =
    absurd (IsOpen-empty line e rest (ended.here.0, sym h ∙ ended.here.1))
AreLines-eq t (line ∷ lines) [] (inl (some_text, h, last, open_rest)) k = absurd (some_text k)
AreLines-eq t (line ∷ lines) [] (inr (e, rest, ended, later)) k =
    absurd (IsOpen-empty line e rest (ended.here.0, sym k ∙ ended.here.1))
AreLines-eq t (line ∷ lines) (other ∷ others) (inl (_, h, none_left, open_rest))
      (inl (_, k, none_more, _)) =
    cc (h, k, none_left, none_more)
AreLines-eq t (line ∷ lines) (other ∷ others) (inl (_, h, none_left, open_rest))
      (inr (e, rest, ended, later)) =
    absurd (open_rest other e rest ended.here)
AreLines-eq t (line ∷ lines) (other ∷ others) (inr (e, rest, ended, later))
      (inl (_, k, none_more, open_rest)) =
    absurd (open_rest line e rest ended.here)
AreLines-eq t (line ∷ lines) (other ∷ others) (inr (e, rest, ended, later))
      (inr (f, more, finished, further)) =
    let (same, behind) = Ended-eq t line e rest other f more ended finished in
    let tail =
      AreLines-eq rest lines others later (subst (λ r. AreLines r others) (sym behind) further) in
    λ i. same i ∷ tail i
