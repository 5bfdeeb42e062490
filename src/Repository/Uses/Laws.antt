-- ===== src/Repository/Uses/Laws.antt =====
-- `actions` gives the actions that a workflow uses.
use contract_conformance_tes.Base.{
  ℕ, ◌≡◌, ◌≢◌, ◌≤◌, ◌∙◌, ◌↔◌, refl, sym, ap, subst, inl, inr, true, false, Bool-cases, List, [],
  ◌∷◌, ◌++◌, length, Text, Holds, Begins-empty, contains, contains_iff, starts_with,
  starts_with_iff, arith,
}
use contract_conformance_tes.Repository.{uses, actions_of, actions}
use contract_conformance_tes.Repository.Lines.{drop, after_first, strip_start, strip, splitlines}
use contract_conformance_tes.Repository.Uses.{
  IsBehind, IsLeft, IsFront, IsActionOf, AreActions, Uses,
}
use contract_conformance_tes.Repository.Uses.Cut.{cut-eq, cut_end-eq}
use contract_conformance_tes.Repository.Uses.Strip.{strip_start-IsLeft, strip_end-IsFront}
use contract_conformance_tes.Repository.Uses.Split.{splitlines-AreLines, AreLines-eq}

drop-append : (mark s : Text) → drop mark (mark ++ s) ≡ s
unfolding drop
drop-append [] s = refl
drop-append (b ∷ mark) s = drop-append mark s

-- A mark is looked for from the start on.
first_later :
    (mark : Text) (b : ℕ) (s before x y : Text)
    → starts_with (b ∷ s) mark ≡ false
    → ((u v : Text) → s ≡ u ++ (mark ++ v) → length before ≤ length u)
    → b ∷ s ≡ x ++ (mark ++ y)
    → length (b ∷ before) ≤ length x
first_later mark b s before [] y other first h = cc (other, (starts_with_iff (b ∷ s) mark).1 (y, h))
first_later mark b s before (c ∷ x) y other first h =
    let short = first x y (ground (arith, h)) in omega arith

after_first-IsBehind :
    (mark s : Text) → mark ≢ [] → contains s mark ≡ true → IsBehind mark s (after_first mark s)
unfolding after_first contains
after_first-IsBehind mark [] some_mark h =
    absurd (some_mark (Begins-empty mark ((starts_with_iff [] mark).0 h)))
after_first-IsBehind mark (b ∷ s) some_mark h = elim (Bool-cases (starts_with (b ∷ s) mark)) [
  | inl here ↦
      let (rest, e) = (starts_with_iff (b ∷ s) mark).0 here in
      rw here (record {
        before = [];
        whole = e ∙ ap (λ l. mark ++ l) (sym (ap (drop mark) e ∙ drop-append mark rest));
        first = λ x y k. omega arith;
      })
  | inr other ↦
      let later = after_first-IsBehind mark s some_mark (rw other at h) in
      rw (other, after_first)
        (record {
          before = b ∷ later.before;
          whole = ap (λ l. b ∷ l) later.whole;
          first = λ x y k. first_later mark b s later.before x y other later.first k;
        })
]

-- The three parts are determined.
IsBehind-eq : (mark s a b : Text) → IsBehind mark s a → IsBehind mark s b → a ≡ b
IsBehind-eq mark s a b p q =
    let less = p.first q.before b q.whole in
    let greater = q.first p.before a p.whole in
    let (same, rest) =
      cut-eq p.before (mark ++ a) q.before (mark ++ b) (sym p.whole ∙ q.whole) (omega arith) in
    (cut-eq mark a mark b rest refl).1

IsLeft-eq : (s a b : Text) → IsLeft s a → IsLeft s b → a ≡ b
IsLeft-eq s a b p q =
    let less = p.longest q.left b q.whole q.white in
    let greater = q.longest p.left a p.whole p.white in
    (cut-eq p.left a q.left b (sym p.whole ∙ q.whole) (omega arith)).1

IsFront-eq : (s a b : Text) → IsFront s a → IsFront s b → a ≡ b
IsFront-eq s a b p q =
    let less = p.longest b q.right q.whole q.white in
    let greater = q.longest a p.right p.whole p.white in
    (cut_end-eq a p.right b q.right (sym p.whole ∙ q.whole) (omega arith)).0

IsActionOf-eq : (line a b : Text) → IsActionOf line a → IsActionOf line b → a ≡ b
IsActionOf-eq line a b (rest, middle, behind, left, front) (more, inner, after, start, end) =
    let same = IsBehind-eq uses line rest more behind after in
    let inside = IsLeft-eq rest middle inner left (subst (λ r. IsLeft r inner) (sym same) start) in
    IsFront-eq middle a b front (subst (λ m. IsFront m b) (sym inside) end)

strip-IsActionOf :
    (line : Text) → contains line uses ≡ true → IsActionOf line (strip (after_first uses line))
unfolding strip
strip-IsActionOf line h =
    let rest = after_first uses line in
    (
      rest,
      strip_start rest,
      after_first-IsBehind uses line (λ e. cc) h,
      strip_start-IsLeft rest,
      strip_end-IsFront (strip_start rest),
    )

actions_of-AreActions : (lines : List Text) → AreActions lines (actions_of lines)
actions_of-AreActions [] = refl
actions_of-AreActions (line ∷ lines) = elim (Bool-cases (contains line uses)) [
  | inl used ↦ rw used (
      inr (
        strip (after_first uses line),
        actions_of lines,
        refl,
        strip-IsActionOf line used,
        actions_of-AreActions lines,
      ))
  | inr free ↦
      rw free
        (inl ((λ holds. cc (free, (contains_iff line uses).1 holds)), actions_of-AreActions lines))
]

IsActionOf-Holds : (line action : Text) → IsActionOf line action → Holds line uses
IsActionOf-Holds line action (rest, middle, behind, left, front) =
    (behind.before, rest, behind.whole)

AreActions-eq : (lines a b : List Text) → AreActions lines a → AreActions lines b → a ≡ b
AreActions-eq [] a b h k = h ∙ sym k
AreActions-eq (line ∷ lines) a b (inl (_, h)) (inl (_, k)) = AreActions-eq lines a b h k
AreActions-eq (line ∷ lines) a b (inl (free, h)) (inr (action, more, e, used, k)) =
    absurd (free (IsActionOf-Holds line action used))
AreActions-eq (line ∷ lines) a b (inr (action, more, e, used, k)) (inl (free, h)) =
    absurd (free (IsActionOf-Holds line action used))
AreActions-eq (line ∷ lines) a b (inr (action, more, e, used, h))
      (inr (other, rest, f, needed, k)) =
    e
    ∙ (λ i. IsActionOf-eq line action other used needed i ∷ AreActions-eq lines more rest h k i)
    ∙ sym f

-- The texts that the check takes for the actions of a workflow are those behind the first "uses:"
-- of each line that has one, without the longest white space before and behind, in their order;
-- the lines are what stands between the ends of lines, each end the first and longest.
pub actions_iff :
    (workflow : Text) (found : List Text) → (actions workflow ≡ found) ↔ Uses workflow found
unfolding actions
actions_iff workflow found =
    let lines = splitlines workflow in
    (
      λ h. (
        lines,
        splitlines-AreLines workflow,
        subst (AreActions lines) h (actions_of-AreActions lines),
      ),
      λ (others, split, named).
          let same = AreLines-eq workflow others lines split (splitlines-AreLines workflow) in
          AreActions-eq lines (actions_of lines) found (actions_of-AreActions lines)
            (subst (λ ls. AreActions ls found) same named),
    )
