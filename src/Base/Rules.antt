-- ===== src/Base/Rules.antt =====
-- Checks that stop at the first fault: what they are to hold, in order, as a list of rules, each
-- with the error for a breach of it.
use mathlib.Core.Path.{◌≡◌, refl, sym, ap, ◌∙◌}
use mathlib.Core.Logic.{◌≢◌, ◌↔◌, ◌⊎◌, inl, inr}
use mathlib.Core.Bool.{Bool, true, false}
use mathlib.Core.List.{List, [], ◌∷◌, ◌++◌}
use contract_conformance_tes.Base.Tests.{if◌then◌else◌}
use contract_conformance_tes.Base.Results.{Result, ok, err, ◌>>=◌, ◌>>◌, reject_if, Result-cases}

abbrev pub Rule : Type 0 → Type 1
Rule E = Type 0 × E

module _ {E : Type 0} where
  abbrev pub AllHold : List (Rule E) → Type 0
  AllHold [] = Unit
  AllHold ((holds, fault) ∷ rules) = holds × AllHold rules

  -- The first rule that does not hold has this error.
  abbrev pub FirstFault : List (Rule E) → E → Type 0
  FirstFault [] e = ⊥
  FirstFault ((holds, fault) ∷ rules) e = ((¬ holds) × (e ≡ fault)) ⊎ (holds × FirstFault rules e)

  AllHold-append : (xs ys : List (Rule E)) → AllHold xs → AllHold ys → AllHold (xs ++ ys)
  AllHold-append [] ys h k = k
  AllHold-append ((p, f) ∷ xs) ys (h, hs) k = (h, AllHold-append xs ys hs k)

  FirstFault-append_left :
      (xs ys : List (Rule E)) (e : E) → FirstFault xs e → FirstFault (xs ++ ys) e
  FirstFault-append_left [] ys e h = absurd h
  FirstFault-append_left ((p, f) ∷ xs) ys e (inl h) = inl h
  FirstFault-append_left ((p, f) ∷ xs) ys e (inr (h, later)) =
      inr (h, FirstFault-append_left xs ys e later)

  FirstFault-append_right :
      (xs ys : List (Rule E)) (e : E) → AllHold xs → FirstFault ys e → FirstFault (xs ++ ys) e
  FirstFault-append_right [] ys e h k = k
  FirstFault-append_right ((p, f) ∷ xs) ys e (h, hs) k =
      inr (h, FirstFault-append_right xs ys e hs k)

  FirstFault-unique :
      (rules : List (Rule E)) (a b : E) → FirstFault rules a → FirstFault rules b → a ≡ b
  FirstFault-unique [] a b h k = absurd h
  FirstFault-unique ((p, f) ∷ rules) a b (inl (n, same)) (inl (m, other)) = same ∙ sym other
  FirstFault-unique ((p, f) ∷ rules) a b (inl (n, same)) (inr (h, later)) = absurd (n h)
  FirstFault-unique ((p, f) ∷ rules) a b (inr (h, later)) (inl (n, same)) = absurd (n h)
  FirstFault-unique ((p, f) ∷ rules) a b (inr (h, later)) (inr (k, other)) =
      FirstFault-unique rules a b later other

  no_fault : (rules : List (Rule E)) (e : E) → AllHold rules → ¬ FirstFault rules e
  no_fault [] e h k = k
  no_fault ((p, f) ∷ rules) e (h, hs) (inl (n, same)) = n h
  no_fault ((p, f) ∷ rules) e (h, hs) (inr (k, later)) = no_fault rules e hs later

  -- An error that none of the first rules has.
  abbrev pub Avoids : E → List (Rule E) → Type 0
  Avoids e [] = Unit
  Avoids e ((holds, fault) ∷ rules) = (e ≢ fault) × Avoids e rules

  pub Avoids-append :
      (e : E) (xs ys : List (Rule E)) → Avoids e xs → Avoids e ys → Avoids e (xs ++ ys)
  Avoids-append e [] ys h k = k
  Avoids-append e ((p, f) ∷ xs) ys (n, h) k = (n, Avoids-append e xs ys h k)

  pub FirstFault-behind :
      (xs ys : List (Rule E)) (e : E) → Avoids e xs → FirstFault (xs ++ ys) e → FirstFault ys e
  FirstFault-behind [] ys e h first = first
  FirstFault-behind ((p, f) ∷ xs) ys e (n, h) (inl (broken, same)) = absurd (n same)
  FirstFault-behind ((p, f) ∷ xs) ys e (n, h) (inr (holds, later)) =
      FirstFault-behind xs ys e h later

  -- A check that returns when the rules hold, and fails by the first fault.
  pub record Decides {A : Type 0} (r : Result A E) (rules : List (Rule E)) : Type 0 where
    pub passed : (a : A) → r ≡ ok a → AllHold rules
    pub failed : (e : E) → r ≡ err e → FirstFault rules e

  pub Decides-nil : {A : Type 0} (a : A) → Decides (ok a) []
  Decides-nil a = record { passed = λ b h. tt; failed = λ e h. cc }

  pub Decides-reject_if :
      (b : Bool) (P : Type 0) (fault : E)
      → (b ≡ false) ↔ P
      → Decides (reject_if b fault) ((P, fault) ∷ [])
  Decides-reject_if true P fault iff = record {
    passed = λ a h. absurd (cc h);
    failed = λ e h. inl ((λ p. let no = iff.1 p in cc), cc);
  }
  Decides-reject_if false P fault iff = record {
    passed = λ a h. (iff.0 refl, tt);
    failed = λ e h. absurd (cc h);
  }

  pub Decides-bind :
      {A B : Type 0} {r : Result A E} {xs : List (Rule E)} (f : A → Result B E) (ys : List (Rule E))
      → Decides r xs
      → ((a : A) → r ≡ ok a → Decides (f a) ys)
      → Decides (r >>= f) (xs ++ ys)
  Decides-bind {r = ok a} {xs} f ys d later = record {
    passed = λ b h. AllHold-append xs ys (d.passed a refl) ((later a refl).passed b h);
    failed = λ e h. FirstFault-append_right xs ys e (d.passed a refl) ((later a refl).failed e h);
  }
  Decides-bind {r = err e} {xs} f ys d later = record {
    passed = λ b h. absurd (cc h);
    failed = λ e' h. FirstFault-append_left xs ys e' (d.failed e' (cc h));
  }

  pub Decides-then :
      {B : Type 0} {r : Result (Unit {0}) E} {k : Result B E} {xs ys : List (Rule E)}
      → Decides r xs
      → Decides k ys
      → Decides (r >> k) (xs ++ ys)
  Decides-then {k = k} {ys = ys} d later = Decides-bind (λ _. k) ys d (λ a h. later)

  -- Rules that matter only under a condition.
  abbrev pub under : Type 0 → List (Rule E) → List (Rule E)
  under G [] = []
  under G ((holds, fault) ∷ rules) = ((G → holds), fault) ∷ under G rules

  AllHold-under :
      (G : Type 0) (rules : List (Rule E)) → (G → AllHold rules) → AllHold (under G rules)
  AllHold-under G [] h = tt
  AllHold-under G ((p, f) ∷ rules) h = (λ g. (h g).0, AllHold-under G rules (λ g. (h g).1))

  FirstFault-under :
      (G : Type 0) (rules : List (Rule E)) (e : E)
      → G
      → FirstFault rules e
      → FirstFault (under G rules) e
  FirstFault-under G [] e g first = first
  FirstFault-under G ((p, f) ∷ rules) e g (inl (n, same)) = inl ((λ h. n (h g)), same)
  FirstFault-under G ((p, f) ∷ rules) e g (inr (h, later)) =
      inr ((λ _. h), FirstFault-under G rules e g later)

  pub Decides-under :
      {A : Type 0} {k : Result A E} {rules : List (Rule E)} (a : A) (b : Bool) (G : Type 0)
      → (b ≡ false) ↔ G
      → Decides k rules
      → Decides (if b then ok a else k) (under G rules)
  Decides-under {rules = rules} a true G iff d = record {
    passed = λ b h. AllHold-under G rules (λ g. let no = iff.1 g in cc);
    failed = λ e h. absurd (cc h);
  }
  Decides-under {rules = rules} a false G iff d = record {
    passed = λ b h. AllHold-under G rules (λ g. d.passed b h);
    failed = λ e h. FirstFault-under G rules e (iff.0 refl) (d.failed e h);
  }

  -- A step that cannot be made.
  pub Decides-err : {A : Type 0} (fault : E) → Decides {A = A} (err fault) ((⊥, fault) ∷ [])
  Decides-err fault = record { passed = λ a h. cc; failed = λ e h. inl ((λ x. x), cc) }

  -- Such a check returns exactly if all rules hold.
  pub Decides-AllHold :
      {r : Result (Unit {0}) E} {rules : List (Rule E)}
      → Decides r rules
      → (r ≡ ok tt) ↔ AllHold rules
  Decides-AllHold {r} {rules} d = (
    d.passed tt,
    λ hold. elim (Result-cases r) [
      | inl (a, passed) ↦ passed
      | inr (e, refused) ↦ absurd (no_fault rules e hold (d.failed e refused))
    ],
  )

  -- The two forms of a test in a loop that fails at once.
  pub Decides-if :
      {B : Type 0} {k : Result B E} {rules : List (Rule E)} (b : Bool) (P : Type 0) (fault : E)
      → (b ≡ true) ↔ P
      → Decides k rules
      → Decides (if b then k else err fault) ((P, fault) ∷ rules)
  Decides-if true P fault iff d = record {
    passed = λ a h. (iff.0 refl, d.passed a h);
    failed = λ e h. inr (iff.0 refl, d.failed e h);
  }
  Decides-if false P fault iff d = record {
    passed = λ a h. absurd (cc h);
    failed = λ e h. inl ((λ p. let yes = iff.1 p in cc), cc);
  }

  pub Decides-unless :
      {B : Type 0} {k : Result B E} {rules : List (Rule E)} (b : Bool) (P : Type 0) (fault : E)
      → (b ≡ false) ↔ P
      → Decides k rules
      → Decides (if b then err fault else k) ((P, fault) ∷ rules)
  Decides-unless true P fault iff d = record {
    passed = λ a h. absurd (cc h);
    failed = λ e h. inl ((λ p. let no = iff.1 p in cc), cc);
  }
  Decides-unless false P fault iff d = record {
    passed = λ a h. (iff.0 refl, d.passed a h);
    failed = λ e h. inr (iff.0 refl, d.failed e h);
  }

  -- Such a check fails with an error exactly if that is the first fault.
  pub Decides-FirstFault :
      {A : Type 0} (r : Result A E) (rules : List (Rule E))
      → Decides r rules
      → (e : E) → (r ≡ err e) ↔ FirstFault rules e
  Decides-FirstFault r rules d e = (
    d.failed e,
    λ first. elim (Result-cases r) [
      | inl (a, passed) ↦ absurd (no_fault rules e (d.passed a passed) first)
      | inr (e', refused) ↦
          refused ∙ ap err (FirstFault-unique rules e' e (d.failed e' refused) first)
    ],
  )
