-- ===== src/Policy/Laws.antt =====
-- When a policy passes.
use contract_conformance_tes.Base.{
  ◌≡◌, ◌↔◌, inl, inr, refl, Bool-cases, Result-cases, List, [], ◌∷◌, All, Any, ok, exit_status,
  Text, contains, contains_iff, Holds, arith,
}
use contract_conformance_tes.Policy.{
  required_texts, forbidden_texts, token_prefixes, PolicyError, legacy_text, token_prefix,
  check_required, check_absent, verify_with, verify, main,
}

abbrev pub Lists : List Text → Text → Type 0
Lists texts text = Any (λ t. t ≡ text) texts

-- Every required text stands in the policy, and no forbidden text and no token prefix does.
pub record IsClean (required forbidden prefixes : List Text) (policy : Text) : Type 0 where
  pub stated : All (Holds policy) required
  pub current : All (λ t. ¬ Holds policy t) forbidden
  pub secret_free : All (λ t. ¬ Holds policy t) prefixes

module _ (policy : Text) where
  check_required_iff :
      (texts : List Text) → (check_required policy texts ≡ ok tt) ↔ All (Holds policy) texts
  unfolding check_required
  check_required_iff [] = ((λ _. tt), λ _. refl)
  check_required_iff (t ∷ texts) = elim (Bool-cases (contains policy t)) [
    | inl there ↦ rw there (
      (λ h. ((contains_iff policy t).0 there, (check_required_iff texts).0 h)),
      λ (_, rest). (check_required_iff texts).1 rest,
    )
    | inr missing ↦
        rw missing ((λ h. cc), λ (found, _). let there = (contains_iff policy t).1 found in cc)
  ]

  check_absent_iff :
      (error : Text → PolicyError) (texts : List Text)
      → (check_absent error policy texts ≡ ok tt) ↔ All (λ t. ¬ Holds policy t) texts
  unfolding check_absent
  check_absent_iff error [] = ((λ _. tt), λ _. refl)
  check_absent_iff error (t ∷ texts) = elim (Bool-cases (contains policy t)) [
    | inl there ↦
        rw there ((λ h. cc), λ (absent, _). absurd (absent ((contains_iff policy t).0 there)))
    | inr missing ↦ rw missing (
      (λ h. (
        (λ found. let there = (contains_iff policy t).1 found in cc),
        (check_absent_iff error texts).0 h,
      )),
      λ (_, rest). (check_absent_iff error texts).1 rest,
    )
  ]

verify_with_iff :
    (required forbidden prefixes : List Text) (policy : Text)
    → (verify_with required forbidden prefixes policy ≡ ok tt)
      ↔ IsClean required forbidden prefixes policy
unfolding verify_with
verify_with_iff required forbidden prefixes policy = (
  λ h. record {
    stated = (check_required_iff policy required).0 (ground arith);
    current = (check_absent_iff policy legacy_text forbidden).0 (ground arith);
    secret_free = (check_absent_iff policy token_prefix prefixes).0 (ground arith);
  },
  λ c. rw (
    (check_required_iff policy required).1 c.stated,
    (check_absent_iff policy legacy_text forbidden).1 c.current,
    (check_absent_iff policy token_prefix prefixes).1 c.secret_free,
  ),
)

-- The program exits with status 0 exactly for a policy in which every required text stands, and
-- no forbidden text and no token prefix.
pub main-IsClean :
    (policy : Text)
    → (main policy ≡ 0) ↔ IsClean required_texts forbidden_texts token_prefixes policy
unfolding main verify
main-IsClean policy =
    let exact = verify_with_iff required_texts forbidden_texts token_prefixes policy in
    elim (Result-cases (verify policy)) [
      | inl (done, passed) ↦ ((λ h. exact.0 passed), λ c. rw (passed, exit_status))
      | inr (e, refused) ↦ (
        (λ h. absurd (omega (arith, rw (refused, exit_status) at h))),
        λ c. rw (exact.1 c, exit_status),
      )
    ]
