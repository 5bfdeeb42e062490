-- ===== src/Policy/Faults.antt =====
-- Which error a policy gives: that of the first rule which it breaks.
use contract_conformance_tes.Base.{
  ◌≡◌, ◌↔◌, List, [], ◌∷◌, ◌++◌, Rule, FirstFault, Decides, Decides-nil, Decides-if, Decides-unless,
  Decides-then, Decides-FirstFault, err, Text, contains, contains_iff, Holds, arith,
}
use contract_conformance_tes.Policy.{
  required_texts, forbidden_texts, token_prefixes, PolicyError, missing_invariant, legacy_text,
  token_prefix, check_required, check_absent, verify_with, verify,
}

-- What the three loops demand, in their order.
abbrev pub stated_rules : Text → List Text → List (Rule PolicyError)
stated_rules policy [] = []
stated_rules policy (t ∷ texts) = (Holds policy t, missing_invariant t) ∷ stated_rules policy texts

abbrev pub absent_rules : (Text → PolicyError) → Text → List Text → List (Rule PolicyError)
absent_rules error policy [] = []
absent_rules error policy (t ∷ texts) =
    ((¬ Holds policy t), error t) ∷ absent_rules error policy texts

abbrev pub policy_rules : List Text → List Text → List Text → Text → List (Rule PolicyError)
policy_rules required forbidden prefixes policy =
    stated_rules policy required
    ++ (absent_rules legacy_text policy forbidden ++ absent_rules token_prefix policy prefixes)

required-Decides :
    (policy : Text) (texts : List Text)
    → Decides (check_required policy texts) (stated_rules policy texts)
unfolding check_required
required-Decides policy [] = Decides-nil tt
required-Decides policy (t ∷ texts) =
    Decides-if (contains policy t) _ _ (contains_iff policy t) (required-Decides policy texts)

absent-Decides :
    (error : Text → PolicyError) (policy : Text) (texts : List Text)
    → Decides (check_absent error policy texts) (absent_rules error policy texts)
unfolding check_absent
absent-Decides error policy [] = Decides-nil tt
absent-Decides error policy (t ∷ texts) =
    Decides-unless (contains policy t) _ _ (ground (arith, contains_iff policy t))
      (absent-Decides error policy texts)

verify_with-Decides :
    (required forbidden prefixes : List Text) (policy : Text)
    → Decides
        (verify_with required forbidden prefixes policy)
        (policy_rules required forbidden prefixes policy)
unfolding verify_with
verify_with-Decides required forbidden prefixes policy =
    Decides-then (required-Decides policy required) (
      Decides-then (absent-Decides legacy_text policy forbidden)
        (absent-Decides token_prefix policy prefixes))

-- `verify` returns an error exactly if it is that of the first rule which the policy breaks, of
-- these: it holds each required text, none of the forbidden texts, and none of the token prefixes.
pub verify-FirstFault :
    (policy : Text) (e : PolicyError)
    → (verify policy ≡ err e)
      ↔ FirstFault (policy_rules required_texts forbidden_texts token_prefixes policy) e
unfolding verify
verify-FirstFault policy e =
    Decides-FirstFault _ _
      (verify_with-Decides required_texts forbidden_texts token_prefixes policy) e
