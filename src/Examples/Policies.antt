-- ===== src/Examples/Policies.antt =====
-- The policy check on a short policy, and on one that leaks a token prefix.
use contract_conformance_tes.Base.{
  ◌≡◌, ◌↔◌, refl, err, FirstFault, ◌++◌, Text, bytes, starts_with, contains,
}
use contract_conformance_tes.Policy.{
  required_texts, forbidden_texts, token_prefixes, token_prefix, check_required, check_absent,
  verify_with, verify, main,
}
use contract_conformance_tes.Policy.Laws.{IsClean, main-IsClean}
use contract_conformance_tes.Policy.Faults.{policy_rules, verify-FirstFault}

abbrev short_policy : Text
short_policy =
    bytes "Credentials are runtime inputs, never repository documentation.\n"
    ++ (bytes "Do not place live or credential-shaped token literals here.\n"
        ++ (bytes
              "Treat any credential copied into source control, chat, an issue, or a transcript as exposed material.\n"
            ++ bytes "Revocation or rotation is a human-authorized operation.\n"))

abbrev leaky_policy : Text
leaky_policy = short_policy ++ bytes "export GH_TOKEN=ghp_0\n"

passes : main short_policy ≡ 0
unfolding main verify verify_with check_required check_absent contains starts_with
passes = refl

leaks : verify leaky_policy ≡ err (token_prefix (bytes "ghp_"))
unfolding verify verify_with check_required check_absent contains starts_with
leaks = refl

main-IsClean_example :
    (main short_policy ≡ 0) ↔ IsClean required_texts forbidden_texts token_prefixes short_policy
main-IsClean_example = main-IsClean short_policy

verify-FirstFault_example :
    (verify leaky_policy ≡ err (token_prefix (bytes "ghp_")))
    ↔ FirstFault
        (policy_rules required_texts forbidden_texts token_prefixes leaky_policy)
        (token_prefix (bytes "ghp_"))
verify-FirstFault_example = verify-FirstFault leaky_policy (token_prefix (bytes "ghp_"))

-- The rules before the one on this prefix hold, and it does not.
leaky_fault :
    FirstFault
      (policy_rules required_texts forbidden_texts token_prefixes leaky_policy)
      (token_prefix (bytes "ghp_"))
leaky_fault = (verify-FirstFault leaky_policy (token_prefix (bytes "ghp_"))).0 leaks
