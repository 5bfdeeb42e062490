-- ===== src/Repository/Laws.antt =====
-- The check succeeds exactly for a repository that follows the rules, and otherwise ends with the
-- error of the first that it breaks.
use contract_conformance_tes.Base.{
  ◌≡◌, ◌↔◌, inl, inr, AllHold, FirstFault, Decides, Decides-then, Decides-reject_if,
  Decides-FirstFault, Decides-AllHold, Result-cases, err, exit_status, bytes, arith,
}
use contract_conformance_tes.Repository.{Checkout, RepositoryError, required, phrases, verify, main}
use contract_conformance_tes.Repository.Paths.{nothing_missing, modules_iff}
use contract_conformance_tes.Repository.Rules.{rules_with, repository_rules}
use contract_conformance_tes.Repository.Parts.{
  unmet_iff, entries-Decides, phrases-Decides, workflow-Decides, metadata-Decides, reading-Decides,
  metadata_of-Decides,
}

module _ (root : Checkout) where
  verify-Decides : Decides (verify root) (repository_rules root)
  unfolding verify
  verify-Decides = metadata_of-Decides root.metadata _ (rules_with root) (λ metadata.
      Decides-then (Decides-reject_if _ _ _ (unmet_iff _ _ (nothing_missing root.exists required)))
        (Decides-then
          (Decides-reject_if _ _ _ (modules_iff (root.is_dir (bytes "tests")) root.modules))
          (Decides-then (entries-Decides root.entries) (
            reading-Decides _ _ _ _ (λ agents. Decides-then (phrases-Decides agents phrases) (
              reading-Decides _ _ _ _ (λ workflow.
                Decides-then (workflow-Decides workflow) (metadata-Decides metadata))))))))

  -- `verify` ends with an error, a message or an exception, exactly if it is that of the first rule
  -- which the repository breaks, of these: project.json is read; the required paths exist; there is
  -- a test module; each file that is looked at can be read and, if it is text, has no conflict
  -- marker at the start of a line and nothing in the form of a credential; AGENTS.md has each of
  -- the phrases; the workflow has the permission and no `pull_request_target`, and at least two
  -- actions, all pinned to a commit; project.json is a mapping and names the operation, an
  -- organization that ends in "-test", a repository and a suite.
  pub FirstFault-iff :
      (e : RepositoryError) → (verify root ≡ err e) ↔ FirstFault (repository_rules root) e
  FirstFault-iff = Decides-FirstFault _ _ verify-Decides

  -- The script exits with status 0 exactly if the repository follows all of the rules that
  -- are listed for `FirstFault-iff`.
  pub main-AllHold : (main root ≡ 0) ↔ AllHold (repository_rules root)
  unfolding main
  main-AllHold =
      let (passes, holds) = Decides-AllHold verify-Decides in
      elim (Result-cases (verify root)) [
        | inl (done, passed) ↦ ((λ h. passes passed), λ c. rw (passed, exit_status))
        | inr (e, refused) ↦ (
          (λ h. absurd (omega (arith, rw (refused, exit_status) at h))),
          λ c. rw (holds c, exit_status),
        )
      ]
