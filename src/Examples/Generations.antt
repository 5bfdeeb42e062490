-- ===== src/Examples/Generations.antt =====
-- The tests of infra-recovery/src/generation.rs: each is the conjunction of its assertions, and
-- passes.
use contract_conformance_tes.Base.{ℕ, bytes, ◌≡◌, refl, none, some, ok, err, text_eq, repeat, arith}
use contract_conformance_tes.Generation.Types.{
  GenerationIdentity, OperationStage, DeploymentJournalEntry, GenerationState, staged,
  health_checked, activated, committed, resume_activation, roll_back_to, invalid_generation_digest,
  non_monotonic_journal,
}
use contract_conformance_tes.Generation.Identity
use contract_conformance_tes.Generation.Identity.{is_canonical_sha256, identity_eq}
use contract_conformance_tes.Generation.Journal
use contract_conformance_tes.Generation.Journal.{refuses_id, recovery_action}
use contract_conformance_tes.Generation.State
use contract_conformance_tes.Generation.State.{stage, activate_staged, commit}
use contract_conformance_tes.Generation.Suite.{Mismatch}
use contract_conformance_tes.Examples.Conformance.{other-IsIdentity, mismatch_at}

-- The helpers of these tests.
abbrev identity : ℕ → ℕ → GenerationIdentity
identity generation byte = record { generation = generation; generation_sha256 = repeat 64 byte }

abbrev journal : OperationStage → DeploymentJournalEntry
journal stage = record {
  operation_id = bytes "deploy-42";
  target_identity = identity 42 b'b';
  previous_identity = some (identity 41 b'a');
  stage = stage;
}

abbrev CrashAfterActivationPrefersLastKnownGood : Type 0
CrashAfterActivationPrefersLastKnownGood =
    recovery_action (journal activated) (identity 42 b'b') ≡ ok (roll_back_to (identity 41 b'a'))

abbrev WrongDigestFailsClosed : Type 0
WrongDigestFailsClosed = Mismatch (recovery_action (journal committed) (identity 42 b'c'))

abbrev RestartResumesFromPrevious : Type 0
RestartResumesFromPrevious =
    recovery_action (journal health_checked) (identity 41 b'a')
    ≡ ok (resume_activation (identity 42 b'b'))

abbrev InvalidIdentityFailsClosed : Type 0
InvalidIdentityFailsClosed =
    (Identity.new 41 (repeat 64 b'A') ≡ err (invalid_generation_digest 41))
    × (Journal.validate (record (journal staged) { previous_identity = some (identity 42 b'a') })
        ≡ err non_monotonic_journal)

abbrev StagedIdentityCanActivateAndCommit : Type 0
StagedIdentityCanActivateAndCommit =
    (state : GenerationState) × (State.new (identity 41 b'a') ≡ ok state)
    × (let (chosen, first) = stage state (identity 42 b'b') in
        let (running, second) = activate_staged chosen in
        (first ≡ ok tt)
        × (second ≡ ok tt)
        × (running.active_identity ≡ identity 42 b'b')
        × (running.previous_identity ≡ some (identity 41 b'a'))
        × ((commit running).active_identity ≡ identity 42 b'b')
        × ((commit running).previous_identity ≡ none))

crash_after_activation : CrashAfterActivationPrefersLastKnownGood
unfolding recovery_action Journal.validate Identity.validate is_canonical_sha256 refuses_id
    identity_eq text_eq
crash_after_activation = refl

wrong_digest : WrongDigestFailsClosed
wrong_digest = (
  identity 42 b'c',
  mismatch_at committed (identity 42 b'c') other-IsIdentity (λ e. ground arith) (λ e. ground arith),
)

health_checked_restart : RestartResumesFromPrevious
unfolding recovery_action Journal.validate Identity.validate is_canonical_sha256 refuses_id
    identity_eq text_eq
health_checked_restart = refl

invalid_identity : InvalidIdentityFailsClosed
unfolding Journal.validate Identity.validate is_canonical_sha256 refuses_id Identity.new
invalid_identity = (refl, refl)

staged_identity : StagedIdentityCanActivateAndCommit
unfolding State.new stage activate_staged commit Identity.validate is_canonical_sha256
staged_identity = (_, refl, (refl, refl, refl, refl, refl, refl))

-- The `expect` of the helper does not panic.
expected_target : Identity.new 42 (repeat 64 b'b') ≡ ok (identity 42 b'b')
unfolding Identity.new Identity.validate is_canonical_sha256
expected_target = refl

expected_previous : Identity.new 41 (repeat 64 b'a') ≡ ok (identity 41 b'a')
unfolding Identity.new Identity.validate is_canonical_sha256
expected_previous = refl
