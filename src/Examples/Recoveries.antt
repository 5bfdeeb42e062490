-- ===== src/Examples/Recoveries.antt =====
-- Recoveries at the identities of the conformance tests.
use contract_conformance_tes.Base.{◌≡◌, ◌↔◌, refl, none, some, ok, err, bytes, text_eq, [], arith}
use contract_conformance_tes.Generation.Types.{
  health_checked, activated, DeploymentJournalEntry, noop, resume_activation, roll_back_to,
  recovery_state_mismatch, missing_previous_generation, invalid_operation_id, non_monotonic_journal,
}
use contract_conformance_tes.Generation.Identity
use contract_conformance_tes.Generation.Identity.{is_canonical_sha256, identity_eq}
use contract_conformance_tes.Generation.Identity.Laws.{IsIdentity}
use contract_conformance_tes.Generation.Journal
use contract_conformance_tes.Generation.Journal.{refuses_id, recovery_action}
use contract_conformance_tes.Generation.Journal.Failure.{
  RecoveryFault, recovery_action-RecoveryFault,
}
use contract_conformance_tes.Generation.Journal.Recovery.{Recovers, recovery_action_iff}
use contract_conformance_tes.Generation.Journal.Restart.{
  IsNamed, recovery_action-IsNamed, recovery_action_settles, health_check_alternates,
  stale_entry_fails_closed, first_deployment_fails_closed,
}
use contract_conformance_tes.Generation.Journal.Validity.{IsJournal, validate-IsJournal}
use contract_conformance_tes.Examples.Fixtures.{
  identity, target, previous, journal, target-IsIdentity, newer-IsIdentity, deploy_42,
  activated-IsJournal, health_checked-IsJournal,
}

-- A crash after the activation rolls back to the last known good identity.
activated_target : recovery_action (journal activated) target ≡ ok (roll_back_to previous)
unfolding recovery_action Journal.validate Identity.validate is_canonical_sha256 refuses_id
    identity_eq text_eq
activated_target = refl

-- The error paths of the validation, at a blank, a spaced and a non-monotonic entry.
malformed_entries :
    (Journal.validate (record (journal health_checked) { operation_id = [] })
      ≡ err invalid_operation_id)
    × (Journal.validate (record (journal health_checked) { operation_id = bytes "deploy 42" })
        ≡ err invalid_operation_id)
    × (Journal.validate (record (journal activated) { previous_identity = some (identity 42 b'a') })
        ≡ err non_monotonic_journal)
unfolding Journal.validate Identity.validate is_canonical_sha256 refuses_id
malformed_entries = (refl, refl, refl)

recovery_action_iff_example :
    (recovery_action (journal activated) target ≡ ok (roll_back_to previous)) ↔ (
      IsJournal (journal activated)
      × IsIdentity target
      × Recovers activated (some previous) target target (roll_back_to previous))
recovery_action_iff_example = recovery_action_iff (journal activated) target (roll_back_to previous)

recovery_action-IsNamed_instance :
    IsNamed (journal activated) target × IsNamed (journal activated) previous
recovery_action-IsNamed_instance =
    recovery_action-IsNamed (journal activated) target (roll_back_to previous) activated_target

recovery_action_settles_example : recovery_action (journal activated) previous ≡ ok noop
recovery_action_settles_example =
    recovery_action_settles (journal activated) target (roll_back_to previous) (λ e. cc)
      activated_target

health_check_alternates_instance :
    (recovery_action (journal health_checked) target ≡ ok (roll_back_to previous))
    × (recovery_action (journal health_checked) previous ≡ ok (resume_activation target))
health_check_alternates_instance =
    health_check_alternates (journal health_checked) previous health_checked-IsJournal refl refl

stale_entry_fails_closed_example :
    recovery_action (journal activated) (identity 43 b'd')
    ≡ err (recovery_state_mismatch activated (identity 43 b'd') target (some previous))
stale_entry_fails_closed_example =
    stale_entry_fails_closed (journal activated) (identity 43 b'd') previous activated-IsJournal
      newer-IsIdentity refl (λ e. ground arith) (λ e. ground arith)

abbrev first_entry : DeploymentJournalEntry
first_entry = record (journal activated) { previous_identity = none }

first_deployment_fails_closed_instance :
    recovery_action first_entry target ≡ err (missing_previous_generation activated)
first_deployment_fails_closed_instance =
    first_deployment_fails_closed first_entry target
      (record { named = deploy_42; target = target-IsIdentity; previous = tt }) target-IsIdentity
      refl (λ e. cc)

validate-IsJournal_example : (Journal.validate first_entry ≡ ok tt) ↔ IsJournal first_entry
validate-IsJournal_example = validate-IsJournal first_entry

recovery_action-RecoveryFault_example :
    (recovery_action first_entry target ≡ err (missing_previous_generation activated))
    ↔ RecoveryFault first_entry target (missing_previous_generation activated)
recovery_action-RecoveryFault_example =
    recovery_action-RecoveryFault first_entry target (missing_previous_generation activated)
