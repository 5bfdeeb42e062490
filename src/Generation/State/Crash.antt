-- ===== src/Generation/State/Crash.antt =====
-- A deployment that crashes: where `GenerationState` has got to when the journal is at a stage,
-- and what `recovery_action` makes of it.
use contract_conformance_tes.Base.{◌≡◌, ◌⊎◌, refl, some, ok, arith, Text}
use contract_conformance_tes.Generation.Types.{
  GenerationIdentity, GenerationState, DeploymentJournalEntry, OperationStage, health_checked,
  committed, rolled_back, RecoveryAction, noop, resume_activation, roll_back_to,
}
use contract_conformance_tes.Generation.Journal.Validity.{IsOperationId, IsJournal}
use contract_conformance_tes.Generation.Journal.Recovery.{
  IsPending, IsActivated, Recovers, recovery_action_iff,
}
use contract_conformance_tes.Generation.Journal.{recovery_action}
use contract_conformance_tes.Generation.State.Invariant.{
  Inv, Follows, activate_staged-Inv, commit-Inv, roll_back-Inv,
}
use contract_conformance_tes.Generation.State.{activate_staged, commit, roll_back}

-- The states of a deployment that starts at `s`: activated, and rolled back.
abbrev pub running : GenerationState → GenerationState
running s = (activate_staged s).0

abbrev pub restored_of : GenerationState → GenerationState
restored_of s = (roll_back (running s)).0

-- The entry that the deployment of `target` writes at a stage.
abbrev pub deployment_entry :
    GenerationState → GenerationIdentity → Text → OperationStage → DeploymentJournalEntry
deployment_entry s target id at = record {
  operation_id = id;
  target_identity = target;
  previous_identity = some s.active_identity;
  stage = at;
}

-- A crash of the deployment that starts at `s`: the stage in the journal, the state at that
-- time, and the action that brings the deployment to a safe end. Around the health check and
-- while rolling back, the state may be a step ahead of the journal.
pub data Crashes (s : GenerationState) (at : OperationStage) (now : GenerationState)
    (action : RecoveryAction) : Type 0 where
  before_activation : IsPending at → now ≡ s → action ≡ noop → Crashes s at now action
  at_health_check :
      at ≡ health_checked
      → now ≡ s
      → action ≡ resume_activation (running s).active_identity
      → Crashes s at now action
  after_activation :
      (at ≡ health_checked) ⊎ IsActivated at
      → now ≡ running s
      → action ≡ roll_back_to (restored_of s).active_identity
      → Crashes s at now action
  after_roll_back :
      (at ≡ rolled_back) ⊎ IsActivated at
      → now ≡ restored_of s
      → action ≡ noop
      → Crashes s at now action
  after_commit : at ≡ committed → now ≡ commit (running s) → action ≡ noop → Crashes s at now action

module _ (s : GenerationState) (target : GenerationIdentity) (id : Text) (inv : Inv s)
    (found : s.staged_identity ≡ some target) (named : IsOperationId id) where
  running-active : (running s).active_identity ≡ target
  unfolding activate_staged
  running-active = ground arith

  restored-active : (restored_of s).active_identity ≡ s.active_identity
  unfolding activate_staged roll_back
  restored-active = ground arith

  committed-active : (commit (running s)).active_identity ≡ target
  unfolding activate_staged commit
  committed-active = ground arith

  deployment_entry-IsJournal : (at : OperationStage) → IsJournal (deployment_entry s target id at)
  deployment_entry-IsJournal at =
      let (valid, newer) : Follows (some target) s.active_identity = rw found at inv.newer in
      record { named = named; target = valid; previous = (inv.active, newer) }

  Crashes-Recovers :
      (at : OperationStage) (now : GenerationState) (action : RecoveryAction)
      → Crashes s at now action
      → Recovers at (some s.active_identity) target now.active_identity action
  Crashes-Recovers at now action (before_activation pending same act) =
      rw same (Recovers.not_started pending refl act)
  Crashes-Recovers at now action (at_health_check here same act) =
      let exact : action ≡ resume_activation target = rw running-active at act in
      rw same (Recovers.resumed here refl exact)
  Crashes-Recovers at now action (after_activation live same act) =
      let exact : action ≡ roll_back_to s.active_identity = rw restored-active at act in
      rw (same, running-active) (Recovers.restored s.active_identity live refl refl exact)
  Crashes-Recovers at now action (after_roll_back live same act) =
      rw (same, restored-active) (Recovers.already_restored live refl act)
  Crashes-Recovers at now action (after_commit here same act) =
      rw (same, committed-active) (Recovers.finished here refl act)

Crashes-Inv :
    (s : GenerationState) (at : OperationStage) (now : GenerationState) (action : RecoveryAction)
    → Inv s
    → Crashes s at now action
    → Inv now
Crashes-Inv s at now action inv (before_activation pending same act) = rw same inv
Crashes-Inv s at now action inv (at_health_check here same act) = rw same inv
Crashes-Inv s at now action inv (after_activation live same act) =
    rw same (activate_staged-Inv s inv)
Crashes-Inv s at now action inv (after_roll_back live same act) =
    rw same (roll_back-Inv (running s) (activate_staged-Inv s inv))
Crashes-Inv s at now action inv (after_commit here same act) =
    rw same (commit-Inv (running s) (activate_staged-Inv s inv))

-- A deployment that started at a state with the invariant and a staged identity, and crashed:
-- `recovery_action` on its journal entry, at the identity then active, succeeds. Before the
-- activation it keeps the old identity or resumes the activation of what `activate_staged` makes
-- active, after it it goes back to what `roll_back` makes active, and at the end it does nothing.
pub recovery_action-Crashes :
    (s : GenerationState) (target : GenerationIdentity) (id : Text) (at : OperationStage)
    (now : GenerationState) (action : RecoveryAction)
    → Inv s
    → s.staged_identity ≡ some target
    → IsOperationId id
    → Crashes s at now action
    → recovery_action (deployment_entry s target id at) now.active_identity ≡ ok action
recovery_action-Crashes s target id at now action inv found named crash =
    (recovery_action_iff (deployment_entry s target id at) now.active_identity action).1 (
      deployment_entry-IsJournal s target id inv found named at,
      (Crashes-Inv s at now action inv crash).active,
      Crashes-Recovers s target id inv found named at now action crash,
    )
