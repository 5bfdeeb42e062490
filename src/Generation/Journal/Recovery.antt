-- ===== src/Generation/Journal/Recovery.antt =====
-- The recovery table: which action a journal entry gives at which active identity.
use contract_conformance_tes.Base.{
  ◌≡◌, ◌↔◌, ◌⊎◌, inl, inr, refl, Bool-cases, Option-cases, Option, some, ok, arith,
}
use contract_conformance_tes.Generation.Types.{
  GenerationIdentity, OperationStage, prepared, validated, staged, health_checked, activated,
  draining, committed, rolling_back, rolled_back, DeploymentJournalEntry, RecoveryAction, noop,
  resume_activation, roll_back_to,
}
use contract_conformance_tes.Generation.Identity.{identity_eq}
use contract_conformance_tes.Generation.Identity.Laws.{IsIdentity, identity_eq_iff}
use contract_conformance_tes.Generation.Identity.Laws
use contract_conformance_tes.Generation.Journal.Validity.{IsJournal, Precedes}
use contract_conformance_tes.Generation.Journal.Validity
use contract_conformance_tes.Generation.Journal.{
  previous_for_recovery, expect_previous_or_fail, restore_previous, recover_at, recovery_action,
}

-- The stages before the health check, and those at which the target has been activated.
pub data IsPending : OperationStage → Type 0 where
  at_prepared : IsPending prepared
  at_validated : IsPending validated
  at_staged : IsPending staged

pub data IsActivated : OperationStage → Type 0 where
  at_activated : IsActivated activated
  at_draining : IsActivated draining
  at_rolling_back : IsActivated rolling_back

-- The table, by what the journal and the durable state say. `p` is the journal's previous
-- identity, `a` the identity that is active.
pub data Recovers (stage : OperationStage) (previous : Option GenerationIdentity)
    (target a : GenerationIdentity) (action : RecoveryAction) : Type 0 where
  not_started :
      IsPending stage → previous ≡ some a → action ≡ noop → Recovers stage previous target a action
  resumed :
      stage ≡ health_checked
      → previous ≡ some a
      → action ≡ resume_activation target
      → Recovers stage previous target a action
  restored :
      (p : GenerationIdentity)
      → (stage ≡ health_checked) ⊎ IsActivated stage
      → previous ≡ some p
      → a ≡ target
      → action ≡ roll_back_to p
      → Recovers stage previous target a action
  already_restored :
      (stage ≡ rolled_back) ⊎ IsActivated stage
      → previous ≡ some a
      → action ≡ noop
      → Recovers stage previous target a action
  finished :
      stage ≡ committed → a ≡ target → action ≡ noop → Recovers stage previous target a action

-- What each arm of the `match` has established when it succeeds.
module _ {s : OperationStage} (e : DeploymentJournalEntry) (a : GenerationIdentity)
    (action : RecoveryAction) where
  expect_previous_sound :
      IsPending s
      → expect_previous_or_fail e a noop ≡ ok action
      → Recovers s e.previous_identity e.target_identity a action
  unfolding expect_previous_or_fail previous_for_recovery
  expect_previous_sound at h = elim (Option-cases e.previous_identity) [
    | inl missing ↦ absurd (ground arith)
    | inr (p, found) ↦
        not_started at (ground (arith, identity_eq_iff a p)) (ground (arith, identity_eq_iff a p))
  ]

  restore_previous_sound :
      IsActivated s
      → restore_previous e a ≡ ok action
      → Recovers s e.previous_identity e.target_identity a action
  unfolding restore_previous previous_for_recovery
  restore_previous_sound at h = elim (Option-cases e.previous_identity) [
    | inl missing ↦ absurd (ground arith)
    | inr (p, found) ↦ elim (Bool-cases (identity_eq a e.target_identity)) [
      | inl same ↦
          restored p (inr at) found ((identity_eq_iff a e.target_identity).0 same) (ground arith)
      | inr other ↦
          already_restored (inr at) (ground (arith, identity_eq_iff a p))
            (ground (arith, identity_eq_iff a p))
    ]
  ]

pub recover_at_sound :
    (s : OperationStage) (e : DeploymentJournalEntry) (a : GenerationIdentity)
    (action : RecoveryAction)
    → recover_at s e a ≡ ok action
    → Recovers s e.previous_identity e.target_identity a action
unfolding recover_at
recover_at_sound prepared e a action h = expect_previous_sound e a action at_prepared h
recover_at_sound validated e a action h = expect_previous_sound e a action at_validated h
recover_at_sound staged e a action h = expect_previous_sound e a action at_staged h
recover_at_sound health_checked e a action h = elim (Option-cases e.previous_identity) [
  | inl missing ↦ absurd (ground arith)
  | inr (p, found) ↦ elim (Bool-cases (identity_eq a p)) [
    | inl same ↦ resumed refl (ground (arith, identity_eq_iff a p)) (ground arith)
    | inr other ↦
        restored p (inl refl) found (ground (arith, identity_eq_iff a e.target_identity))
          (ground arith)
  ]
]
recover_at_sound activated e a action h = restore_previous_sound e a action at_activated h
recover_at_sound draining e a action h = restore_previous_sound e a action at_draining h
recover_at_sound rolling_back e a action h = restore_previous_sound e a action at_rolling_back h
recover_at_sound committed e a action h =
    finished refl (ground (arith, identity_eq_iff a e.target_identity)) (ground arith)
recover_at_sound rolled_back e a action h = elim (Option-cases e.previous_identity) [
  | inl missing ↦ absurd (ground arith)
  | inr (p, found) ↦
      already_restored (inl refl) (ground (arith, identity_eq_iff a p)) (ground arith)
]

recover_at-IsActivated :
    {s : OperationStage} (e : DeploymentJournalEntry) (a : GenerationIdentity)
    → IsActivated s
    → recover_at s e a ≡ restore_previous e a
unfolding recover_at
recover_at-IsActivated e a at_activated = refl
recover_at-IsActivated e a at_draining = refl
recover_at-IsActivated e a at_rolling_back = refl

module _ (e : DeploymentJournalEntry) (a : GenerationIdentity) (action : RecoveryAction)
    (valid : Precedes e.previous_identity e.target_identity) where
  pub recover_at_complete :
      (s : OperationStage)
      → Recovers s e.previous_identity e.target_identity a action
      → recover_at s e a ≡ ok action
  unfolding recover_at
  recover_at_complete s (not_started at_prepared found same) = ground (arith, identity_eq_iff a a)
  recover_at_complete s (not_started at_validated found same) = ground (arith, identity_eq_iff a a)
  recover_at_complete s (not_started at_staged found same) = ground (arith, identity_eq_iff a a)
  recover_at_complete s (resumed at found same) = ground (arith, identity_eq_iff a a)
  recover_at_complete s (restored p (inl at) found active same) =
      ground (arith, identity_eq_iff a p, identity_eq_iff a e.target_identity)
  recover_at_complete s (restored p (inr at) found active same) =
      rw (recover_at-IsActivated e a at) (
        unfold restore_previous previous_for_recovery in
        ground (arith, identity_eq_iff a p, identity_eq_iff a e.target_identity))
  recover_at_complete s (already_restored (inl at) found same) = ground (arith, identity_eq_iff a a)
  recover_at_complete s (already_restored (inr at) found same) =
      rw (recover_at-IsActivated e a at) (
        unfold restore_previous previous_for_recovery in
        ground (arith, identity_eq_iff a a, identity_eq_iff a e.target_identity))
  recover_at_complete s (finished at active same) =
      ground (arith, identity_eq_iff a e.target_identity)

recover_at_iff :
    (e : DeploymentJournalEntry) (a : GenerationIdentity) (action : RecoveryAction)
    → Precedes e.previous_identity e.target_identity
    → (recover_at e.stage e a ≡ ok action)
      ↔ Recovers e.stage e.previous_identity e.target_identity a action
recover_at_iff e a action valid =
    (recover_at_sound e.stage e a action, recover_at_complete e a action valid e.stage)

-- `recovery_action` returns an action exactly when the entry and the active identity are well
-- formed and the table allows that action.
pub recovery_action_iff :
    (e : DeploymentJournalEntry) (a : GenerationIdentity) (action : RecoveryAction)
    → (recovery_action e a ≡ ok action) ↔ (
        IsJournal e
        × IsIdentity a
        × Recovers e.stage e.previous_identity e.target_identity a action)
unfolding recovery_action
recovery_action_iff e a action = (forward, backward)
  where
    forward :
        recovery_action e a ≡ ok action
        → IsJournal e
          × IsIdentity a
          × Recovers e.stage e.previous_identity e.target_identity a action
    forward h =
        let journal = (Validity.validate-IsJournal e).0 (ground arith) in
        let active = (Laws.validate-IsIdentity a).0 (ground arith) in
        (journal, active, (recover_at_iff e a action journal.previous).0 (ground arith))

    backward :
        IsJournal e × IsIdentity a × Recovers e.stage e.previous_identity e.target_identity a action
        → recovery_action e a ≡ ok action
    backward (journal, active, allowed) =
        rw ((Validity.validate-IsJournal e).1 journal, (Laws.validate-IsIdentity a).1 active)
          ((recover_at_iff e a action journal.previous).1 allowed)
