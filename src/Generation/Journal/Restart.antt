-- ===== src/Generation/Journal/Restart.antt =====
-- What a restart may do: which identities it touches, when it fails closed, and whether carrying
-- out the action settles the recovery.
use contract_conformance_tes.Base.{◌≡◌, ◌≢◌, ◌⊎◌, inl, inr, refl, subst, none, some, ok, err, arith}
use contract_conformance_tes.Generation.Types.{
  GenerationIdentity, OperationStage, prepared, health_checked, committed, DeploymentJournalEntry,
  RecoveryAction, noop, resume_activation, roll_back_to, missing_previous_generation,
  recovery_state_mismatch,
}
use contract_conformance_tes.Generation.Identity.{to_active, from_active}
use contract_conformance_tes.Generation.Identity.Laws.{IsIdentity, identity_eq_iff}
use contract_conformance_tes.Generation.Identity.Laws
use contract_conformance_tes.Generation.Journal.Validity.{IsJournal, Precedes}
use contract_conformance_tes.Generation.Journal.Validity
use contract_conformance_tes.Generation.Journal.Recovery.{
  Recovers, not_started, resumed, restored, already_restored, finished, recovery_action_iff,
}
use contract_conformance_tes.Generation.Journal.{
  recover_at, recovery_action, recovery_action_from_runtime_identity,
}

-- The identity that is active once an action has been carried out.
abbrev pub installed : RecoveryAction → GenerationIdentity → GenerationIdentity
installed noop a = a
installed (resume_activation i) a = i
installed (roll_back_to i) a = i

-- The identities that an entry names.
abbrev pub IsNamed : DeploymentJournalEntry → GenerationIdentity → Type 0
IsNamed e a = (a ≡ e.target_identity) ⊎ (e.previous_identity ≡ some a)

IsNamed-IsIdentity :
    (e : DeploymentJournalEntry) (a : GenerationIdentity) → IsJournal e → IsNamed e a → IsIdentity a
IsNamed-IsIdentity e a valid (inl same) = rw same valid.target
IsNamed-IsIdentity e a valid (inr found) =
    let fits : Precedes (some a) e.target_identity =
      subst (λ p. Precedes p e.target_identity) found valid.previous in
    fits.0

module _ (e : DeploymentJournalEntry) (a : GenerationIdentity) (action : RecoveryAction) where
  Recovers-IsNamed :
      Recovers e.stage e.previous_identity e.target_identity a action
      → IsNamed e a × IsNamed e (installed action a)
  Recovers-IsNamed (not_started at found same) = ground arith
  Recovers-IsNamed (resumed at found same) = ground arith
  Recovers-IsNamed (restored p at found active same) = ground arith
  Recovers-IsNamed (already_restored at found same) = ground arith
  Recovers-IsNamed (finished at active same) = ground arith

  -- If recovery returns an action, the identity that is active, and the one that the action
  -- makes active, are each the entry's whole target identity or its whole previous identity.
  pub recovery_action-IsNamed :
      recovery_action e a ≡ ok action → IsNamed e a × IsNamed e (installed action a)
  recovery_action-IsNamed h = Recovers-IsNamed ((recovery_action_iff e a action).0 h).2

  Recovers-settles :
      e.stage ≢ health_checked
      → Recovers e.stage e.previous_identity e.target_identity a action
      → Recovers e.stage e.previous_identity e.target_identity (installed action a) noop
  Recovers-settles ne (not_started at found same) = rw same (not_started at found refl)
  Recovers-settles ne (resumed at found same) = absurd (ne at)
  Recovers-settles ne (restored p (inl at) found active same) = absurd (ne at)
  Recovers-settles ne (restored p (inr at) found active same) =
      rw same (already_restored (inr at) found refl)
  Recovers-settles ne (already_restored at found same) = rw same (already_restored at found refl)
  Recovers-settles ne (finished at active same) = rw same (finished at active refl)

  -- At every stage but the health check, carrying out the action settles the recovery: the same
  -- entry, read again at the identity then active, asks for nothing more.
  pub recovery_action_settles :
      e.stage ≢ health_checked
      → recovery_action e a ≡ ok action
      → recovery_action e (installed action a) ≡ ok noop
  recovery_action_settles ne h =
      let (valid, _, allowed) = (recovery_action_iff e a action).0 h in
      let named = (Recovers-IsNamed allowed).1 in
      (recovery_action_iff e (installed action a) noop).1
        (valid, IsNamed-IsIdentity e (installed action a) valid named, Recovers-settles ne allowed)

-- At the health check the entry alone does not settle: from the target it rolls back to the
-- previous identity, and from the previous identity it resumes the activation of the target.
pub health_check_alternates :
    (e : DeploymentJournalEntry) (p : GenerationIdentity)
    → IsJournal e
    → e.stage ≡ health_checked
    → e.previous_identity ≡ some p
    → (recovery_action e e.target_identity ≡ ok (roll_back_to p))
      × (recovery_action e p ≡ ok (resume_activation e.target_identity))
health_check_alternates e p valid at found = (
  (recovery_action_iff e e.target_identity (roll_back_to p)).1
      (valid, valid.target, restored p (inl at) found refl refl),
  (recovery_action_iff e p (resume_activation e.target_identity)).1
      (valid, IsNamed-IsIdentity e p valid (inr found), resumed at found refl),
)

recover_at_stale :
    (s : OperationStage) (e : DeploymentJournalEntry) (a : GenerationIdentity)
    {p : GenerationIdentity}
    → e.previous_identity ≡ some p
    → a ≢ e.target_identity
    → a ≢ p
    → recover_at s e a
      ≡ err (recovery_state_mismatch e.stage a e.target_identity e.previous_identity)
unfolding recover_at
recover_at_stale prepared e a {p} found n m =
    ground (arith, identity_eq_iff a p, identity_eq_iff a e.target_identity)
recover_at_stale _ e a {p} found n m =
    ground (arith, identity_eq_iff a p, identity_eq_iff a e.target_identity)

-- A well-formed entry with a previous identity refuses, at every stage, an active identity that
-- is neither its target nor its previous identity, also where only the digest differs: the error
-- is a mismatch that carries the stage and the three identities.
pub stale_entry_fails_closed :
    (e : DeploymentJournalEntry) (a p : GenerationIdentity)
    → IsJournal e
    → IsIdentity a
    → e.previous_identity ≡ some p
    → a ≢ e.target_identity
    → a ≢ p
    → recovery_action e a
      ≡ err (recovery_state_mismatch e.stage a e.target_identity e.previous_identity)
unfolding recovery_action
stale_entry_fails_closed e a p valid active found n m =
    rw ((Validity.validate-IsJournal e).1 valid, (Laws.validate-IsIdentity a).1 active)
      (recover_at_stale e.stage e a found n m)

recover_at_missing :
    (s : OperationStage) (e : DeploymentJournalEntry) (a : GenerationIdentity)
    → e.previous_identity ≡ none
    → s ≢ committed
    → recover_at s e a ≡ err (missing_previous_generation e.stage)
unfolding recover_at
recover_at_missing committed e a found n = absurd (n refl)
recover_at_missing _ e a found n = ground arith

-- A well-formed entry with no previous identity recovers at no stage but `committed`: the error
-- names the stage, whatever identity is active.
pub first_deployment_fails_closed :
    (e : DeploymentJournalEntry) (a : GenerationIdentity)
    → IsJournal e
    → IsIdentity a
    → e.previous_identity ≡ none
    → e.stage ≢ committed
    → recovery_action e a ≡ err (missing_previous_generation e.stage)
unfolding recovery_action
first_deployment_fails_closed e a valid active found n =
    rw ((Validity.validate-IsJournal e).1 valid, (Laws.validate-IsIdentity a).1 active)
      (recover_at_missing e.stage e a found n)

-- The entry point for the runtime's identity type decides as `recovery_action` does on the
-- identity that was converted.
pub runtime_identity_agrees :
    (e : DeploymentJournalEntry) (a : GenerationIdentity)
    → recovery_action_from_runtime_identity e (to_active a) ≡ recovery_action e a
unfolding recovery_action_from_runtime_identity to_active from_active
runtime_identity_agrees e a = refl
