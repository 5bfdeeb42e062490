-- ===== src/Generation/State/Deployment.antt =====
-- Sequences of calls on a `GenerationState`: a deployment that is committed, one that is rolled
-- back, and how the journal's recovery agrees with `roll_back`.
use contract_conformance_tes.Base.{
  ◌<◌, ◌≡◌, ◌≢◌, ◌↔◌, ◌⊎◌, inl, inr, refl, none, some, ok, err, arith, Option-cases, Text,
}
use contract_conformance_tes.Generation.Types.{
  GenerationIdentity, GenerationState, DeploymentJournalEntry, OperationStage, roll_back_to,
  missing_rollback_generation,
}
use contract_conformance_tes.Generation.Identity.Laws.{IsIdentity}
use contract_conformance_tes.Generation.Identity.Laws
use contract_conformance_tes.Generation.Journal.Validity.{IsOperationId}
use contract_conformance_tes.Generation.Journal.Recovery.{
  IsActivated, restored, recovery_action_iff,
}
use contract_conformance_tes.Generation.Journal.{recovery_action}
use contract_conformance_tes.Generation.State.Invariant.{Inv}
use contract_conformance_tes.Generation.State.{stage, activate_staged, commit, roll_back}

stage-eq :
    (s : GenerationState) (i : GenerationIdentity)
    → IsIdentity i
    → s.active_identity.generation < i.generation
    → stage s i ≡ (record s { desired_identity = i; staged_identity = some i }, ok tt)
unfolding stage
stage-eq s i valid newer = ground (arith, Laws.validate-IsIdentity i)

-- Staging succeeds exactly for a well-formed identity that is newer than the active one,
-- activation exactly when something is staged, and a rollback exactly when there is a previous
-- identity.
pub call_succeeds_iff :
    (s : GenerationState) (i : GenerationIdentity)
    → (((stage s i).1 ≡ ok tt) ↔ (IsIdentity i × (s.active_identity.generation < i.generation)))
      × (((activate_staged s).1 ≡ ok tt) ↔ (s.staged_identity ≢ none))
      × (((roll_back s).1 ≡ ok tt) ↔ (s.previous_identity ≢ none))
unfolding stage activate_staged roll_back
call_succeeds_iff s i = (ground (arith, Laws.validate-IsIdentity i), ground arith, ground arith)

-- Staging a newer well-formed identity, activating and committing it succeeds at each call, and
-- ends with that identity active and desired, nothing staged and nothing to roll back to.
pub deploy_and_commit :
    (s : GenerationState) (i : GenerationIdentity)
    → IsIdentity i
    → s.active_identity.generation < i.generation
    → let staged = stage s i in
      let activated = activate_staged staged.0 in
      (staged.1 ≡ ok tt)
      × (activated.1 ≡ ok tt)
      × (commit activated.0 ≡ record {
        desired_identity = i;
        staged_identity = none;
        active_identity = i;
        previous_identity = none;
      })
unfolding activate_staged commit
deploy_and_commit s i valid newer = rw (stage-eq s i valid newer) (refl, refl, refl)

-- Staging a newer well-formed identity, activating it and rolling back succeeds at each call.
-- It restores the identity that was active, which is then desired too, with nothing staged; a
-- second rollback fails.
pub deploy_and_roll_back :
    (s : GenerationState) (i : GenerationIdentity)
    → IsIdentity i
    → s.active_identity.generation < i.generation
    → let restored = roll_back (activate_staged (stage s i).0).0 in
      (restored ≡ (
        record {
          desired_identity = s.active_identity;
          staged_identity = none;
          active_identity = s.active_identity;
          previous_identity = none;
        },
        ok tt,
      ))
      × (roll_back restored.0 ≡ (restored.0, err missing_rollback_generation))
unfolding activate_staged roll_back
deploy_and_roll_back s i valid newer = rw (stage-eq s i valid newer) (refl, refl)

-- In a state that satisfies the invariant, staging and committing leave the active identity
-- alone, an activation leaves the state alone or makes a newer generation active, and a rollback
-- leaves the state alone or makes an older one active.
pub active_generation_moves :
    (s : GenerationState) (i : GenerationIdentity)
    → Inv s
    → ((stage s i).0.active_identity ≡ s.active_identity)
      × ((commit s).active_identity ≡ s.active_identity)
      × (((activate_staged s).0 ≡ s)
          ⊎ (s.active_identity.generation < (activate_staged s).0.active_identity.generation))
      × (((roll_back s).0 ≡ s)
          ⊎ ((roll_back s).0.active_identity.generation < s.active_identity.generation))
unfolding stage activate_staged commit roll_back
active_generation_moves s i inv = ground arith

-- If a state satisfies the invariant and has a staged identity, committing before activating it
-- leaves the desired identity at the generation that the activation replaces: the identity that
-- is then active is the staged one, and it is not the desired one.
pub commit_then_activate_drifts :
    (s : GenerationState) (i : GenerationIdentity)
    → Inv s
    → s.staged_identity ≡ some i
    → let t = (activate_staged (commit s)).0 in
      (t.active_identity ≡ i)
      × (t.desired_identity ≡ s.active_identity)
      × (t.desired_identity ≢ t.active_identity)
unfolding activate_staged commit
commit_then_activate_drifts s i inv found = ground (arith, inv.newer)

-- The journal entry of the deployment that made the active identity of a state active.
abbrev pub entry_of : GenerationState → Text → OperationStage → DeploymentJournalEntry
entry_of s id at = record {
  operation_id = id;
  target_identity = s.active_identity;
  previous_identity = s.previous_identity;
  stage = at;
}

-- For a state that satisfies the invariant and has a previous identity, a crash after the
-- activation recovers to the very identity that `roll_back` makes active, if the journal names
-- the state's active and previous identities under a well-formed operation id.
pub recovery_agrees_with_roll_back :
    (s : GenerationState) (id : Text) (at : OperationStage)
    → Inv s
    → s.previous_identity ≢ none
    → IsOperationId id
    → IsActivated at
    → recovery_action (entry_of s id at) s.active_identity
      ≡ ok (roll_back_to (roll_back s).0.active_identity)
unfolding roll_back
recovery_agrees_with_roll_back s id at inv ne named live = elim (Option-cases s.previous_identity) [
  | inl missing ↦ absurd (ne missing)
  | inr (p, found) ↦ (recovery_action_iff (entry_of s id at) s.active_identity _).1 (
    record { named = named; target = inv.active; previous = inv.older },
    inv.active,
    restored p (inr live) found refl (ground arith),
  )
]
