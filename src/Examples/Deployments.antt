-- ===== src/Examples/Deployments.antt =====
-- Deployments at the identities of the conformance tests.
use contract_conformance_tes.Base.{
  ◌<◌, ◌≡◌, ◌≢◌, ◌↔◌, ◌⊎◌, inl, inr, refl, none, some, ok, err, bytes, arith,
}
use contract_conformance_tes.Generation.Types.{
  GenerationState, activated, draining, roll_back_to, missing_rollback_generation,
}
use contract_conformance_tes.Generation.Identity
use contract_conformance_tes.Generation.Identity.{is_canonical_sha256, identity_eq}
use contract_conformance_tes.Generation.Identity.Laws.{IsIdentity}
use contract_conformance_tes.Generation.Journal.{recovery_action}
use contract_conformance_tes.Generation.Journal.Recovery.{at_activated, at_draining}
use contract_conformance_tes.Generation.State
use contract_conformance_tes.Generation.State.{stage, activate_staged, commit, roll_back}
use contract_conformance_tes.Generation.State.Crash.{
  Crashes, deployment_entry, recovery_action-Crashes,
}
use contract_conformance_tes.Generation.State.Deployment.{
  call_succeeds_iff, deploy_and_commit, deploy_and_roll_back, active_generation_moves,
  commit_then_activate_drifts, entry_of, recovery_agrees_with_roll_back,
}
use contract_conformance_tes.Generation.State.Invariant.{
  Inv, Reachable, created, staged, Reachable-Inv, failed_call_unchanged,
}
use contract_conformance_tes.Examples.Fixtures.{
  identity, target, previous, target-IsIdentity, previous-IsIdentity, deploy_42,
}

-- A state with the previous identity active, nothing staged; and with the target staged.
abbrev idle : GenerationState
idle = record {
  desired_identity = previous;
  staged_identity = none;
  active_identity = previous;
  previous_identity = none;
}

abbrev ready : GenerationState
ready = record idle { desired_identity = target; staged_identity = some target }

abbrev running : GenerationState
running = record {
  desired_identity = target;
  staged_identity = none;
  active_identity = target;
  previous_identity = some previous;
}

idle-Reachable : Reachable idle
unfolding State.new Identity.validate is_canonical_sha256
idle-Reachable = created previous refl

ready-Reachable : Reachable ready
unfolding stage Identity.validate is_canonical_sha256
ready-Reachable = staged target idle-Reachable refl

Reachable-Inv_example : Inv ready
Reachable-Inv_example = Reachable-Inv ready ready-Reachable

ready-Inv : Inv ready
ready-Inv = record {
  active = previous-IsIdentity;
  newer = (target-IsIdentity, omega arith);
  older = tt;
  tracked = inr (inl refl);
}

running-Inv : Inv running
running-Inv = record {
  active = target-IsIdentity;
  newer = tt;
  older = (previous-IsIdentity, omega arith);
  tracked = inl refl;
}

failed_call_unchanged_instance :
    (((stage idle previous).1 ≡ ok tt) ⊎ ((stage idle previous).0 ≡ idle))
    × (((activate_staged idle).1 ≡ ok tt) ⊎ ((activate_staged idle).0 ≡ idle))
    × (((roll_back idle).1 ≡ ok tt) ⊎ ((roll_back idle).0 ≡ idle))
failed_call_unchanged_instance = failed_call_unchanged idle previous

call_succeeds_iff_instance :
    (((stage idle target).1 ≡ ok tt) ↔ (IsIdentity target × (41 < 42)))
    × (((activate_staged idle).1 ≡ ok tt) ↔ (idle.staged_identity ≢ none))
    × (((roll_back idle).1 ≡ ok tt) ↔ (idle.previous_identity ≢ none))
call_succeeds_iff_instance = call_succeeds_iff idle target

deploy_and_commit_instance :
    ((stage idle target).1 ≡ ok tt)
    × ((activate_staged (stage idle target).0).1 ≡ ok tt)
    × (commit (activate_staged (stage idle target).0).0 ≡ record {
      desired_identity = target;
      staged_identity = none;
      active_identity = target;
      previous_identity = none;
    })
deploy_and_commit_instance = deploy_and_commit idle target target-IsIdentity (omega arith)

deploy_and_roll_back_instance :
    (roll_back (activate_staged (stage idle target).0).0 ≡ (idle, ok tt))
    × (roll_back (roll_back (activate_staged (stage idle target).0).0).0 ≡ (
      (roll_back (activate_staged (stage idle target).0).0).0,
      err missing_rollback_generation,
    ))
deploy_and_roll_back_instance = deploy_and_roll_back idle target target-IsIdentity (omega arith)

active_generation_moves_instance :
    ((stage running (identity 43 b'd')).0.active_identity ≡ target)
    × ((commit running).active_identity ≡ target)
    × (((activate_staged running).0 ≡ running)
        ⊎ (42 < (activate_staged running).0.active_identity.generation))
    × (((roll_back running).0 ≡ running) ⊎ ((roll_back running).0.active_identity.generation < 42))
active_generation_moves_instance = active_generation_moves running (identity 43 b'd') running-Inv

commit_then_activate_drifts_example :
    let t = (activate_staged (commit ready)).0 in
    (t.active_identity ≡ target)
    × (t.desired_identity ≡ previous)
    × (t.desired_identity ≢ t.active_identity)
commit_then_activate_drifts_example = commit_then_activate_drifts ready target ready-Inv refl

recovery_agrees_with_roll_back_instance :
    recovery_action (entry_of running (bytes "deploy-42") activated) target
    ≡ ok (roll_back_to (roll_back running).0.active_identity)
recovery_agrees_with_roll_back_instance =
    recovery_agrees_with_roll_back running (bytes "deploy-42") activated running-Inv (λ e. cc)
      deploy_42 at_activated

-- A crash while draining, with the target active.
recovery_action-Crashes_example :
    recovery_action
      (deployment_entry ready target (bytes "deploy-42") draining)
      (activate_staged ready).0.active_identity
    ≡ ok (roll_back_to (roll_back (activate_staged ready).0).0.active_identity)
recovery_action-Crashes_example =
    recovery_action-Crashes ready target (bytes "deploy-42") draining (activate_staged ready).0
      (roll_back_to (roll_back (activate_staged ready).0).0.active_identity) ready-Inv refl
      deploy_42 (Crashes.after_activation (inr at_draining) refl refl)
