-- ===== src/Generation/State/Invariant.antt =====
-- What holds of a `GenerationState` after any calls, failed ones included.
use contract_conformance_tes.Base.{◌<◌, ◌≡◌, ◌⊎◌, Option, none, some, ok, arith}
use contract_conformance_tes.Generation.Types.{GenerationIdentity, GenerationState}
use contract_conformance_tes.Generation.Identity.Laws.{IsIdentity}
use contract_conformance_tes.Generation.Identity.Laws
use contract_conformance_tes.Generation.Journal.Validity.{Precedes}
use contract_conformance_tes.Generation.State.{new, stage, activate_staged, commit, roll_back}

-- The staged identity, where there is one, is well formed and newer than the active one.
abbrev pub Follows : Option GenerationIdentity → GenerationIdentity → Type 0
Follows none active = Unit
Follows (some i) active = IsIdentity i × (active.generation < i.generation)

-- The desired identity is the active one, the staged one, or, with nothing staged, the previous
-- one.
abbrev pub IsTracked : GenerationState → Type 0
IsTracked s =
    (s.desired_identity ≡ s.active_identity)
    ⊎ (s.staged_identity ≡ some s.desired_identity)
    ⊎ ((s.staged_identity ≡ none) × (s.previous_identity ≡ some s.desired_identity))

pub record Inv (s : GenerationState) : Type 0 where
  pub active : IsIdentity s.active_identity
  pub newer : Follows s.staged_identity s.active_identity
  pub older : Precedes s.previous_identity s.active_identity
  pub tracked : IsTracked s

-- The states that some sequence of calls reaches, from a successful `GenerationState::new`.
pub data Reachable : GenerationState → Type 0 where
  created : (i : GenerationIdentity) {s : GenerationState} → new i ≡ ok s → Reachable s
  staged :
      {s t : GenerationState} (i : GenerationIdentity)
      → Reachable s
      → (stage s i).0 ≡ t
      → Reachable t
  activated : {s t : GenerationState} → Reachable s → (activate_staged s).0 ≡ t → Reachable t
  committed : {s t : GenerationState} → Reachable s → commit s ≡ t → Reachable t
  rolled_back : {s t : GenerationState} → Reachable s → (roll_back s).0 ≡ t → Reachable t

new-Inv : (i : GenerationIdentity) (s : GenerationState) → new i ≡ ok s → Inv s
unfolding new
new-Inv i s h = ground (arith, Laws.validate-IsIdentity i)

stage-Inv : (s : GenerationState) (i : GenerationIdentity) → Inv s → Inv (stage s i).0
unfolding stage
stage-Inv s i h = ground (arith, Laws.validate-IsIdentity i)

pub activate_staged-Inv : (s : GenerationState) → Inv s → Inv (activate_staged s).0
unfolding activate_staged
activate_staged-Inv s h = ground arith

pub commit-Inv : (s : GenerationState) → Inv s → Inv (commit s)
unfolding commit
commit-Inv s h = ground arith

pub roll_back-Inv : (s : GenerationState) → Inv s → Inv (roll_back s).0
unfolding roll_back
roll_back-Inv s h = ground arith

-- Every reachable state has a well-formed active identity, a staged identity (if any) that is
-- well formed and newer than it, a previous one (if any) that is well formed and older, and a
-- desired identity that is the active, the staged or, with nothing staged, the previous one.
pub Reachable-Inv : (s : GenerationState) → Reachable s → Inv s
Reachable-Inv s (created i h) = new-Inv i s h
Reachable-Inv s (staged {s = r} i h e) = rw (← e) (stage-Inv r i (Reachable-Inv r h))
Reachable-Inv s (activated {s = r} h e) = rw (← e) (activate_staged-Inv r (Reachable-Inv r h))
Reachable-Inv s (committed {s = r} h e) = rw (← e) (commit-Inv r (Reachable-Inv r h))
Reachable-Inv s (rolled_back {s = r} h e) = rw (← e) (roll_back-Inv r (Reachable-Inv r h))

-- A call of `stage`, `activate_staged` or `roll_back` succeeds, or it leaves the state as it was.
pub failed_call_unchanged :
    (s : GenerationState) (i : GenerationIdentity)
    → (((stage s i).1 ≡ ok tt) ⊎ ((stage s i).0 ≡ s))
      × (((activate_staged s).1 ≡ ok tt) ⊎ ((activate_staged s).0 ≡ s))
      × (((roll_back s).1 ≡ ok tt) ⊎ ((roll_back s).0 ≡ s))
unfolding stage activate_staged roll_back
failed_call_unchanged s i = ground arith
