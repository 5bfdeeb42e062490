-- ===== src/Generation/State.antt =====
-- `GenerationState`. A method that takes `&mut self` returns the new state, whether it fails or not.
pub mod Invariant
pub mod Deployment
pub mod Crash
use contract_conformance_tes.Base.{leb, if◌then◌else◌, Option, none, some, Result, ok, err, ◌>>=◌}
use contract_conformance_tes.Generation.Types.{
  GenerationIdentity, GenerationState, GenerationError, non_monotonic_stage,
  missing_staged_generation, missing_rollback_generation,
}
use contract_conformance_tes.Generation.Identity.{validate}

-- `GenerationState::new`
unfoldable pub new : GenerationIdentity → Result GenerationState GenerationError
new active_identity = validate active_identity >>= λ _. ok (record {
  desired_identity = active_identity;
  staged_identity = none;
  active_identity = active_identity;
  previous_identity = none;
})

abbrev pub Outcome : Type 0
Outcome = GenerationState × Result (Unit {0}) GenerationError

unfoldable pub stage : GenerationState → GenerationIdentity → Outcome
stage self identity = elim (validate identity) [
  | err e ↦ (self, err e)
  | ok _ ↦
      if leb identity.generation self.active_identity.generation
      then (self, err non_monotonic_stage)
      else (record self { desired_identity = identity; staged_identity = some identity }, ok tt)
]

-- The body of `activate_staged` after `self.staged_identity.take()`.
activate_taken : Option GenerationIdentity → GenerationState → Outcome
activate_taken none self = (self, err missing_staged_generation)
activate_taken (some staged_identity) self = (
  record self { previous_identity = some self.active_identity; active_identity = staged_identity },
  ok tt,
)

unfoldable pub activate_staged : GenerationState → Outcome
unfolding activate_taken
activate_staged self = activate_taken self.staged_identity (record self { staged_identity = none })

unfoldable pub commit : GenerationState → GenerationState
commit self = record self { desired_identity = self.active_identity; previous_identity = none }

-- The body of `roll_back` after `self.previous_identity.take()`.
roll_back_taken : Option GenerationIdentity → GenerationState → Outcome
roll_back_taken none self = (self, err missing_rollback_generation)
roll_back_taken (some previous_identity) self = (
  record self {
    desired_identity = previous_identity;
    active_identity = previous_identity;
    staged_identity = none;
  },
  ok tt,
)

unfoldable pub roll_back : GenerationState → Outcome
unfolding roll_back_taken
roll_back self = roll_back_taken self.previous_identity (record self { previous_identity = none })
