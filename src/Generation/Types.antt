-- ===== src/Generation/Types.antt =====
-- The data types of generation.rs, and `ActiveGenerationIdentity` of runtime-generation-stub.
use contract_conformance_tes.Base.{ℕ, Option, Text}

-- `generation` is a u64. The code only compares generations, so no range is needed.
pub record GenerationIdentity : Type 0 where
  pub generation : ℕ
  pub generation_sha256 : Text

-- The runtime's own identity type, from the crate `ores_runtime_generation`.
pub record ActiveGenerationIdentity : Type 0 where
  pub generation : ℕ
  pub generation_sha256 : Text

pub record GenerationState : Type 0 where
  pub desired_identity : GenerationIdentity
  pub staged_identity : Option GenerationIdentity
  pub active_identity : GenerationIdentity
  pub previous_identity : Option GenerationIdentity

pub data OperationStage : Type 0 where
  prepared validated staged health_checked activated draining committed rolling_back rolled_back :
      OperationStage

pub record DeploymentJournalEntry : Type 0 where
  pub operation_id : Text
  pub target_identity : GenerationIdentity
  pub previous_identity : Option GenerationIdentity
  pub stage : OperationStage

pub data RecoveryAction : Type 0 where
  noop : RecoveryAction
  resume_activation roll_back_to : GenerationIdentity → RecoveryAction

-- `recovery_state_mismatch` carries the stage, the active, the target and the previous identity.
pub data GenerationError : Type 0 where
  zero_generation : GenerationError
  invalid_generation_digest : ℕ → GenerationError
  non_monotonic_stage non_monotonic_journal : GenerationError
  missing_staged_generation missing_rollback_generation : GenerationError
  missing_previous_generation : OperationStage → GenerationError
  invalid_operation_id : GenerationError
  recovery_state_mismatch :
      OperationStage
      → GenerationIdentity
      → GenerationIdentity
      → Option GenerationIdentity
      → GenerationError
