-- ===== src/Generation/Journal.antt =====
-- `DeploymentJournalEntry`: its validation, and the choice of a recovery action.
pub mod Validity
pub mod Recovery
pub mod Restart
pub mod Failure
use contract_conformance_tes.Base.{
  ℕ, Bool, ◌||◌, ◌&&◌, not, leb, if◌then◌else◌, Option, none, some, Result, ok, err, ◌>>=◌, ◌>>◌,
  reject_if, is_empty, true, false, Text, [], ◌∷◌, length, all,
}
use contract_conformance_tes.Generation.Types.{
  GenerationIdentity, ActiveGenerationIdentity, OperationStage, prepared, validated, staged,
  health_checked, activated, draining, committed, rolling_back, rolled_back, DeploymentJournalEntry,
  RecoveryAction, noop, resume_activation, roll_back_to, GenerationError, invalid_operation_id,
  non_monotonic_journal, missing_previous_generation, recovery_state_mismatch,
}
use contract_conformance_tes.Generation.Identity
use contract_conformance_tes.Generation.Identity.{identity_eq, from_active}

-- `matches!(byte, b'!'..=b'~')`
abbrev pub is_visible : ℕ → Bool
is_visible byte = leb b'!' byte && leb byte b'~'

-- The condition on `operation_id` in `validate`.
unfoldable pub refuses_id : Text → Bool
refuses_id operation_id =
    is_empty operation_id
    || (not (leb (length operation_id) 128) || not (all is_visible operation_id))

-- The check of `previous_identity` in `validate`.
validate_previous :
    Option GenerationIdentity → GenerationIdentity → Result (Unit {0}) GenerationError
validate_previous none target_identity = ok tt
validate_previous (some previous_identity) target_identity = do
  Identity.validate previous_identity
  reject_if (leb target_identity.generation previous_identity.generation) non_monotonic_journal

unfoldable pub validate : DeploymentJournalEntry → Result (Unit {0}) GenerationError
unfolding validate_previous
validate self = do
  reject_if (refuses_id self.operation_id) invalid_operation_id
  Identity.validate self.target_identity
  validate_previous self.previous_identity self.target_identity

previous_for_recovery : DeploymentJournalEntry → Result GenerationIdentity GenerationError
previous_for_recovery self = elim self.previous_identity [
  | none ↦ err (missing_previous_generation self.stage)
  | some previous_identity ↦ ok previous_identity
]

recovery_mismatch : DeploymentJournalEntry → GenerationIdentity → GenerationError
recovery_mismatch self actual_active_identity =
    recovery_state_mismatch self.stage actual_active_identity self.target_identity
      self.previous_identity

expect_previous_or_fail :
    DeploymentJournalEntry
    → GenerationIdentity
    → RecoveryAction
    → Result RecoveryAction GenerationError
expect_previous_or_fail self actual_active_identity action = do
  previous_identity ← previous_for_recovery self
  if identity_eq actual_active_identity previous_identity
      then ok action
      else err (recovery_mismatch self actual_active_identity)

-- The arm of `recovery_action` for `Activated | Draining | RollingBack`.
restore_previous :
    DeploymentJournalEntry → GenerationIdentity → Result RecoveryAction GenerationError
restore_previous self actual = do
  previous_identity ← previous_for_recovery self
  if identity_eq actual self.target_identity
      then ok (roll_back_to previous_identity)
      else if identity_eq actual previous_identity
      then ok noop
      else err (recovery_mismatch self actual)

-- The `match self.stage` of `recovery_action`.
pub recover_at :
    OperationStage
    → DeploymentJournalEntry
    → GenerationIdentity
    → Result RecoveryAction GenerationError
unfolding previous_for_recovery recovery_mismatch expect_previous_or_fail restore_previous
recover_at prepared self actual = expect_previous_or_fail self actual noop
recover_at validated self actual = expect_previous_or_fail self actual noop
recover_at staged self actual = expect_previous_or_fail self actual noop
recover_at health_checked self actual = do
  previous_identity ← previous_for_recovery self
  if identity_eq actual previous_identity
      then ok (resume_activation self.target_identity)
      else if identity_eq actual self.target_identity
      then ok (roll_back_to previous_identity)
      else err (recovery_mismatch self actual)
recover_at committed self actual =
    if identity_eq actual self.target_identity then ok noop else err (recovery_mismatch self actual)
recover_at rolled_back self actual = do
  previous_identity ← previous_for_recovery self
  if identity_eq actual previous_identity then ok noop else err (recovery_mismatch self actual)
recover_at activated self actual = restore_previous self actual
recover_at draining self actual = restore_previous self actual
recover_at rolling_back self actual = restore_previous self actual

unfoldable pub recovery_action :
    DeploymentJournalEntry → GenerationIdentity → Result RecoveryAction GenerationError
unfolding recover_at
recovery_action self actual_active_identity = do
  validate self
  Identity.validate actual_active_identity
  recover_at self.stage self actual_active_identity

unfoldable pub recovery_action_from_runtime_identity :
    DeploymentJournalEntry → ActiveGenerationIdentity → Result RecoveryAction GenerationError
recovery_action_from_runtime_identity self actual_active_identity =
    recovery_action self (from_active actual_active_identity)
