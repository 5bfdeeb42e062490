-- ===== src/Generation/Suite.antt =====
-- source-snapshots/recovery_conformance.rs: the tests as a suite for any implementation of the
-- module `generation`. Its crate is not part of the repository; the suite takes what it calls of it
-- as a parameter. A test is the conjunction of its assertions.
pub mod Spec
use contract_conformance_tes.Base.{
  ℕ, ◌≡◌, Option, none, some, List, [], ◌∷◌, All, Result, ok, err, Text, bytes, repeat,
}
use contract_conformance_tes.Generation.Types.{
  GenerationIdentity, OperationStage, prepared, validated, staged, health_checked, activated,
  draining, committed, rolling_back, rolled_back, DeploymentJournalEntry, RecoveryAction, noop,
  resume_activation, roll_back_to, GenerationError, recovery_state_mismatch,
  missing_previous_generation, invalid_operation_id, non_monotonic_journal,
}

-- What the tests call: `GenerationIdentity::new`, `validate` and `recovery_action` of an entry.
pub record Implementation : Type 0 where
  pub new : ℕ → Text → Result GenerationIdentity GenerationError
  pub validate : DeploymentJournalEntry → Result (Unit {0}) GenerationError
  pub recovery_action :
      DeploymentJournalEntry → GenerationIdentity → Result RecoveryAction GenerationError

-- A mismatch at the active identity `a`, and a mismatch.
abbrev pub MismatchAt : GenerationIdentity → Result RecoveryAction GenerationError → Type 0
MismatchAt a r =
    (s : OperationStage) × (t : GenerationIdentity) × (p : Option GenerationIdentity) × (r
      ≡ err (recovery_state_mismatch s a t p))

abbrev pub Mismatch : Result RecoveryAction GenerationError → Type 0
Mismatch r = (a : GenerationIdentity) × MismatchAt a r

abbrev pub all_stages : List OperationStage
all_stages =
    prepared ∷ validated ∷ staged ∷ health_checked ∷ activated ∷ draining ∷ committed ∷ rolling_back
    ∷ rolled_back ∷ []

abbrev pub activated_stages : List OperationStage
activated_stages = activated ∷ draining ∷ rolling_back ∷ []

module _ (implementation : Implementation) where
  open implementation use {new, validate, recovery_action}

  -- `identity(generation, byte)`, and what is done with it.
  abbrev pub With : ℕ → ℕ → (GenerationIdentity → Type 0) → Type 0
  With generation byte Then =
      (i : GenerationIdentity) × (new generation (repeat 64 byte) ≡ ok i) × Then i

  -- `journal(stage)`
  abbrev pub WithJournal : OperationStage → (DeploymentJournalEntry → Type 0) → Type 0
  WithJournal stage Then = With 42 b'b' (λ target. With 41 b'a' (λ previous. Then (record {
    operation_id = bytes "deploy-42";
    target_identity = target;
    previous_identity = some previous;
    stage = stage;
  })))

  abbrev pub PreActivationRecoveryIsFenced : Type 0
  PreActivationRecoveryIsFenced =
      WithJournal staged (λ e. With 41 b'a' (λ a. recovery_action e a ≡ ok noop))
      × WithJournal health_checked (λ e.
        With 41 b'a' (λ a. With 42 b'b' (λ t. recovery_action e a ≡ ok (resume_activation t))))

  abbrev pub RestartNeverDoubleActivates : Type 0
  RestartNeverDoubleActivates =
      WithJournal health_checked
        (λ e. With 42 b'b' (λ a. With 41 b'a' (λ p. recovery_action e a ≡ ok (roll_back_to p))))

  abbrev pub StaleJournalCannotClobber : Type 0
  StaleJournalCannotClobber =
      All (λ s. WithJournal s (λ e. With 43 b'd' (λ a. MismatchAt a (recovery_action e a))))
        all_stages

  abbrev pub SameGenerationOtherDigestDiffers : Type 0
  SameGenerationOtherDigestDiffers =
      All (λ s. WithJournal s (λ e. With 42 b'c' (λ a. Mismatch (recovery_action e a)))) all_stages

  abbrev pub PostActivationRestoresPrevious : Type 0
  PostActivationRestoresPrevious =
      All
        (λ s. WithJournal s (λ e. With 42 b'b' (λ t.
          With 41 b'a'
            (λ p. (recovery_action e t ≡ ok (roll_back_to p)) × (recovery_action e p ≡ ok noop)))))
        activated_stages

  abbrev pub TerminalStatesAreIdempotent : Type 0
  TerminalStatesAreIdempotent =
      WithJournal committed (λ e.
        With 42 b'b' (λ t. recovery_action e t ≡ ok noop)
        × With 41 b'a' (λ p. Mismatch (recovery_action e p)))
      × WithJournal rolled_back (λ e.
        With 41 b'a' (λ p. recovery_action e p ≡ ok noop)
        × With 42 b'b' (λ t. Mismatch (recovery_action e t)))

  abbrev pub MalformedJournalIsRefused : Type 0
  MalformedJournalIsRefused =
      WithJournal health_checked
        (λ e. validate (record e { operation_id = [] }) ≡ err invalid_operation_id)
      × WithJournal health_checked
          (λ e. validate (record e { operation_id = bytes "deploy 42" }) ≡ err invalid_operation_id)
      × WithJournal activated (λ e.
        With 42 b'a'
          (λ p. validate (record e { previous_identity = some p }) ≡ err non_monotonic_journal))
      × WithJournal activated (λ e. With 42 b'b' (λ a.
        recovery_action (record e { previous_identity = none }) a
        ≡ err (missing_previous_generation activated)))

  -- All tests.
  abbrev pub Passes : Type 0
  Passes =
      PreActivationRecoveryIsFenced × RestartNeverDoubleActivates × StaleJournalCannotClobber
      × SameGenerationOtherDigestDiffers × PostActivationRestoresPrevious
      × TerminalStatesAreIdempotent × MalformedJournalIsRefused
