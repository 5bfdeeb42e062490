-- ===== src/Generation/Journal/Failure.antt =====
-- The errors of `recovery_action`: which one is returned, and when.
use contract_conformance_tes.Base.{
  ◌≤◌, ◌<◌, ◌≡◌, ◌≢◌, ◌↔◌, ◌⊎◌, inl, inr, refl, Result-cases, Option-cases, Option, none, some, err,
  arith,
}
use contract_conformance_tes.Generation.Types.{
  GenerationIdentity, OperationStage, committed, DeploymentJournalEntry, RecoveryAction,
  GenerationError, zero_generation, invalid_generation_digest, invalid_operation_id,
  non_monotonic_journal, missing_previous_generation, recovery_state_mismatch,
}
use contract_conformance_tes.Generation.Identity
use contract_conformance_tes.Generation.Identity.Laws.{
  IsDigest, IsIdentity, is_canonical_sha256_iff,
}
use contract_conformance_tes.Generation.Identity.Laws
use contract_conformance_tes.Generation.Journal.Validity.{IsOperationId, IsJournal, refuses_id_iff}
use contract_conformance_tes.Generation.Journal.Validity
use contract_conformance_tes.Generation.Journal.Recovery.{
  Recovers, recover_at_sound, recover_at_complete,
}
use contract_conformance_tes.Generation.Journal.{
  validate_previous, validate, recover_at, previous_for_recovery, recovery_mismatch,
  expect_previous_or_fail, restore_previous, recovery_action,
}

-- Why an identity is refused: it is numbered zero, or its digest is malformed.
abbrev pub IdentityFault : GenerationIdentity → GenerationError → Type 0
IdentityFault i x =
    ((i.generation ≡ 0) × (x ≡ zero_generation))
    ⊎ ((0 < i.generation)
        × (¬ IsDigest i.generation_sha256)
        × (x ≡ invalid_generation_digest i.generation))

-- Why a previous identity is refused: by itself, or as not older than the target.
abbrev pub PreviousFault : Option GenerationIdentity → GenerationIdentity → GenerationError → Type 0
PreviousFault none target x = ⊥
PreviousFault (some p) target x =
    IdentityFault p x
    ⊎ (IsIdentity p × (target.generation ≤ p.generation) × (x ≡ non_monotonic_journal))

-- Why an entry is refused: the first part that is at fault.
abbrev pub JournalFault : DeploymentJournalEntry → GenerationError → Type 0
JournalFault e x =
    ((¬ IsOperationId e.operation_id) × (x ≡ invalid_operation_id))
    ⊎ (IsOperationId e.operation_id × IdentityFault e.target_identity x)
    ⊎ (IsOperationId e.operation_id
        × IsIdentity e.target_identity
        × PreviousFault e.previous_identity e.target_identity x)

-- Why a well-formed entry refuses a well-formed active identity: it has no previous identity to
-- go back to, or the recovery table has no line.
abbrev pub TableFault : DeploymentJournalEntry → GenerationIdentity → GenerationError → Type 0
TableFault e a x =
    ((e.previous_identity ≡ none)
      × (e.stage ≢ committed)
      × (x ≡ missing_previous_generation e.stage))
    ⊎ (((e.previous_identity ≢ none) ⊎ (e.stage ≡ committed))
        × ((action : RecoveryAction)
            → ¬ Recovers e.stage e.previous_identity e.target_identity a action)
        × (x ≡ recovery_state_mismatch e.stage a e.target_identity e.previous_identity))

pub validate-IdentityFault :
    (i : GenerationIdentity) (x : GenerationError)
    → (Identity.validate i ≡ err x) ↔ IdentityFault i x
unfolding Identity.validate
validate-IdentityFault i x = ground (arith, is_canonical_sha256_iff i.generation_sha256)

validate_previous-PreviousFault :
    (p : Option GenerationIdentity) (target : GenerationIdentity) (x : GenerationError)
    → (validate_previous p target ≡ err x) ↔ PreviousFault p target x
unfolding validate_previous
validate_previous-PreviousFault none target x = ground arith
validate_previous-PreviousFault (some p) target x = elim (Result-cases (Identity.validate p)) [
  | inl (done, passed) ↦ ground (arith, validate-IdentityFault p x, Laws.validate-IsIdentity p)
  | inr (y, refused) ↦ ground (arith, validate-IdentityFault p x, Laws.validate-IsIdentity p)
]

pub validate-JournalFault :
    (e : DeploymentJournalEntry) (x : GenerationError) → (validate e ≡ err x) ↔ JournalFault e x
unfolding validate
validate-JournalFault e x = ground (
  arith,
  refuses_id_iff e.operation_id,
  validate-IdentityFault e.target_identity x,
  Laws.validate-IsIdentity e.target_identity,
  validate_previous-PreviousFault e.previous_identity e.target_identity x,
)

-- The two errors that the `match` can return.
recover_at_errs :
    (s : OperationStage) (e : DeploymentJournalEntry) (a : GenerationIdentity) (x : GenerationError)
    → recover_at s e a ≡ err x
    → ((e.previous_identity ≡ none) × (s ≢ committed) × (x ≡ missing_previous_generation e.stage))
      ⊎ (((e.previous_identity ≢ none) ⊎ (s ≡ committed))
          × (x ≡ recovery_state_mismatch e.stage a e.target_identity e.previous_identity))
unfolding recover_at previous_for_recovery recovery_mismatch expect_previous_or_fail
    restore_previous
recover_at_errs committed e a x h = inr (inr refl, ground arith)
recover_at_errs _ e a x h = elim (Option-cases e.previous_identity) [
  | inl missing ↦ inl (missing, (λ k. ground arith), ground arith)
  | inr (p, found) ↦ inr (inl (λ k. ground arith), ground arith)
]

-- With no previous identity, the table has a line for `committed` only.
Recovers-committed :
    {s : OperationStage} {previous : Option GenerationIdentity} {target a : GenerationIdentity}
    {action : RecoveryAction}
    → Recovers s previous target a action
    → previous ≡ none
    → s ≡ committed
Recovers-committed (Recovers.not_started at found same) missing = absurd (cc (found, missing))
Recovers-committed (Recovers.resumed at found same) missing = absurd (cc (found, missing))
Recovers-committed (Recovers.restored p at found active same) missing = absurd (cc (found, missing))
Recovers-committed (Recovers.already_restored at found same) missing = absurd (cc (found, missing))
Recovers-committed (Recovers.finished at active same) missing = at

module _ (e : DeploymentJournalEntry) (a : GenerationIdentity) (x : GenerationError)
    (valid : IsJournal e) where
  recover_at-TableFault : recover_at e.stage e a ≡ err x → TableFault e a x
  recover_at-TableFault h = elim (recover_at_errs e.stage e a x h) [
    | inl missing ↦ inl missing
    | inr (known, same) ↦ inr (
      known,
      (λ action allowed. cc (h, recover_at_complete e a action valid.previous e.stage allowed)),
      same,
    )
  ]

  TableFault-recover_at : TableFault e a x → recover_at e.stage e a ≡ err x
  TableFault-recover_at fault = elim (Result-cases (recover_at e.stage e a)) [
    | inl (action, passed) ↦
        let allowed = recover_at_sound e.stage e a action passed in
        elim fault [
          | inl (missing, open_stage, same) ↦
              absurd (open_stage (Recovers-committed allowed missing))
          | inr (known, none_fits, same) ↦ absurd (none_fits action allowed)
        ]
    | inr (y, refused) ↦ ground (arith, recover_at_errs e.stage e a y refused)
  ]

-- Why a recovery is refused: the entry, the active identity, or the table.
abbrev pub RecoveryFault : DeploymentJournalEntry → GenerationIdentity → GenerationError → Type 0
RecoveryFault e a x =
    JournalFault e x
    ⊎ (IsJournal e × IdentityFault a x)
    ⊎ (IsJournal e × IsIdentity a × TableFault e a x)

-- `recovery_action` returns an error exactly for the first fault in the order of its checks: the
-- entry (its id, its target, its previous identity), the active identity, or a recovery table
-- that has no line for what is active; a missing previous identity is told from a mismatch.
pub recovery_action-RecoveryFault :
    (e : DeploymentJournalEntry) (a : GenerationIdentity) (x : GenerationError)
    → (recovery_action e a ≡ err x) ↔ RecoveryFault e a x
unfolding recovery_action
recovery_action-RecoveryFault e a x = elim (Result-cases (validate e)) [
  | inl (done, passed) ↦
      let journal = (Validity.validate-IsJournal e).0 passed in
      ground (
        arith,
        validate-JournalFault e x,
        validate-IdentityFault a x,
        Laws.validate-IsIdentity a,
        recover_at-TableFault e a x journal,
        TableFault-recover_at e a x journal,
      )
  | inr (y, refused) ↦ ground (arith, validate-JournalFault e x, Validity.validate-IsJournal e)
]
