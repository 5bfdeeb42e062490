-- ===== src/Generation/Journal/Validity.antt =====
-- When a journal entry is accepted, and which entries are well formed.
use contract_conformance_tes.Base.{
  ℕ, is_empty, ◌≤◌, ◌<◌, ◌≡◌, ◌↔◌, true, false, [], ◌∷◌, Option, none, some, ok, Text, length, All,
  all_iff, arith,
}
use contract_conformance_tes.Generation.Types.{GenerationIdentity, DeploymentJournalEntry}
use contract_conformance_tes.Generation.Identity.Laws.{IsIdentity}
use contract_conformance_tes.Generation.Identity.Laws
use contract_conformance_tes.Generation.Journal.{
  is_visible, refuses_id, validate_previous, validate,
}

-- One to 128 bytes from `!` to `~`.
pub record IsOperationId (id : Text) : Type 0 where
  pub non_empty : 0 < length id
  pub bounded : length id ≤ 128
  pub visible : All (λ b. (b'!' ≤ b) × (b ≤ b'~')) id

-- The previous identity, where there is one, is well formed and older than the target.
abbrev pub Precedes : Option GenerationIdentity → GenerationIdentity → Type 0
Precedes none target = Unit
Precedes (some p) target = IsIdentity p × (p.generation < target.generation)

pub record IsJournal (e : DeploymentJournalEntry) : Type 0 where
  pub named : IsOperationId e.operation_id
  pub target : IsIdentity e.target_identity
  pub previous : Precedes e.previous_identity e.target_identity

is_empty-length : (id : Text) → (is_empty id ≡ true) ↔ (length id ≡ 0)
is_empty-length [] = ground arith
is_empty-length (b ∷ id) = ground arith

is_visible_iff : (b : ℕ) → (is_visible b ≡ true) ↔ ((b'!' ≤ b) × (b ≤ b'~'))
is_visible_iff b = ground arith

pub refuses_id_iff : (id : Text) → (refuses_id id ≡ false) ↔ IsOperationId id
unfolding refuses_id
refuses_id_iff id =
    ground (
      arith,
      is_empty-length id,
      all_iff (λ b. (b'!' ≤ b) × (b ≤ b'~')) is_visible is_visible_iff id,
    )

validate_previous_iff :
    (p : Option GenerationIdentity) (target : GenerationIdentity)
    → (validate_previous p target ≡ ok tt) ↔ Precedes p target
unfolding validate_previous
validate_previous_iff none target = ground arith
validate_previous_iff (some p) target = ground (arith, Laws.validate-IsIdentity p)

-- An entry is accepted exactly when it is well formed.
pub validate-IsJournal : (e : DeploymentJournalEntry) → (validate e ≡ ok tt) ↔ IsJournal e
unfolding validate
validate-IsJournal e = ground (
  arith,
  refuses_id_iff e.operation_id,
  Laws.validate-IsIdentity e.target_identity,
  validate_previous_iff e.previous_identity e.target_identity,
)
