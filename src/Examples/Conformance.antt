-- ===== src/Examples/Conformance.antt =====
-- infra-recovery/tests/recovery_conformance.rs: each test is the conjunction of its assertions,
-- and passes.
use contract_conformance_tes.Base.{
  subst, ◌≢◌, refl, sym, List, [], ◌∷◌, All, text_eq, repeat, arith, ℕ,
}
use contract_conformance_tes.Generation.Types.{GenerationIdentity, OperationStage}
use contract_conformance_tes.Generation.Identity
use contract_conformance_tes.Generation.Identity.{is_canonical_sha256, identity_eq}
use contract_conformance_tes.Generation.Identity.Laws
use contract_conformance_tes.Generation.Identity.Laws.{IsIdentity}
use contract_conformance_tes.Generation.Journal
use contract_conformance_tes.Generation.Journal.{refuses_id, recovery_action}
use contract_conformance_tes.Generation.Journal.Restart.{stale_entry_fails_closed}
use contract_conformance_tes.Generation.Journal.Validity.{IsJournal}
use contract_conformance_tes.Generation.Suite
use contract_conformance_tes.Generation.Suite.{
  Mismatch, MismatchAt, all_stages, activated_stages, With, WithJournal, Passes, Implementation,
}
use contract_conformance_tes.Generation.Suite.Spec.{
  generation, generation-Conforms, Conforms, Conforms-eq,
}
use contract_conformance_tes.Examples.Fixtures.{
  identity, target, previous, journal, target-IsIdentity, previous-IsIdentity, newer-IsIdentity,
  deploy_42,
}

abbrev PreActivationRecoveryIsFenced : Type 0
PreActivationRecoveryIsFenced = Suite.PreActivationRecoveryIsFenced generation

abbrev RestartNeverDoubleActivates : Type 0
RestartNeverDoubleActivates = Suite.RestartNeverDoubleActivates generation

abbrev StaleJournalCannotClobber : Type 0
StaleJournalCannotClobber = Suite.StaleJournalCannotClobber generation

abbrev SameGenerationOtherDigestDiffers : Type 0
SameGenerationOtherDigestDiffers = Suite.SameGenerationOtherDigestDiffers generation

abbrev PostActivationRestoresPrevious : Type 0
PostActivationRestoresPrevious = Suite.PostActivationRestoresPrevious generation

abbrev TerminalStatesAreIdempotent : Type 0
TerminalStatesAreIdempotent = Suite.TerminalStatesAreIdempotent generation

abbrev MalformedJournalIsRefused : Type 0
MalformedJournalIsRefused = Suite.MalformedJournalIsRefused generation

-- An identity that the tests construct, and an entry.
with_identity :
    {Then : GenerationIdentity → Type 0} (g byte : ℕ)
    → IsIdentity (identity g byte)
    → Then (identity g byte)
    → With generation g byte Then
with_identity g byte valid then =
    (identity g byte, generation-Conforms.new_ok g (repeat 64 byte) valid, then)

pub other-IsIdentity : IsIdentity (identity 42 b'c')
unfolding Identity.validate is_canonical_sha256
other-IsIdentity = (Laws.validate-IsIdentity (identity 42 b'c')).0 refl

same_number-IsIdentity : IsIdentity (identity 42 b'a')
unfolding Identity.validate is_canonical_sha256
same_number-IsIdentity = (Laws.validate-IsIdentity (identity 42 b'a')).0 refl

with_target : {Then : GenerationIdentity → Type 0} → Then target → With generation 42 b'b' Then
with_target then = with_identity 42 b'b' target-IsIdentity then

with_previous : {Then : GenerationIdentity → Type 0} → Then previous → With generation 41 b'a' Then
with_previous then = with_identity 41 b'a' previous-IsIdentity then

pre_activation_recovery : PreActivationRecoveryIsFenced × RestartNeverDoubleActivates
unfolding recovery_action Journal.validate Identity.validate is_canonical_sha256 refuses_id
    identity_eq text_eq
pre_activation_recovery = (
  (
    with_target (with_previous (with_previous refl)),
    with_target (with_previous (with_previous (with_target refl))),
  ),
  with_target (with_previous (with_target (with_previous refl))),
)

post_activation_recovery : PostActivationRestoresPrevious × TerminalStatesAreIdempotent
unfolding recovery_action Journal.validate Identity.validate is_canonical_sha256 refuses_id
    identity_eq text_eq
post_activation_recovery = (
  (
    with_target (with_previous (with_target (with_previous (refl, refl)))),
    (
      with_target (with_previous (with_target (with_previous (refl, refl)))),
      (with_target (with_previous (with_target (with_previous (refl, refl)))), tt),
    ),
  ),
  (
    with_target (with_previous (with_target refl, with_previous (_, (_, _, _, refl)))),
    with_target (with_previous (with_previous refl, with_target (_, (_, _, _, refl)))),
  ),
)

malformed_recovery : MalformedJournalIsRefused
unfolding recovery_action Journal.validate Identity.validate is_canonical_sha256 refuses_id
    identity_eq text_eq
malformed_recovery = (
  with_target (with_previous refl),
  with_target (with_previous refl),
  with_target (with_previous (with_identity 42 b'a' same_number-IsIdentity refl)),
  with_target (with_previous (with_target refl)),
)

journal-IsJournal : (s : OperationStage) → IsJournal (journal s)
journal-IsJournal s = record {
  named = deploy_42;
  target = target-IsIdentity;
  previous = (previous-IsIdentity, omega arith);
}

-- At every stage, by the theorem that these tests are instances of.
pub mismatch_at :
    (s : OperationStage) (a : GenerationIdentity)
    → IsIdentity a
    → a ≢ target
    → a ≢ previous
    → MismatchAt a (recovery_action (journal s) a)
mismatch_at s a valid n m =
    (_, _, _, stale_entry_fails_closed (journal s) a previous (journal-IsJournal s) valid refl n m)

All-each : {A : Type 0} (P : A → Type 0) → ((x : A) → P x) → (xs : List A) → All P xs
All-each P f [] = tt
All-each P f (x ∷ xs) = (f x, All-each P f xs)

stale_journal : StaleJournalCannotClobber
stale_journal =
    All-each
      (λ s.
        WithJournal generation s
          (λ e. With generation 43 b'd' (λ a. MismatchAt a (generation.recovery_action e a))))
      (λ s. with_target (
        with_previous (
          with_identity 43 b'd' newer-IsIdentity (
            mismatch_at s (identity 43 b'd') newer-IsIdentity (λ e. ground arith)
              (λ e. ground arith)))))
      all_stages

same_generation : SameGenerationOtherDigestDiffers
same_generation =
    All-each
      (λ s.
        WithJournal generation s
          (λ e. With generation 42 b'c' (λ a. Mismatch (generation.recovery_action e a))))
      (λ s. with_target (
        with_previous (
          with_identity 42 b'c' other-IsIdentity (
            identity 42 b'c',
            mismatch_at s (identity 42 b'c') other-IsIdentity (λ e. ground arith)
                (λ e. ground arith),
          ))))
      all_stages

generation-Passes : Passes generation
generation-Passes =
    let (fenced, restart) = pre_activation_recovery in
    let (restores, terminal) = post_activation_recovery in
    (fenced, restart, stale_journal, same_generation, restores, terminal, malformed_recovery)

-- So does every implementation that meets the specification.
Conforms-Passes :
    (implementation : Implementation) → Conforms implementation → Passes implementation
Conforms-Passes implementation conforms =
    subst Passes (sym (Conforms-eq conforms)) generation-Passes
