-- ===== src/Generation/Suite/Spec.antt =====
-- What an implementation has to return, and that this determines it.
use contract_conformance_tes.Base.{ℕ, ◌≡◌, inl, inr, Result-cases, ok, err, Text}
use contract_conformance_tes.Generation.Types.{
  GenerationIdentity, DeploymentJournalEntry, RecoveryAction, GenerationError,
}
use contract_conformance_tes.Generation.Identity
use contract_conformance_tes.Generation.Identity.Laws.{IsIdentity}
use contract_conformance_tes.Generation.Identity.Laws
use contract_conformance_tes.Generation.Journal
use contract_conformance_tes.Generation.Journal.Failure.{
  IdentityFault, JournalFault, RecoveryFault, validate-IdentityFault, validate-JournalFault,
  recovery_action-RecoveryFault,
}
use contract_conformance_tes.Generation.Journal.Recovery.{Recovers, recovery_action_iff}
use contract_conformance_tes.Generation.Journal.Validity
use contract_conformance_tes.Generation.Journal.Validity.{IsJournal}
use contract_conformance_tes.Generation.Suite.{Implementation}

-- The implementation of infra-recovery/src/generation.rs.
abbrev pub generation : Implementation
generation = record {
  new = Identity.new;
  validate = Journal.validate;
  recovery_action = Journal.recovery_action;
}

abbrev pub numbered : ℕ → Text → GenerationIdentity
numbered g digest = record { generation = g; generation_sha256 = digest }

-- An implementation constructs exactly the well-formed identities, accepts exactly the
-- well-formed entries, recovers by the recovery table, and refuses the rest for the first fault.
pub record Conforms (implementation : Implementation) : Type 0 where
  pub new_ok :
      (g : ℕ) (digest : Text)
      → IsIdentity (numbered g digest)
      → implementation.new g digest ≡ ok (numbered g digest)
  pub new_err :
      (g : ℕ) (digest : Text) (x : GenerationError)
      → IdentityFault (numbered g digest) x
      → implementation.new g digest ≡ err x
  pub validate_ok : (e : DeploymentJournalEntry) → IsJournal e → implementation.validate e ≡ ok tt
  pub validate_err :
      (e : DeploymentJournalEntry) (x : GenerationError)
      → JournalFault e x
      → implementation.validate e ≡ err x
  pub recovery_ok :
      (e : DeploymentJournalEntry) (a : GenerationIdentity) (action : RecoveryAction)
      → IsJournal e
      → IsIdentity a
      → Recovers e.stage e.previous_identity e.target_identity a action
      → implementation.recovery_action e a ≡ ok action
  pub recovery_err :
      (e : DeploymentJournalEntry) (a : GenerationIdentity) (x : GenerationError)
      → RecoveryFault e a x
      → implementation.recovery_action e a ≡ err x

pub generation-Conforms : Conforms generation
unfolding Identity.new
generation-Conforms = record {
  new_ok = λ g digest valid. rw ((Laws.validate-IsIdentity (numbered g digest)).1 valid);
  new_err = λ g digest x fault. rw ((validate-IdentityFault (numbered g digest) x).1 fault);
  validate_ok = λ e. (Validity.validate-IsJournal e).1;
  validate_err = λ e x. (validate-JournalFault e x).1;
  recovery_ok = λ e a action journal active allowed.
      (recovery_action_iff e a action).1 (journal, active, allowed);
  recovery_err = λ e a x. (recovery_action-RecoveryFault e a x).1;
}

module _ {implementation : Implementation} (conforms : Conforms implementation) where
  new_agrees : (g : ℕ) (digest : Text) → implementation.new g digest ≡ Identity.new g digest
  unfolding Identity.new
  new_agrees g digest =
      let i = numbered g digest in
      elim (Result-cases (Identity.validate i)) [
        | inl (done, passed) ↦
            rw passed (conforms.new_ok g digest ((Laws.validate-IsIdentity i).0 passed))
        | inr (x, refused) ↦
            rw refused (conforms.new_err g digest x ((validate-IdentityFault i x).0 refused))
      ]

  validate_agrees : (e : DeploymentJournalEntry) → implementation.validate e ≡ Journal.validate e
  validate_agrees e = elim (Result-cases (Journal.validate e)) [
    | inl (done, passed) ↦
        rw passed (conforms.validate_ok e ((Validity.validate-IsJournal e).0 passed))
    | inr (x, refused) ↦
        rw refused (conforms.validate_err e x ((validate-JournalFault e x).0 refused))
  ]

  recovery_agrees :
      (e : DeploymentJournalEntry) (a : GenerationIdentity)
      → implementation.recovery_action e a ≡ Journal.recovery_action e a
  recovery_agrees e a = elim (Result-cases (Journal.recovery_action e a)) [
    | inl (action, passed) ↦
        let (journal, active, allowed) = (recovery_action_iff e a action).0 passed in
        rw passed (conforms.recovery_ok e a action journal active allowed)
    | inr (x, refused) ↦
        rw refused (conforms.recovery_err e a x ((recovery_action-RecoveryFault e a x).0 refused))
  ]

  pub Conforms-eq : implementation ≡ generation
  Conforms-eq = λ i. record {
    new = λ g digest. new_agrees g digest i;
    validate = λ e. validate_agrees e i;
    recovery_action = λ e a. recovery_agrees e a i;
  }
