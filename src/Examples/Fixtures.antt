-- ===== src/Examples/Fixtures.antt =====
-- The helpers of infra-recovery/tests/recovery_conformance.rs, and that they are well formed.
use contract_conformance_tes.Base.{ℕ, refl, some, bytes, repeat, arith}
use contract_conformance_tes.Generation.Types.{health_checked, activated, DeploymentJournalEntry}
use contract_conformance_tes.Generation.Identity
use contract_conformance_tes.Generation.Identity.{is_canonical_sha256, identity_eq}
use contract_conformance_tes.Generation.Identity.Laws
use contract_conformance_tes.Generation.Identity.Laws.{IsIdentity}
use contract_conformance_tes.Generation.Journal.Validity.{IsOperationId, IsJournal}
use contract_conformance_tes.Generation.State.{stage}
use contract_conformance_tes.Generation.Types.{OperationStage, GenerationIdentity}

-- `identity(generation, byte)`: the digest is the byte 64 times.
abbrev pub identity : ℕ → ℕ → GenerationIdentity
identity generation byte = record { generation = generation; generation_sha256 = repeat 64 byte }

abbrev pub target : GenerationIdentity
target = identity 42 b'b'

abbrev pub previous : GenerationIdentity
previous = identity 41 b'a'

-- `journal(stage)`
abbrev pub journal : OperationStage → DeploymentJournalEntry
journal stage = record {
  operation_id = bytes "deploy-42";
  target_identity = target;
  previous_identity = some previous;
  stage = stage;
}

pub target-IsIdentity : IsIdentity target
unfolding Identity.validate is_canonical_sha256
target-IsIdentity = (Laws.validate-IsIdentity target).0 refl

pub previous-IsIdentity : IsIdentity previous
unfolding Identity.validate is_canonical_sha256
previous-IsIdentity = (Laws.validate-IsIdentity previous).0 refl

pub newer-IsIdentity : IsIdentity (identity 43 b'd')
unfolding Identity.validate is_canonical_sha256
newer-IsIdentity = (Laws.validate-IsIdentity (identity 43 b'd')).0 refl

pub deploy_42 : IsOperationId (bytes "deploy-42")
deploy_42 = record { non_empty = omega arith; bounded = omega arith; visible = omega arith }

pub activated-IsJournal : IsJournal (journal activated)
activated-IsJournal = record {
  named = deploy_42;
  target = target-IsIdentity;
  previous = (previous-IsIdentity, omega arith);
}

pub health_checked-IsJournal : IsJournal (journal health_checked)
health_checked-IsJournal = record {
  named = deploy_42;
  target = target-IsIdentity;
  previous = (previous-IsIdentity, omega arith);
}
