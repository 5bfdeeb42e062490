-- ===== src/Examples/Audits.antt =====
-- The tests of the two copies of audit/zpkg_manifest.rs, for any platform on which a directory
-- holds the manifest that a test writes, and whose parser reads it.
use contract_conformance_tes.Base.{
  ◌≡◌, ◌↔◌, refl, false, true, List, [], ◌∷◌, map, Any, ok, Text, bytes, arith,
}
use contract_conformance_tes.Zpkg.Agreement.{erase, certified_options, copies_agree}
use contract_conformance_tes.Zpkg.Canary
use contract_conformance_tes.Zpkg.Canary.Effect.{Inspects, HasKind}
use contract_conformance_tes.Zpkg.Canary.Laws.{IsKindFinding, augment-rejects_kind}
use contract_conformance_tes.Zpkg.Certified
use contract_conformance_tes.Zpkg.Platform.{Platform}

abbrev with_kind : Text
with_kind =
    bytes
      "[package]\norg = \"oresoftware\"\nname = \"ores-dnd\"\nversion = \"0.1.0\"\nkind = \"pub-lib-core\"\n"

abbrev without_kind : Text
without_kind =
    bytes
      "[package]\norg = \"oresoftware\"\nname = \"ores-dnd\"\nversion = \"0.1.0\"\ndescription = \"cross-runtime drag and drop\"\n\n[targets.rust]\ndir = \"src/rust\"\nadapter = \"rust\"\n"

module _ (p : Platform) (root : p.FilePath) where
  -- What `tempdir` and `fs::write` leave: a regular file that holds the source.
  record IsWritten (source : Text) : Type 0 where
    found :
        p.symlink_metadata (p.join root (bytes ".zpkg.toml"))
        ≡ ok (record { is_symlink = false; is_file = true })
    read : p.read_to_string (p.join root (bytes ".zpkg.toml")) ≡ ok source

  abbrev options : Canary.RepositoryAuditOptions p.FilePath
  options = record { path = root; profile = bytes "baseline"; additional_required_paths = [] }

  abbrev canary_audit : Canary.CommandReport p.Json
  canary_audit =
      Canary.augment_zpkg_manifest_audit p options (Canary.new_report (bytes "audit repo"))

  abbrev certified_audit : Certified.CommandReport p.Json
  certified_audit =
      Certified.run_zpkg_manifest_audit p (certified_options options)
        (Certified.new_report (bytes "audit repo"))

  -- `findings.iter().any(|finding| finding.code == …)`
  abbrev CanaryRejectsKind : Type 0
  CanaryRejectsKind = Any IsKindFinding canary_audit.findings

  abbrev CanaryAcceptsShape : Type 0
  CanaryAcceptsShape = ¬ Any IsKindFinding canary_audit.findings

  abbrev IsKindCode : Certified.Finding p.Json → Type 0
  IsKindCode f = f.code ≡ bytes "zpkg-package-kind-noncanonical"

  abbrev CertifiedRejectsKind : Type 0
  CertifiedRejectsKind = Any IsKindCode certified_audit.findings

  abbrev CertifiedAcceptsShape : Type 0
  CertifiedAcceptsShape = ¬ Any IsKindCode certified_audit.findings

  Any-erase :
      (fs : List (Canary.Finding p.Json)) → Any IsKindCode (map erase fs) ↔ Any IsKindFinding fs
  Any-erase [] = ((λ x. x), λ x. x)
  Any-erase (f ∷ fs) = ground (arith, Any-erase fs)

  module _ {source : Text} (written : IsWritten source) (document : p.Document)
      (parsed : p.parse source ≡ ok document) where
    seen : Inspects p options document
    seen = record {
      metadata = record { is_symlink = false; is_file = true };
      source = source;
      found = written.found;
      not_link = refl;
      is_file = refl;
      read = written.read;
      parsed = parsed;
    }

    kind_iff : CanaryRejectsKind ↔ HasKind p options document
    kind_iff =
        let (to, from) =
          augment-rejects_kind p options (Canary.new_report (bytes "audit repo")) (λ x. x) in
        (
          λ h.
              let (d, other, kind) = to h in
              let one : d ≡ document = ground (arith, other.read, other.parsed, written.read) in
              rw one at kind,
          λ kind. from (document, seen, kind),
        )

    certified_iff : CertifiedRejectsKind ↔ HasKind p options document
    certified_iff =
        let same =
          copies_agree p options (bytes "audit repo") (Canary.new_report (bytes "audit repo")) in
        rw same (
          (λ h. kind_iff.0 ((Any-erase canary_audit.findings).0 h)),
          λ kind. (Any-erase canary_audit.findings).1 (kind_iff.1 kind),
        )

-- The tests pass on every platform whose parser finds `kind` in the table `package` of the first
-- source, and not in that of the second one.
rejects_kind :
    (p : Platform) (root : p.FilePath) (document : p.Document)
    → IsWritten p root with_kind
    → p.parse with_kind ≡ ok document
    → HasKind p (options p root) document
    → CanaryRejectsKind p root × CertifiedRejectsKind p root
rejects_kind p root document written parsed kind = (
  (kind_iff p root written document parsed).1 kind,
  (certified_iff p root written document parsed).1 kind,
)

accepts_shape :
    (p : Platform) (root : p.FilePath) (document : p.Document)
    → IsWritten p root without_kind
    → p.parse without_kind ≡ ok document
    → ¬ HasKind p (options p root) document
    → CanaryAcceptsShape p root × CertifiedAcceptsShape p root
accepts_shape p root document written parsed plain = (
  (λ h. plain ((kind_iff p root written document parsed).0 h)),
  λ h. plain ((certified_iff p root written document parsed).0 h),
)
