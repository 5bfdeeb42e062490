-- ===== src/Zpkg/Agreement.antt =====
-- The two copies of the audit agree, up to the severities and the command.
use mathlib.Core.List.{map-append}
use contract_conformance_tes.Base.{
  ◌≡◌, sym, not, ◌||◌, Bool-cases, Result-cases, inl, inr, map, Text,
}
use contract_conformance_tes.Zpkg.Platform.{Platform}
use contract_conformance_tes.Zpkg.Canary
use contract_conformance_tes.Zpkg.Certified

-- A finding and a report without severities; the command is what the certified copy adds.
abbrev pub erase : {Json : Type 0} → Canary.Finding Json → Certified.Finding Json
erase f = record { code = f.code; message = f.message; target = f.target; details = f.details }

abbrev pub erase_report :
    {Json : Type 0} → Text → Canary.CommandReport Json → Certified.CommandReport Json
erase_report command r = record {
  command = command;
  findings = map erase r.findings;
  metadata = r.metadata;
}

abbrev pub certified_options :
    {FilePath : Type 0}
    → Canary.RepositoryAuditOptions FilePath
    → Certified.RepositoryAuditOptions FilePath
certified_options o = record {
  path = o.path;
  profile = o.profile;
  additional_required_paths = o.additional_required_paths;
}

erase-push :
    {Json : Type 0} (command : Text) (r : Canary.CommandReport Json) (f : Canary.Finding Json)
    → erase_report command (Canary.push r f) ≡ Certified.push (erase_report command r) (erase f)
erase-push command r f = rw map-append

module _ (p : Platform) (options : Canary.RepositoryAuditOptions p.FilePath) (command : Text)
    (report : Canary.CommandReport p.Json) where
  -- The certified audit of a report without severities is the canary's audit without severities:
  -- the same findings in the same order, and the same metadata.
  pub copies_agree :
      Certified.run_zpkg_manifest_audit p (certified_options options) (erase_report command report)
      ≡ erase_report command (Canary.augment_zpkg_manifest_audit p options report)
  unfolding Certified.run_zpkg_manifest_audit Canary.augment_zpkg_manifest_audit
  copies_agree =
      let path = p.join options.path Canary.manifest in
      elim (Result-cases (p.symlink_metadata path)) [
        | inl (m, found) ↦ elim (Bool-cases (m.is_symlink || not m.is_file)) [
          | inl other ↦ rw (found, other) (sym (erase-push command report _))
          | inr regular ↦ elim (Result-cases (p.read_to_string path)) [
            | inl (source, read) ↦ elim (Result-cases (p.parse source)) [
              | inl (document, parsed) ↦ elim (Bool-cases (Canary.has_kind p document)) [
                | inl kind ↦ rw (found, regular, read, parsed, kind) (sym (erase-push command _ _))
                | inr plain ↦ rw (found, regular, read, parsed, plain)
              ]
              | inr (e, refused) ↦
                  rw (found, regular, read, refused) (sym (erase-push command report _))
            ]
            | inr (e, refused) ↦ rw (found, regular, refused) (sym (erase-push command report _))
          ]
        ]
        | inr (e, failed) ↦ elim (Bool-cases (p.is_not_found e)) [
          | inl gone ↦ rw (failed, gone)
          | inr other ↦ rw (failed, other) (sym (erase-push command report _))
        ]
      ]
