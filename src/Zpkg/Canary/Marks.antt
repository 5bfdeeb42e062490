-- ===== src/Zpkg/Canary/Marks.antt =====
-- The metadata of an audited report: whether the manifest was inspected.
use contract_conformance_tes.Base.{
  ◌≡◌, ◌≢◌, inl, inr, refl, ap, Bool-cases, some, Text, bytes, get, get-insert_entry,
  get-insert_entry_other, arith, if◌then◌else◌, true,
}
use contract_conformance_tes.Zpkg.Platform.{Platform}
use contract_conformance_tes.Zpkg.Canary.{
  CommandReport, insert_metadata, push, noncanonical_kind, RepositoryAuditOptions, has_kind,
  augment_zpkg_manifest_audit,
}
use contract_conformance_tes.Zpkg.Canary.Effect.{
  Inspects, Audited, absent, not_inspected, irregular, not_read, not_parsed, inspected,
  augment-Audited,
}

abbrev pub mark : Text
mark = bytes "zpkgManifestInspected"

module _ (p : Platform) (options : RepositoryAuditOptions p.FilePath)
    (report : CommandReport p.Json) where
  -- The metadata says that the manifest was inspected, or is what it was.
  pub data Marks (result : CommandReport p.Json) : Type 0 where
    marked :
        (document : p.Document)
        → Inspects p options document
        → get result.metadata mark ≡ some (p.json_bool true)
        → ((key : Text) → mark ≢ key → get result.metadata key ≡ get report.metadata key)
        → Marks result
    unmarked :
        ((document : p.Document) → ¬ Inspects p options document)
        → result.metadata ≡ report.metadata
        → Marks result

  -- The metadata behind the parse, with a finding or without.
  document_metadata :
      (document : p.Document) (result : CommandReport p.Json)
      → result ≡ (
          let inspected = insert_metadata report mark (p.json_bool true) in
          if has_kind p document then push inspected (noncanonical_kind p) else inspected)
      → result.metadata ≡ (insert_metadata report mark (p.json_bool true)).metadata
  document_metadata document result same = elim (Bool-cases (has_kind p document)) [
    | inl kind ↦ rw (same, kind) refl
    | inr plain ↦ rw (same, plain) refl
  ]

  Audited-Marks : (result : CommandReport p.Json) → Audited p options report result → Marks result
  Audited-Marks result (absent gone same) =
      unmarked (λ d seen. ground (arith, gone.failed, seen.found)) (ap (λ r. r.metadata) same)
  Audited-Marks result (not_inspected e failed other same) =
      unmarked (λ d seen. ground (arith, seen.found)) (ap (λ r. r.metadata) same)
  Audited-Marks result (irregular m found other same) =
      unmarked (λ d seen. ground (arith, seen.found, seen.not_link, seen.is_file))
        (ap (λ r. r.metadata) same)
  Audited-Marks result (not_read m e found refused same) =
      unmarked (λ d seen. ground (arith, seen.read)) (ap (λ r. r.metadata) same)
  Audited-Marks result (not_parsed m source e found read refused same) =
      unmarked (λ d seen. ground (arith, seen.read, seen.parsed)) (ap (λ r. r.metadata) same)
  Audited-Marks result (inspected document seen same) =
      let stored = document_metadata document result same in
      marked document seen (rw stored (get-insert_entry mark (p.json_bool true) report.metadata))
        (λ key n. rw stored (get-insert_entry_other mark (p.json_bool true) report.metadata key n))

  -- The audit marks the metadata exactly when the manifest is a regular file that can be read and
  -- parsed: `zpkgManifestInspected` is then true and every other entry as before; otherwise the
  -- metadata is unchanged.
  pub augment-Marks : Marks (augment_zpkg_manifest_audit p options report)
  augment-Marks = Audited-Marks _ (augment-Audited p options report)
