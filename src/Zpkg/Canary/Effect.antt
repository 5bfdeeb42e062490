-- ===== src/Zpkg/Canary/Effect.antt =====
-- What the audit adds to a report, by what the platform says of the manifest.
use contract_conformance_tes.Base.{
  ◌≡◌, ◌↔◌, ◌⊎◌, inl, inr, true, false, not, ◌||◌, if◌then◌else◌, Bool-cases, Option-cases,
  Result-cases, some, ok, err, Text, bytes, arith,
}
use contract_conformance_tes.Zpkg.Platform.{Metadata, Platform}
use contract_conformance_tes.Zpkg.Canary.{
  CommandReport, push, insert_metadata, manifest, RepositoryAuditOptions, uninspected, not_regular,
  unreadable, invalid, noncanonical_kind, has_kind, augment_zpkg_manifest_audit,
}

module _ (p : Platform) (options : RepositoryAuditOptions p.FilePath) where
  open p use {
    join, IoError, is_not_found, symlink_metadata, read_to_string, Document, Table, TomlError,
    parse, field, as_table, contains_key, Json, json_bool,
  }

  -- There is no manifest.
  pub record IsAbsent : Type 0 where
    pub error : IoError
    pub failed : symlink_metadata (join options.path manifest) ≡ err error
    pub not_found : is_not_found error ≡ true

  -- The manifest is a regular file, can be read, and holds this document.
  pub record Inspects (document : Document) : Type 0 where
    pub metadata : Metadata
    pub source : Text
    pub found : symlink_metadata (join options.path manifest) ≡ ok metadata
    pub not_link : metadata.is_symlink ≡ false
    pub is_file : metadata.is_file ≡ true
    pub read : read_to_string (join options.path manifest) ≡ ok source
    pub parsed : parse source ≡ ok document

  -- The document has a table `package` with a key `kind`.
  pub record HasKind (document : Document) : Type 0 where
    pub value : Document
    pub table : Table
    pub has_package : field document (bytes "package") ≡ some value
    pub is_table : as_table value ≡ some table
    pub has_key : contains_key table (bytes "kind") ≡ true

  pub has_kind_iff : (document : Document) → (has_kind p document ≡ true) ↔ HasKind document
  has_kind_iff document = (forward, backward)
    where
      forward : has_kind p document ≡ true → HasKind document
      forward h = elim (Option-cases (field document (bytes "package"))) [
        | inl missing ↦ absurd (ground arith)
        | inr (v, found) ↦ elim (Option-cases (as_table v)) [
          | inl other ↦ absurd (ground arith)
          | inr (t, is) ↦ record {
            value = v;
            table = t;
            has_package = found;
            is_table = is;
            has_key = ground arith;
          }
        ]
      ]

      backward : HasKind document → has_kind p document ≡ true
      backward k = ground (arith, k.has_package, k.is_table, k.has_key)

  -- What the audit does, and when: the six ways that it can end.
  pub data Audited (report result : CommandReport Json) : Type 0 where
    absent : IsAbsent → result ≡ report → Audited report result
    not_inspected :
        (e : IoError)
        → symlink_metadata (join options.path manifest) ≡ err e
        → is_not_found e ≡ false
        → result ≡ push report (uninspected p e)
        → Audited report result
    irregular :
        (m : Metadata)
        → symlink_metadata (join options.path manifest) ≡ ok m
        → (m.is_symlink ≡ true) ⊎ (m.is_file ≡ false)
        → result ≡ push report (not_regular p)
        → Audited report result
    not_read :
        (m : Metadata) (e : IoError)
        → symlink_metadata (join options.path manifest) ≡ ok m
        → read_to_string (join options.path manifest) ≡ err e
        → result ≡ push report (unreadable p e)
        → Audited report result
    not_parsed :
        (m : Metadata) (source : Text) (e : TomlError)
        → symlink_metadata (join options.path manifest) ≡ ok m
        → read_to_string (join options.path manifest) ≡ ok source
        → parse source ≡ err e
        → result ≡ push report (invalid p e)
        → Audited report result
    inspected :
        (document : Document)
        → Inspects document
        → result ≡ (
            let marked = insert_metadata report (bytes "zpkgManifestInspected") (json_bool true) in
            if has_kind p document then push marked (noncanonical_kind p) else marked)
        → Audited report result

  pub augment-Audited :
      (report : CommandReport Json) → Audited report (augment_zpkg_manifest_audit p options report)
  unfolding augment_zpkg_manifest_audit
  augment-Audited report =
      let path = join options.path manifest in
      elim (Result-cases (symlink_metadata path)) [
        | inl (m, found) ↦ elim (Bool-cases (m.is_symlink || not m.is_file)) [
          | inl other ↦ irregular m found (ground arith) (rw (found, other))
          | inr regular ↦ elim (Result-cases (read_to_string path)) [
            | inl (source, read) ↦ elim (Result-cases (parse source)) [
              | inl (document, parsed) ↦
                  inspected document
                    (record {
                      metadata = m;
                      source = source;
                      found = found;
                      not_link = ground arith;
                      is_file = ground arith;
                      read = read;
                      parsed = parsed;
                    })
                    (rw (found, regular, read, parsed))
              | inr (e, refused) ↦
                  not_parsed m source e found read refused (rw (found, regular, read, refused))
            ]
            | inr (e, refused) ↦ not_read m e found refused (rw (found, regular, refused))
          ]
        ]
        | inr (e, failed) ↦ elim (Bool-cases (is_not_found e)) [
          | inl gone ↦
              absent (record { error = e; failed = failed; not_found = gone }) (rw (failed, gone))
          | inr other ↦ not_inspected e failed other (rw (failed, other))
        ]
      ]
