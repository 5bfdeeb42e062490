-- ===== src/Zpkg/Canary.antt =====
-- canaries/ores-cli-zpkg-kind/src: the report (model.rs) and the audit (audit/zpkg_manifest.rs).
pub mod Effect
pub mod Laws
pub mod Marks
use contract_conformance_tes.Base.{
  ℕ, Bool, true, false, not, ◌||◌, if◌then◌else◌, Option, none, some, List, [], ◌∷◌, ◌++◌, Result,
  ok, err, Text, bytes, length, insert_entry,
}
use contract_conformance_tes.Zpkg.Platform.{Metadata, Platform}

pub data Severity : Type 0 where
  info warning error : Severity

abbrev pub is_issue : Severity → Bool
is_issue info = false
is_issue _ = true

pub record Finding (Json : Type 0) : Type 0 where
  pub code : Text
  pub severity : Severity
  pub message : Text
  pub target : Option Text
  pub details : List (Text × Json)

pub record CommandReport (Json : Type 0) : Type 0 where
  pub findings : List (Finding Json)
  pub metadata : List (Text × Json)

module _ {Json : Type 0} where
  -- `Finding::new`; `Finding::info`, `warning` and `error` are its calls at a severity.
  abbrev pub new_finding : Severity → Text → Text → Finding Json
  new_finding severity code message = record {
    code = code;
    severity = severity;
    message = message;
    target = none;
    details = [];
  }

  abbrev pub with_target : Finding Json → Text → Finding Json
  with_target self target = record self { target = some target }

  abbrev pub with_detail : Finding Json → Text → Json → Finding Json
  with_detail self key value = record self { details = insert_entry key value self.details }

  -- `CommandReport::push`, `insert_metadata`, `issue_count` and `finalize`.
  abbrev pub push : CommandReport Json → Finding Json → CommandReport Json
  push self finding = record self { findings = self.findings ++ (finding ∷ []) }

  abbrev pub insert_metadata : CommandReport Json → Text → Json → CommandReport Json
  insert_metadata self key value = record self { metadata = insert_entry key value self.metadata }

  abbrev pub issues : List (Finding Json) → List (Finding Json)
  issues [] = []
  issues (finding ∷ rest) =
      let later = issues rest in if is_issue finding.severity then finding ∷ later else later

  abbrev pub issue_count : CommandReport Json → ℕ
  issue_count self = length (issues self.findings)

  abbrev pub finalize : CommandReport Json → CommandReport Json
  finalize self = self

-- `CommandReport::new`, which drops the name of the command.
abbrev pub new_report : {Json : Type 0} → Text → CommandReport Json
new_report command = record { findings = []; metadata = [] }

abbrev pub manifest : Text
manifest = bytes ".zpkg.toml"

-- The fields of `RepositoryAuditOptions` are the path, the profile and the additional paths.
pub record RepositoryAuditOptions (FilePath : Type 0) : Type 0 where
  pub path : FilePath
  pub profile : Text
  pub additional_required_paths : List Text

module _ (p : Platform) where
  open p use {
    FilePath, join, IoError, is_not_found, io_message, symlink_metadata, read_to_string, Document,
    TomlError, toml_message, parse, field, as_table, contains_key, Json, json_bool, json_text,
  }

  -- The five findings.
  abbrev pub uninspected : IoError → Finding Json
  uninspected e =
      with_target
        (new_finding warning (bytes "zpkg-manifest-unreadable")
          (bytes "could not inspect .zpkg.toml: " ++ io_message e))
        manifest

  abbrev pub not_regular : Finding Json
  not_regular =
      with_target
        (new_finding error (bytes "zpkg-manifest-not-regular")
          (bytes ".zpkg.toml must be a repository-owned regular file"))
        manifest

  abbrev pub unreadable : IoError → Finding Json
  unreadable e =
      with_target
        (new_finding error (bytes "zpkg-manifest-unreadable")
          (bytes "could not read .zpkg.toml as UTF-8: " ++ io_message e))
        manifest

  abbrev pub invalid : TomlError → Finding Json
  invalid e =
      with_target
        (new_finding error (bytes "zpkg-manifest-invalid")
          (bytes "could not parse .zpkg.toml: " ++ toml_message e))
        manifest

  abbrev pub noncanonical_kind : Finding Json
  noncanonical_kind =
      with_detail
        (with_target
          (new_finding error (bytes "zpkg-package-kind-noncanonical") (
            bytes
              "`package.kind` is not canonical Zed manifest metadata; express package role through supported targets/naming and require `zed validate` for full admission"))
          manifest)
        (bytes "field") (json_text (bytes "package.kind"))

  -- `document.get("package").and_then(Value::as_table).is_some_and(…)`
  abbrev pub has_kind : Document → Bool
  has_kind document = elim (field document (bytes "package")) [
    | none ↦ false
    | some value ↦ elim (as_table value) [
      | none ↦ false
      | some table ↦ contains_key table (bytes "kind")
    ]
  ]

  -- The audit behind the parse of the document.
  audit_document : Document → CommandReport Json → CommandReport Json
  audit_document document report =
      let inspected = insert_metadata report (bytes "zpkgManifestInspected") (json_bool true) in
      finalize (if has_kind document then push inspected noncanonical_kind else inspected)

  audit_parsed : Result Document TomlError → CommandReport Json → CommandReport Json
  audit_parsed (ok document) report = audit_document document report
  audit_parsed (err e) report = finalize (push report (invalid e))

  audit_source : Result Text IoError → CommandReport Json → CommandReport Json
  audit_source (ok source) report = audit_parsed (parse source) report
  audit_source (err e) report = finalize (push report (unreadable e))

  audit_metadata :
      Result Metadata IoError → Result Text IoError → CommandReport Json → CommandReport Json
  audit_metadata (err e) source report =
      if is_not_found e then finalize report else finalize (push report (uninspected e))
  audit_metadata (ok metadata) source report =
      if metadata.is_symlink || not metadata.is_file
      then finalize (push report not_regular)
      else audit_source source report

  unfoldable pub augment_zpkg_manifest_audit :
      RepositoryAuditOptions FilePath → CommandReport Json → CommandReport Json
  unfolding audit_document audit_parsed audit_source audit_metadata
  augment_zpkg_manifest_audit options report =
      let path = join options.path manifest in
      audit_metadata (symlink_metadata path) (read_to_string path) report
