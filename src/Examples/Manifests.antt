-- ===== src/Examples/Manifests.antt =====
-- The audit over a platform with one repository, whose manifest has a `package.kind`.
use contract_conformance_tes.Base.{
  ◌≡◌, ◌↔◌, refl, Bool, true, false, if◌then◌else◌, Option, none, some, List, [], ◌∷◌, ◌++◌, any,
  Any, ok, err, Text, bytes, text_eq,
}
use contract_conformance_tes.Zpkg.Agreement.{erase_report, certified_options, copies_agree}
use contract_conformance_tes.Zpkg.Canary.{
  CommandReport, new_report, RepositoryAuditOptions, augment_zpkg_manifest_audit, issue_count,
}
use contract_conformance_tes.Zpkg.Canary.Effect.{Inspects, HasKind}
use contract_conformance_tes.Zpkg.Canary.Laws.{
  IsKindFinding, augment-rejects_kind, Keeps, augment-Keeps,
}
use contract_conformance_tes.Zpkg.Canary.Marks.{Marks, augment-Marks}
use contract_conformance_tes.Zpkg.Certified.{run_zpkg_manifest_audit}
use contract_conformance_tes.Zpkg.Platform.{Platform}

-- A document is a table of tables, of which only the keys are kept.
data Toml : Type 0 where
  root : List (Text × List Text) → Toml
  table : List Text → Toml

abbrev find_table : List (Text × List Text) → Text → Option Toml
find_table [] key = none
find_table ((k, keys) ∷ tables) key =
    let rest = find_table tables key in if text_eq k key then some (table keys) else rest

abbrev field_of : Toml → Text → Option Toml
field_of (root tables) key = find_table tables key
field_of (table keys) key = none

abbrev keys_of : Toml → Option (List Text)
keys_of (root tables) = none
keys_of (table keys) = some keys

data Json : Type 0 where
  flag : Bool → Json
  text : Text → Json

-- An error says whether it is `NotFound`. Every manifest parses to the same document.
abbrev desk : Platform
desk = record {
  FilePath = Text;
  join = λ path name. path ++ (b'/' ∷ name);
  IoError = Bool;
  is_not_found = λ e. e;
  io_message = λ e. bytes "failed";
  symlink_metadata = λ path.
      if text_eq path (bytes "repo/.zpkg.toml")
      then ok (record { is_symlink = false; is_file = true })
      else err true;
  read_to_string = λ path. ok (bytes "[package]\nkind = 1\n");
  Document = Toml;
  Table = List Text;
  TomlError = Unit {0};
  toml_message = λ e. bytes "bad";
  parse = λ source. ok (root ((bytes "package", bytes "kind" ∷ []) ∷ []));
  field = field_of;
  as_table = keys_of;
  contains_key = λ keys key. any (λ k. text_eq k key) keys;
  Json = Json;
  json_bool = flag;
  json_text = text;
}

abbrev repo : RepositoryAuditOptions Text
repo = record { path = bytes "repo"; profile = bytes "baseline"; additional_required_paths = [] }

abbrev elsewhere : RepositoryAuditOptions Text
elsewhere = record repo { path = bytes "elsewhere" }

abbrev fresh : CommandReport Json
fresh = new_report (bytes "audit repo")

counts :
    (issue_count (augment_zpkg_manifest_audit desk repo fresh) ≡ 1)
    × (augment_zpkg_manifest_audit desk elsewhere fresh ≡ fresh)
unfolding augment_zpkg_manifest_audit text_eq
counts = (refl, refl)

augment-rejects_kind_example :
    Any IsKindFinding (augment_zpkg_manifest_audit desk repo fresh).findings
    ↔ ((document : Toml) × Inspects desk repo document × HasKind desk repo document)
augment-rejects_kind_example = augment-rejects_kind desk repo fresh (λ x. x)

augment-Keeps_example : Keeps fresh (augment_zpkg_manifest_audit desk repo fresh)
augment-Keeps_example = augment-Keeps desk repo fresh

copies_agree_example :
    run_zpkg_manifest_audit desk (certified_options repo) (erase_report (bytes "audit repo") fresh)
    ≡ erase_report (bytes "audit repo") (augment_zpkg_manifest_audit desk repo fresh)
copies_agree_example = copies_agree desk repo (bytes "audit repo") fresh

augment-Marks_instance : Marks desk repo fresh (augment_zpkg_manifest_audit desk repo fresh)
augment-Marks_instance = augment-Marks desk repo fresh
