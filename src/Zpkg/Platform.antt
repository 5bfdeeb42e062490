-- ===== src/Zpkg/Platform.antt =====
-- What the audit calls and does not implement: `std::fs`, `std::path`, `toml::Value`,
-- `serde_json::Value`. The audit relies on no law of these beyond their types.
use contract_conformance_tes.Base.{Bool, Option, Result, Text}

pub record Metadata : Type 0 where
  pub is_symlink : Bool
  pub is_file : Bool

pub record Platform : Type 1 where
  pub FilePath : Type 0
  pub join : FilePath → Text → FilePath
  pub IoError : Type 0
  pub is_not_found : IoError → Bool
  pub io_message : IoError → Text
  pub symlink_metadata : FilePath → Result Metadata IoError
  pub read_to_string : FilePath → Result Text IoError
  -- `toml::Value`, its table type, and the error of its parser.
  pub Document : Type 0
  pub Table : Type 0
  pub TomlError : Type 0
  pub toml_message : TomlError → Text
  pub parse : Text → Result Document TomlError
  pub field : Document → Text → Option Document
  pub as_table : Document → Option Table
  pub contains_key : Table → Text → Bool
  -- `serde_json::Value`, and `json!` at a Boolean and at a text.
  pub Json : Type 0
  pub json_bool : Bool → Json
  pub json_text : Text → Json
