-- ===== src/Store/Log.antt =====
-- What the store promises, said of a log of its outcomes alone: there are no values, tombstones or
-- revisions to keep, an entity is what its last outcome says.
pub mod Effects
pub mod Refines
use contract_conformance_tes.Base.{
  ℕ, ◌+◌, Bool, true, false, if◌then◌else◌, Option, none, some, List, [], ◌∷◌, ◌++◌, map, length,
  Result, ok, err, Text, bytes, text_eq, is_known,
}
use contract_conformance_tes.Store.{
  Command, Outcome, StoreError, idempotency_conflict, create_refused, update_refused,
  delete_refused, unknown_kind, Digests, fingerprint, ReferenceStore, apply,
}
use contract_conformance_tes.Store.Invariant.{latest, value_of}

-- An outcome, with the key and the fingerprint of its command.
pub record Entry : Type 0 where
  pub key : Text
  pub digest : Text
  pub outcome : Outcome

abbrev pub outcomes : List Entry → List Outcome
outcomes [] = []
outcomes (entry ∷ log) = entry.outcome ∷ outcomes log

-- The entry of a key.
abbrev pub find : Text → List Entry → Option (Text × Outcome)
find key [] = none
find key (entry ∷ log) =
    let rest = find key log in
    if text_eq entry.key key then some (entry.digest, entry.outcome) else rest

abbrev pub is_live : Text → List Entry → Bool
is_live entity_id log = is_known (value_of (latest entity_id (outcomes log)))

-- The value that a command leaves, and whether it deletes.
unfoldable pub effect : Command → List Entry → Result (Option Text × Bool) StoreError
effect command log =
    let live = is_live command.entity_id log in
    if text_eq command.kind (bytes "create")
    then elim command.value [
      | none ↦ err create_refused
      | some value ↦ if live then err create_refused else ok (some value, false)
    ]
    else if text_eq command.kind (bytes "update")
    then elim command.value [
      | none ↦ err update_refused
      | some value ↦ if live then ok (some value, false) else err update_refused
    ]
    else if text_eq command.kind (bytes "delete")
    then if live then ok (none, true) else err delete_refused
    else err (unknown_kind command.kind)

module _ (digests : Digests) where
  abbrev pub entry_of : Command → List Entry → Option Text → Bool → Entry
  entry_of command log value deleted = record {
    key = command.idempotency_key;
    digest = fingerprint digests command;
    outcome = record {
      revision = length log + 1;
      entity_id = command.entity_id;
      value = value;
      deleted = deleted;
    };
  }

  unfoldable pub append : List Entry → Command → List Entry × Result Outcome StoreError
  append log command = elim (find command.idempotency_key log) [
    | some (digest, outcome) ↦
        if text_eq digest (fingerprint digests command)
        then (log, ok outcome)
        else (log, err idempotency_conflict)
    | none ↦ elim (effect command log) [
      | err e ↦ (log, err e)
      | ok (value, deleted) ↦
          let entry = entry_of command log value deleted in (log ++ entry ∷ [], ok entry.outcome)
    ]
  ]

  -- The answers to commands, of a log and of a store.
  unfoldable pub log_answers : List Entry → List Command → List (Result Outcome StoreError)
  unfolding append
  log_answers log [] = []
  log_answers log (command ∷ commands) =
      let (next, answer) = append log command in answer ∷ log_answers next commands

  unfoldable pub store_answers : ReferenceStore → List Command → List (Result Outcome StoreError)
  unfolding apply
  store_answers s [] = []
  store_answers s (command ∷ commands) =
      let (next, answer) = apply digests s command in answer ∷ store_answers next commands
