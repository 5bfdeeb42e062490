-- ===== src/Store.antt =====
-- src/deep_tests/contract_model.py: the reference model of the contract suite, a store with
-- idempotent commands. `json.dumps` and `hashlib.sha256` are parameters.
pub mod Change
pub mod Apply
pub mod Faults
pub mod Invariant
pub mod Snapshot
pub mod Contents
pub mod Suite
pub mod Log
pub mod Replay
pub mod Trace
use contract_conformance_tes.Base.{
  ℕ, zero, suc, ◌+◌, Bool, true, false, if◌then◌else◌, ◌&&◌, ◌||◌, ◌==◌, Option, none, some, List,
  [], ◌∷◌, ◌++◌, Result, ok, err, Text, bytes, text_eq, get, is_known, put, remove, add, discard,
  has, collect, insert_entry, keys,
}

pub record Command : Type 0 where
  pub kind : Text
  pub entity_id : Text
  pub value : Option Text
  pub idempotency_key : Text

pub record Outcome : Type 0 where
  pub revision : ℕ
  pub entity_id : Text
  pub value : Option Text
  pub deleted : Bool

-- The exceptions of `apply`: `IdempotencyConflict`, and each `ValueError`.
pub data StoreError : Type 0 where
  idempotency_conflict create_refused update_refused delete_refused : StoreError
  unknown_kind : Text → StoreError

-- `dedupe` has a fingerprint and an outcome at an idempotency key.
pub record ReferenceStore : Type 0 where
  pub values : List (Text × Text)
  pub tombstones : List Text
  pub revision : ℕ
  pub dedupe : List (Text × (Text × Outcome))
  pub history : List Outcome

-- `ReferenceStore()`
abbrev pub empty_store : ReferenceStore
empty_store = record { values = []; tombstones = []; revision = 0; dedupe = []; history = [] }

-- What the model uses of `json` and `hashlib`: `json.dumps` of an object with entity_id, kind and
-- value, and of one with revision, tombstones and values; `sha256(body).hexdigest()`.
pub record Digests : Type 0 where
  pub dumps_intent : Text → Text → Option Text → Text
  pub dumps_snapshot : ℕ → List Text → List (Text × Text) → Text
  pub sha256 : Text → Text

-- What a command with a new key does to the values and the tombstones, and whether it deletes.
-- The checks come before the first change, so an exception leaves the store as it is.
unfoldable pub change : Command → ReferenceStore → Result (ReferenceStore × Bool) StoreError
change command s =
    let known = is_known (get s.values command.entity_id) in
    if text_eq command.kind (bytes "create")
    then elim command.value [
      | none ↦ err create_refused
      | some value ↦
          if known
          then err create_refused
          else ok (
            record s {
              values = put command.entity_id value s.values;
              tombstones = discard command.entity_id s.tombstones;
            },
            false,
          )
    ]
    else if text_eq command.kind (bytes "update")
    then elim command.value [
      | none ↦ err update_refused
      | some value ↦
          if known
          then ok (record s { values = put command.entity_id value s.values }, false)
          else err update_refused
    ]
    else if text_eq command.kind (bytes "delete")
    then if known
      then ok (
        record s {
          values = remove command.entity_id s.values;
          tombstones = add command.entity_id s.tombstones;
        },
        true,
      )
      else err delete_refused
    else err (unknown_kind command.kind)

-- The end of `apply`: the next revision, with its outcome in `dedupe` and `history`.
unfoldable pub record_outcome : Text → Command → ReferenceStore → Bool → ReferenceStore × Outcome
record_outcome fingerprint command s deleted =
    let outcome : Outcome = record {
      revision = s.revision + 1;
      entity_id = command.entity_id;
      value = if deleted then none else get s.values command.entity_id;
      deleted = deleted;
    } in
    (
      record s {
        revision = s.revision + 1;
        dedupe = put command.idempotency_key (fingerprint, outcome) s.dedupe;
        history = s.history ++ outcome ∷ [];
      },
      outcome,
    )

-- `sorted(entries.items())`
unfoldable pub sorted_items : List (Text × Text) → List (Text × Text)
sorted_items [] = []
sorted_items ((key, value) ∷ entries) = insert_entry key value (sorted_items entries)

module _ (digests : Digests) where
  open digests use {dumps_intent, dumps_snapshot, sha256}

  unfoldable pub fingerprint : Command → Text
  fingerprint command = sha256 (dumps_intent command.entity_id command.kind command.value)

  -- `apply` after the checks of the key.
  unfoldable pub apply_new : ReferenceStore → Command → ReferenceStore × Result Outcome StoreError
  unfolding change record_outcome
  apply_new s command = elim (change command s) [
    | err e ↦ (s, err e)
    | ok (changed, deleted) ↦
        let (t, outcome) = record_outcome (fingerprint command) command changed deleted in
        (t, ok outcome)
  ]

  unfoldable pub apply : ReferenceStore → Command → ReferenceStore × Result Outcome StoreError
  apply s command = elim (get s.dedupe command.idempotency_key) [
    | none ↦ apply_new s command
    | some (prior_fingerprint, prior_outcome) ↦
        if text_eq prior_fingerprint (fingerprint command)
        then (s, ok prior_outcome)
        else (s, err idempotency_conflict)
  ]

  unfoldable pub snapshot : ReferenceStore → Text
  unfolding sorted_items
  snapshot s = dumps_snapshot s.revision (collect s.tombstones) (sorted_items s.values)

  -- The store after commands, where the caller goes on after an exception.
  unfoldable pub run : ReferenceStore → List Command → ReferenceStore
  unfolding apply
  run s [] = s
  run s (command ∷ commands) = run (apply s command).0 commands
