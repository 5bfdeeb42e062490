-- ===== src/Examples/Stores.antt =====
-- tests/test_contract_conformance.py and tests/test_replay_stress_followup.py on the reference
-- model, with concrete functions for json, hashlib and random.
use Prim.Native.Nat.{◌*◌, ◌%◌}
use contract_conformance_tes.Base.{
  ℕ, ◌+◌, ◌≡◌, ◌↔◌, refl, false, leb, Option, none, some, List, [], ◌∷◌, ◌++◌, ok, err, Text, bytes,
  text_eq, text_eq_iff, text_eq_refl, get, put, remove, add, discard, has, arith,
}
use contract_conformance_tes.Base.Decimal.{decimal}
use contract_conformance_tes.Store.{
  Command, ReferenceStore, Digests, idempotency_conflict, empty_store, change, record_outcome,
  fingerprint, apply_new, apply, snapshot, run,
}
use contract_conformance_tes.Store.Apply.{apply-repeats}
use contract_conformance_tes.Store.Faults.{Fault, apply-Fault}
use contract_conformance_tes.Store.Invariant.{
  Inv, latest, value_of, is_deleted, run-empty_store-Inv,
}
use contract_conformance_tes.Store.Log.{log_answers, store_answers}
use contract_conformance_tes.Store.Log.Refines.{store_answers-log_answers}
use contract_conformance_tes.Store.Snapshot.{snapshot-run}
use contract_conformance_tes.Store.Replay.{replay}
use contract_conformance_tes.Store.Replay.Duplicates.{replay-duplicates}
use contract_conformance_tes.Store.Trace.{Randomizer, generate_valid_trace}
use contract_conformance_tes.Store.Trace.Accepts.{Chooses}
use contract_conformance_tes.Store.Trace.Valid.{replay-generate_valid_trace}

abbrev pub items : List (Text × Text) → Text
items [] = []
items ((key, value) ∷ entries) = key ++ (b':' ∷ (value ++ (b',' ∷ items entries)))

abbrev pub names_of : List Text → Text
names_of [] = []
names_of (name ∷ names) = name ++ (b',' ∷ names_of names)

abbrev pub text_of : Option Text → Text
text_of none = bytes "null"
text_of (some value) = value

-- Fields with separators, and no hash.
abbrev pub plain : Digests
plain = record {
  dumps_intent = λ entity_id kind value. entity_id ++ (b',' ∷ (kind ++ (b',' ∷ text_of value)));
  dumps_snapshot = λ revision tombstones values.
      decimal revision ++ (b';' ∷ (names_of tombstones ++ (b';' ∷ items values)));
  sha256 = λ body. body;
}

abbrev pub command : Text → Text → Option Text → Text → Command
command kind entity_id value key = record {
  kind = kind;
  entity_id = entity_id;
  value = value;
  idempotency_key = key;
}

abbrev pub create_a : Command
create_a = command (bytes "create") (bytes "a") (some (bytes "one")) (bytes "create-a")

abbrev create_b : Command
create_b = command (bytes "create") (bytes "b") (some (bytes "B")) (bytes "create-b")

abbrev update_a : Command
update_a = command (bytes "update") (bytes "a") (some (bytes "two")) (bytes "create-a")

abbrev delete_a : Command
delete_a = command (bytes "delete") (bytes "a") none (bytes "delete-a")

-- test_idempotency_key_reuse_with_different_intent_fails_closed
abbrev KeyReuseFailsClosed : Digests → Type 0
KeyReuseFailsClosed digests =
    (apply digests (run digests empty_store (create_a ∷ [])) update_a).1 ≡ err idempotency_conflict

key_reuse : KeyReuseFailsClosed plain
unfolding run apply apply_new change record_outcome fingerprint get put text_eq
key_reuse = refl

-- test_delete_creates_tombstone_and_duplicate_is_side_effect_free
abbrev after_delete : ReferenceStore
after_delete = run plain empty_store (create_a ∷ delete_a ∷ delete_a ∷ [])

deleted :
    (after_delete.revision ≡ 2)
    × (after_delete.tombstones ≡ bytes "a" ∷ [])
    × (after_delete.values ≡ [])
unfolding run apply apply_new change record_outcome fingerprint get put remove add has discard
    text_eq
deleted = (refl, refl, refl)

first_answer : apply plain empty_store create_a ≡ (
  run plain empty_store (create_a ∷ []),
  ok (record { revision = 1; entity_id = bytes "a"; value = some (bytes "one"); deleted = false }),
)
unfolding run apply apply_new change record_outcome fingerprint get put text_eq discard
first_answer = refl

apply-repeats_example :
    apply plain
      (run plain (run plain empty_store (create_a ∷ [])) (update_a ∷ delete_a ∷ create_b ∷ []))
      create_a
    ≡ (
      run plain (run plain empty_store (create_a ∷ [])) (update_a ∷ delete_a ∷ create_b ∷ []),
      ok (record {
        revision = 1;
        entity_id = bytes "a";
        value = some (bytes "one");
        deleted = false;
      }),
    )
apply-repeats_example =
    apply-repeats plain empty_store (run plain empty_store (create_a ∷ [])) create_a
      (record { revision = 1; entity_id = bytes "a"; value = some (bytes "one"); deleted = false })
      (update_a ∷ delete_a ∷ create_b ∷ []) first_answer

run-empty_store-Inv_example :
    Inv (run plain empty_store (create_a ∷ update_a ∷ delete_a ∷ create_a ∷ []))
run-empty_store-Inv_example =
    run-empty_store-Inv plain (create_a ∷ update_a ∷ delete_a ∷ create_a ∷ [])

replay-duplicates_example :
    replay plain (create_a ∷ create_b ∷ delete_a ∷ []) 2
    ≡ replay plain (create_a ∷ create_b ∷ delete_a ∷ []) 0
replay-duplicates_example = replay-duplicates plain 2 (create_a ∷ create_b ∷ delete_a ∷ [])

-- Two stores with the same entities, created in either order.
abbrev left : List Command
left = create_a ∷ create_b ∷ []

abbrev right : List Command
right = create_b ∷ create_a ∷ []

left_history :
    (run plain empty_store left).history
    ≡ record { revision = 1; entity_id = bytes "a"; value = some (bytes "one"); deleted = false }
      ∷ record { revision = 2; entity_id = bytes "b"; value = some (bytes "B"); deleted = false }
      ∷ []
unfolding run apply apply_new change record_outcome fingerprint get put text_eq discard
left_history = refl

right_history :
    (run plain empty_store right).history
    ≡ record { revision = 1; entity_id = bytes "b"; value = some (bytes "B"); deleted = false }
      ∷ record { revision = 2; entity_id = bytes "a"; value = some (bytes "one"); deleted = false }
      ∷ []
unfolding run apply apply_new change record_outcome fingerprint get put text_eq discard
right_history = refl

same_revision : (run plain empty_store left).revision ≡ (run plain empty_store right).revision
unfolding run apply apply_new change record_outcome fingerprint get put text_eq discard
same_revision = refl

same_latest :
    (e : Text)
    → (value_of (latest e (run plain empty_store left).history)
        ≡ value_of (latest e (run plain empty_store right).history))
      × (is_deleted (latest e (run plain empty_store left).history)
          ≡ is_deleted (latest e (run plain empty_store right).history))
same_latest e =
    rw (left_history, right_history)
      (ground (arith, text_eq_iff (bytes "a") e, text_eq_iff (bytes "b") e))

snapshot-run_instance :
    snapshot plain (run plain empty_store left) ≡ snapshot plain (run plain empty_store right)
snapshot-run_instance = snapshot-run plain left right same_revision same_latest

-- A generator that counts, and chooses the first name.
abbrev pub counting : Randomizer ℕ ℕ
counting = record {
  seeded = λ seed. seed;
  random = λ state. (state * 37 % 100, state + 1);
  is_below = λ decision hundredths. leb (decision + 1) hundredths;
  randrange = λ bound state. (state % bound, state + 1);
  choice = λ names state. elim names [ [] ↦ ([], state) | name ∷ _ ↦ (name, state + 1) ];
}

pub counting-Chooses : Chooses counting
unfolding has
counting-Chooses [] state some_names = absurd (some_names refl)
counting-Chooses (name ∷ names) state some_names = rw (text_eq_refl name) refl

replay-generate_valid_trace_example :
    (s : ReferenceStore) × (replay plain (generate_valid_trace counting 7 12) 5 ≡ ok s)
    × (s.revision ≡ 12)
    × Inv s
replay-generate_valid_trace_example =
    replay-generate_valid_trace plain counting 7 counting-Chooses 12 5

apply-Fault_example :
    (apply plain (run plain empty_store (create_a ∷ [])) update_a
      ≡ (run plain empty_store (create_a ∷ []), err idempotency_conflict))
    ↔ ((run plain empty_store (create_a ∷ []) ≡ run plain empty_store (create_a ∷ []))
        × Fault plain update_a (run plain empty_store (create_a ∷ [])) idempotency_conflict)
apply-Fault_example =
    apply-Fault plain update_a (run plain empty_store (create_a ∷ []))
      (run plain empty_store (create_a ∷ [])) idempotency_conflict

store_answers-log_answers_example :
    store_answers plain empty_store (create_a ∷ update_a ∷ create_a ∷ delete_a ∷ [])
    ≡ log_answers plain [] (create_a ∷ update_a ∷ create_a ∷ delete_a ∷ [])
store_answers-log_answers_example =
    store_answers-log_answers plain (create_a ∷ update_a ∷ create_a ∷ delete_a ∷ [])
