-- ===== src/Store/Invariant.antt =====
-- What holds of the store after any commands: it is the sum of its history.
use contract_conformance_tes.Base.{
  ℕ, ◌+◌, ◌≡◌, if◌then◌else◌, refl, ap, Bool, true, false, not, Option, none, some, List, [], ◌∷◌,
  ◌++◌, length, Result, ok, Text, text_eq, text_eq_iff, text_eq_refl, get, get-put, get-remove, has,
  has-add, has-discard, is_known, arith,
}
use contract_conformance_tes.Store.{
  Command, Outcome, StoreError, ReferenceStore, Digests, change, record_outcome, fingerprint, apply,
  run, empty_store,
}
use contract_conformance_tes.Store.Change.{Changes, created, updated, deleted, change-Changed}
use contract_conformance_tes.Store.Apply.{
  Applied, repeated, conflicting, refused, recorded, record_outcome_lem, change-keeps,
  apply-Applied,
}

-- The last outcome of an entity.
abbrev pub latest : Text → List Outcome → Option Outcome
latest entity_id [] = none
latest entity_id (o ∷ history) = elim (latest entity_id history) [
  | some later ↦ some later
  | none ↦ if text_eq o.entity_id entity_id then some o else none
]

-- What it leaves of the entity: its value, and whether it is deleted.
abbrev pub value_of : Option Outcome → Option Text
value_of none = none
value_of (some o) = o.value

abbrev pub is_deleted : Option Outcome → Bool
is_deleted none = false
is_deleted (some o) = o.deleted

-- n + 1, n + 2 and so on, as many as there are.
abbrev pub IsNumbered : ℕ → List Outcome → Type 0
IsNumbered n [] = Unit
IsNumbered n (o ∷ history) = (o.revision ≡ n + 1) × IsNumbered (n + 1) history

pub record Inv (s : ReferenceStore) : Type 0 where
  pub revisions : s.revision ≡ length s.history
  pub numbered : IsNumbered 0 s.history
  pub values : (e : Text) → get s.values e ≡ value_of (latest e s.history)
  pub tombstones : (e : Text) → has s.tombstones e ≡ is_deleted (latest e s.history)
  pub apart : (e : Text) → is_known (get s.values e) ≡ true → has s.tombstones e ≡ false

latest-append :
    (e : Text) (history : List Outcome) (o : Outcome)
    → latest e (history ++ o ∷ []) ≡ (if text_eq o.entity_id e then some o else latest e history)
latest-append e [] o = ground arith
latest-append e (p ∷ history) o = ground (arith, latest-append e history o)

IsNumbered-append :
    (n : ℕ) (history : List Outcome) (o : Outcome)
    → IsNumbered n history
    → o.revision ≡ n + length history + 1
    → IsNumbered n (history ++ o ∷ [])
IsNumbered-append n [] o h e = (omega arith, tt)
IsNumbered-append n (p ∷ history) o (first, h) e =
    (first, IsNumbered-append (n + 1) history o h (omega arith))

length-append_one :
    (history : List Outcome) (o : Outcome) → length (history ++ o ∷ []) ≡ length history + 1
length-append_one [] o = omega arith
length-append_one (p ∷ history) o = omega (arith, length-append_one history o)

-- What a change does at each entity.
change_views :
    (c : Command) (s t : ReferenceStore) (d : Bool) (e : Text)
    → Inv s
    → Changes c s (ok (t, d))
    → (get t.values e ≡ (
        if text_eq c.entity_id e
        then (if d then none else get t.values c.entity_id)
        else get s.values e))
      × (has t.tombstones e ≡ (if text_eq c.entity_id e then d else has s.tombstones e))
      × (is_known (get t.values c.entity_id) ≡ not d)
change_views c s t d e inv (created value _ _ free) = ground (
  arith,
  get-put c.entity_id value s.values e,
  get-put c.entity_id value s.values c.entity_id,
  has-discard c.entity_id s.tombstones e,
  text_eq_iff c.entity_id e,
  text_eq_refl c.entity_id,
)
change_views c s t d e inv (updated value _ _ live) = ground (
  arith,
  get-put c.entity_id value s.values e,
  get-put c.entity_id value s.values c.entity_id,
  inv.apart c.entity_id live,
  text_eq_iff c.entity_id e,
  text_eq_refl c.entity_id,
)
change_views c s t d e inv (deleted _ live) = ground (
  arith,
  get-remove c.entity_id s.values e,
  get-remove c.entity_id s.values c.entity_id,
  has-add c.entity_id s.tombstones e,
  text_eq_iff c.entity_id e,
  text_eq_refl c.entity_id,
)

-- The next outcome at the end of the history.
recorded-Inv :
    (digest : Text) (c : Command) (s changed t : ReferenceStore) (d : Bool) (o : Outcome)
    → Inv s
    → change c s ≡ ok (changed, d)
    → record_outcome digest c changed d ≡ (t, o)
    → Inv t
recorded-Inv digest c s changed t d o inv done end =
    let (stored, said) = record_outcome_lem digest c changed t d o end in
    let (same_revision, _, same_history) = change-keeps c s changed d done in
    let views =
      λ (e : Text). change_views c s changed d e inv (change-Changed c s changed d done) in
    let history : t.history ≡ s.history ++ o ∷ [] =
      ground (arith, ap ReferenceStore.history stored) in
    let values : t.values ≡ changed.values = ap ReferenceStore.values stored in
    let tombstones : t.tombstones ≡ changed.tombstones = ap ReferenceStore.tombstones stored in
    let revision : t.revision ≡ s.revision + 1 =
      ground (arith, ap ReferenceStore.revision stored) in
    record {
      revisions =
          rw history (omega (arith, revision, inv.revisions, length-append_one s.history o));
      numbered = rw history (
          IsNumbered-append 0 s.history o inv.numbered
            (ground (arith, ap Outcome.revision said, inv.revisions)));
      values = λ e.
          rw (history, values)
            (ground (
              arith,
              views e,
              latest-append e s.history o,
              inv.values e,
              ap Outcome.entity_id said,
              ap Outcome.value said,
            ));
      tombstones = λ e.
          rw (history, tombstones)
            (ground (
              arith,
              views e,
              latest-append e s.history o,
              inv.tombstones e,
              ap Outcome.entity_id said,
              ap Outcome.deleted said,
            ));
      apart = λ e live.
          rw tombstones (ground (arith, views e, inv.apart e, values, text_eq_iff c.entity_id e));
    }

pub empty_store-Inv : Inv empty_store
unfolding get has
empty_store-Inv = record {
  revisions = refl;
  numbered = tt;
  values = λ e. refl;
  tombstones = λ e. refl;
  apart = λ e live. refl;
}

module _ (digests : Digests) where
  pub Applied-Inv :
      (s t : ReferenceStore) (c : Command) (r : Result Outcome StoreError)
      → Inv s
      → Applied digests s c t r
      → Inv t
  Applied-Inv s t c r inv (repeated o known) = inv
  Applied-Inv s t c r inv (conflicting prior o known other) = inv
  Applied-Inv s t c r inv (refused e fresh failed) = inv
  Applied-Inv s t c r inv (recorded changed u d o fresh done end) =
      recorded-Inv (fingerprint digests c) c s changed u d o inv done end

  pub run-Inv :
      (s : ReferenceStore) (commands : List Command) → Inv s → Inv (run digests s commands)
  unfolding run
  run-Inv s [] inv = inv
  run-Inv s (c ∷ commands) inv =
      run-Inv (apply digests s c).0 commands (
        Applied-Inv s (apply digests s c).0 c (apply digests s c).1 inv (apply-Applied digests s c))

  -- After any commands, failed ones included, the store is the sum of its history: the revision
  -- is its length, its outcomes are numbered from 1, an entity has the value of its last outcome,
  -- it is a tombstone exactly if that outcome deletes it, and no tombstone has a value.
  pub run-empty_store-Inv : (commands : List Command) → Inv (run digests empty_store commands)
  run-empty_store-Inv commands = run-Inv empty_store commands empty_store-Inv
