-- ===== src/Store/Snapshot.antt =====
-- The snapshot is canonical: it shows what the store holds, not in which order it came.
use contract_conformance_tes.Base.{
  ◌≡◌, inl, inr, refl, sym, ap, subst, compare_text-eq, ◌∙◌, Bool-cases, none, some, List, [], ◌∷◌,
  All, Text, text_eq, text_eq_iff, get, keys, is_known, is_known-get, insert_entry,
  get-insert_entry, get-insert_entry_other, place, collect, collect-IsSorted, has, has_iff,
  Has-collect, IsSorted, set_eq_iff, set_eq-eq, PrecedesText, compare_text_refl, arith,
}
use contract_conformance_tes.Store.{
  Command, ReferenceStore, Digests, sorted_items, snapshot, run, empty_store,
}
use contract_conformance_tes.Store.Invariant.{latest, value_of, is_deleted, run-empty_store-Inv}

pub get-sorted_items :
    (entries : List (Text × Text)) (name : Text)
    → get (sorted_items entries) name ≡ get entries name
unfolding sorted_items get
get-sorted_items [] name = refl
get-sorted_items ((key, value) ∷ entries) name = elim (Bool-cases (text_eq key name)) [
  | inl same ↦
      let e = (text_eq_iff key name).0 same in
      rw same (
        subst (λ n. get (insert_entry key value (sorted_items entries)) n ≡ some value) e
          (get-insert_entry key value (sorted_items entries)))
  | inr other ↦ rw other (
      get-insert_entry_other key value (sorted_items entries) name
        (λ e. ground (arith, text_eq_iff key name))
      ∙ get-sorted_items entries name)
]

keys-insert_entry :
    (key value : Text) (entries : List (Text × Text))
    → keys (insert_entry key value entries) ≡ place key (keys entries)
unfolding insert_entry place
keys-insert_entry key value [] = refl
keys-insert_entry key value ((k, v) ∷ entries) =
    let same = compare_text-eq key k in ground (arith, keys-insert_entry key value entries, same)

pub keys-sorted_items :
    (entries : List (Text × Text)) → keys (sorted_items entries) ≡ collect (keys entries)
unfolding sorted_items collect
keys-sorted_items [] = refl
keys-sorted_items ((key, value) ∷ entries) =
    keys-insert_entry key value (sorted_items entries) ∙ ap (place key) (keys-sorted_items entries)

pub sorted_items-IsSorted : (entries : List (Text × Text)) → IsSorted (keys (sorted_items entries))
sorted_items-IsSorted entries =
    subst IsSorted (sym (keys-sorted_items entries)) (collect-IsSorted (keys entries))

-- A key in front of all others is none of them.
get-front :
    (key : Text) (entries : List (Text × Text))
    → All (PrecedesText key) (keys entries)
    → get entries key ≡ none
unfolding get
get-front key [] h = refl
get-front key ((k, v) ∷ entries) (first, h) =
    ground (arith, text_eq_iff k key, compare_text_refl key, get-front key entries h)

pub same_keys-eq :
    (m n : List (Text × Text))
    → keys m ≡ keys n
    → IsSorted (keys m)
    → ((name : Text) → get m name ≡ get n name)
    → m ≡ n
unfolding get
same_keys-eq [] [] e h same = refl
same_keys-eq [] (_ ∷ n) e h same = cc
same_keys-eq (_ ∷ m) [] e h same = cc
same_keys-eq ((k, v) ∷ m) ((j, w) ∷ n) e (low, h) same =
    let first : k ≡ j = ground (arith, e) in
    let rest : keys m ≡ keys n = ground (arith, e) in
    let value : v ≡ w = ground (arith, same k, text_eq_iff k k, text_eq_iff j k) in
    let absent = get-front k n (rw rest at low) in
    let tail = same_keys-eq m n rest h (λ name.
      ground
        (arith, same name, get-front k m low, absent, text_eq_iff k name, text_eq_iff j name)) in
    ground arith

collect-eq :
    (xs ys : List Text) → ((name : Text) → has xs name ≡ has ys name) → collect xs ≡ collect ys
collect-eq xs ys same = set_eq-eq (collect xs) (collect ys) (
    (set_eq_iff (collect xs) (collect ys) (collect-IsSorted xs) (collect-IsSorted ys)).1 (λ name. (
      (λ h. (Has-collect ys name).1 (
          (has_iff ys name).0
            (rw (same name) at ((has_iff xs name).1 ((Has-collect xs name).0 h))))),
      (λ h. (Has-collect xs name).1 (
          (has_iff xs name).0
            (rw (← same name) at ((has_iff ys name).1 ((Has-collect ys name).0 h))))),
    )))

has-keys : (m : List (Text × Text)) (name : Text) → has (keys m) name ≡ is_known (get m name)
has-keys m name = elim (Bool-cases (is_known (get m name))) [
  | inl known ↦ (has_iff (keys m) name).1 ((is_known-get m name).0 known) ∙ sym known
  | inr unknown ↦ elim (Bool-cases (has (keys m) name)) [
    | inl found ↦ cc ((is_known-get m name).1 ((has_iff (keys m) name).0 found))
    | inr missing ↦ missing ∙ sym unknown
  ]
]

-- The items show the value at each key, whatever the order of the entries.
sorted_items-eq :
    (m n : List (Text × Text))
    → ((name : Text) → get m name ≡ get n name)
    → sorted_items m ≡ sorted_items n
sorted_items-eq m n same =
    let same_names =
      collect-eq (keys m) (keys n)
        (λ name. has-keys m name ∙ ap is_known (same name) ∙ sym (has-keys n name)) in
    same_keys-eq (sorted_items m) (sorted_items n)
      (keys-sorted_items m ∙ same_names ∙ sym (keys-sorted_items n)) (sorted_items-IsSorted m)
      (λ name. get-sorted_items m name ∙ same name ∙ sym (get-sorted_items n name))

module _ (digests : Digests) where
  -- Two stores have the same snapshot if their revisions, the values of all entities and the
  -- tombstones are the same, whatever the order in which they came.
  pub snapshot_canonical :
      (s t : ReferenceStore)
      → s.revision ≡ t.revision
      → ((e : Text) → get s.values e ≡ get t.values e)
      → ((e : Text) → has s.tombstones e ≡ has t.tombstones e)
      → snapshot digests s ≡ snapshot digests t
  unfolding snapshot
  snapshot_canonical s t revision values tombstones = λ i.
      digests.dumps_snapshot (revision i) (collect-eq s.tombstones t.tombstones tombstones i)
        (sorted_items-eq s.values t.values values i)

  -- Two sequences of commands from the empty store end in the same snapshot if they end at the same
  -- revision, and the last outcomes of each entity have the same value and agree on its deletion.
  pub snapshot-run :
      (commands others : List Command)
      → (run digests empty_store commands).revision ≡ (run digests empty_store others).revision
      → ((e : Text)
          → (value_of (latest e (run digests empty_store commands).history)
              ≡ value_of (latest e (run digests empty_store others).history))
            × (is_deleted (latest e (run digests empty_store commands).history)
                ≡ is_deleted (latest e (run digests empty_store others).history)))
      → snapshot digests (run digests empty_store commands)
        ≡ snapshot digests (run digests empty_store others)
  snapshot-run commands others revision same =
      let left = run-empty_store-Inv digests commands in
      let right = run-empty_store-Inv digests others in
      snapshot_canonical (run digests empty_store commands) (run digests empty_store others)
        revision (λ e. left.values e ∙ (same e).0 ∙ sym (right.values e))
        (λ e. left.tombstones e ∙ (same e).1 ∙ sym (right.tombstones e))
