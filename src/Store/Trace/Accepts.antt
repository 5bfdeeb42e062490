-- ===== src/Store/Trace/Accepts.antt =====
-- The store accepts each command that the generator makes.
use contract_conformance_tes.Base.{
  ℕ, ◌+◌, ◌≤◌, ◌≡◌, ◌≢◌, inl, inr, refl, sym, ◌∙◌, Bool, true, false, Bool-cases, none, some, List,
  [], ◌∷◌, ok, Text, bytes, text_eq, text_eq_iff, get, get-put, get-remove, is_known, has, has_iff,
  Has-collect, collect, has-add, has-discard, arith,
}
use contract_conformance_tes.Store.{
  Command, Outcome, ReferenceStore, Digests, change, apply, fingerprint,
}
use contract_conformance_tes.Store.Apply.{apply_fresh}
use contract_conformance_tes.Store.Change.{created_store, updated_store, deleted_store}
use contract_conformance_tes.Store.Trace.{
  Randomizer, Generator, entity_name, step_key, value_name, no_names, create_command,
  update_command, delete_command, next_command,
}
use contract_conformance_tes.Store.Trace.Names.{entity_name-ne, step_key-ne}

-- The library chooses one of the names that it is given.
abbrev pub Chooses : {State Float : Type 0} → Randomizer State Float → Type 0
Chooses {State} library =
    (names : List Text) (r : State) → names ≢ [] → has names (library.choice names r).0 ≡ true

-- What the generator knows of the store: which entities are live, and which names are unused.
pub record Ready {State : Type 0} (seed index : ℕ) (g : Generator State) (s : ReferenceStore)
    : Type 0 where
  pub live : (e : Text) → has g.live e ≡ is_known (get s.values e)
  pub unused_names : (j : ℕ) → g.next_id ≤ j → get s.values (entity_name seed j) ≡ none
  pub unused_keys : (j : ℕ) → index ≤ j → get s.dedupe (step_key seed j) ≡ none

change-create :
    (c : Command) (s : ReferenceStore) (value : Text)
    → c.kind ≡ bytes "create"
    → c.value ≡ some value
    → get s.values c.entity_id ≡ none
    → change c s ≡ ok (created_store c s value, false)
unfolding change text_eq
change-create c s value kind given free = ground arith

change-update :
    (c : Command) (s : ReferenceStore) (value : Text)
    → c.kind ≡ bytes "update"
    → c.value ≡ some value
    → is_known (get s.values c.entity_id) ≡ true
    → change c s ≡ ok (updated_store c s value, false)
unfolding change text_eq
change-update c s value kind given live = ground arith

change-delete :
    (c : Command) (s : ReferenceStore)
    → c.kind ≡ bytes "delete"
    → is_known (get s.values c.entity_id) ≡ true
    → change c s ≡ ok (deleted_store c s, true)
unfolding change text_eq
change-delete c s kind live = ground arith

collect-ne : (names : List Text) → no_names names ≡ false → collect names ≢ []
collect-ne [] h e = cc
collect-ne (x ∷ names) h e = rw e at ((Has-collect (x ∷ names) x).1 (inl refl))

module _ (digests : Digests) {State Float : Type 0} (library : Randomizer State Float)
    (seed : ℕ) where
  open library use {random, choice, is_below}

  -- The store accepts a command, and the generator knows the next store too.
  abbrev pub Accepted : ℕ → Generator State → ReferenceStore → Command → Type 0
  Accepted index g s c =
      (t : ReferenceStore) × (o : Outcome) × (apply digests s c ≡ (t, ok o))
      × Ready seed (index + 1) g t
      × (t.revision ≡ s.revision + 1)

  accepted :
      (index : ℕ) (g g' : Generator State) (s u : ReferenceStore) (c : Command) (d : Bool)
      → Ready seed index g s
      → c.idempotency_key ≡ step_key seed index
      → change c s ≡ ok (u, d)
      → ((e : Text) → has g'.live e ≡ is_known (get u.values e))
      → ((j : ℕ) → g'.next_id ≤ j → get u.values (entity_name seed j) ≡ none)
      → Accepted index g' s c
  unfolding fingerprint
  accepted index g g' s u c d ready key done live unused =
      let (t, o, applied, values, dedupe, revision) =
        apply_fresh digests s u c d (rw key (ready.unused_keys index (omega arith))) done in
      (
        t,
        o,
        applied,
        record {
          live = rw values live;
          unused_names = rw values unused;
          unused_keys = λ j h.
              rw (dedupe, key)
                (get-put (step_key seed index) (fingerprint digests c, o) s.dedupe (step_key seed j)
                  ∙ rw (step_key-ne seed index j (omega arith))
                      (ready.unused_keys j (omega arith)));
        },
        revision,
      )

  create-Accepted :
      (index : ℕ) (g : Generator State) (r : State) (s : ReferenceStore)
      → Ready seed index g s
      → Accepted index
          (create_command library seed index g r).1
          s
          (create_command library seed index g r).0
  create-Accepted index g r s ready =
      let entity = entity_name seed g.next_id in
      let (c, g') = create_command library seed index g r in
      let value = value_name (library.randrange 1000000 r).0 in
      accepted index g g' s (created_store c s value) c false ready refl
        (change-create c s value refl refl (ready.unused_names g.next_id (omega arith)))
        (λ e.
          ground (arith, has-add entity g.live e, get-put entity value s.values e, ready.live e))
        (λ j h.
          get-put entity value s.values (entity_name seed j)
          ∙ rw (entity_name-ne seed g.next_id j (omega arith)) (ready.unused_names j (omega arith)))

  module _ (chooses : Chooses library) where
    choice-live :
        (index : ℕ) (g : Generator State) (r : State) (s : ReferenceStore)
        → Ready seed index g s
        → no_names g.live ≡ false
        → is_known (get s.values (choice (collect g.live) r).0) ≡ true
    choice-live index g r s ready some_live =
        let e = (choice (collect g.live) r).0 in
        let among = chooses (collect g.live) r (collect-ne g.live some_live) in
        let member = (Has-collect g.live e).0 ((has_iff (collect g.live) e).0 among) in
        sym (ready.live e) ∙ (has_iff g.live e).1 member

    update-Accepted :
        (index : ℕ) (g : Generator State) (r : State) (s : ReferenceStore)
        → Ready seed index g s
        → no_names g.live ≡ false
        → Accepted index
            (update_command library seed index g r).1
            s
            (update_command library seed index g r).0
    update-Accepted index g r s ready some_live =
        let (c, g') = update_command library seed index g r in
        let entity = (choice (collect g.live) r).0 in
        let value = value_name (library.randrange 1000000 (choice (collect g.live) r).1).0 in
        let live = choice-live index g r s ready some_live in
        accepted index g g' s (updated_store c s value) c false ready refl
          (change-update c s value refl refl live)
          (λ e.
            ground
              (arith, get-put entity value s.values e, ready.live e, text_eq_iff entity e, live))
          (λ j h. ground (
            arith,
            get-put entity value s.values (entity_name seed j),
            ready.unused_names j h,
            text_eq_iff entity (entity_name seed j),
            live,
          ))

    delete-Accepted :
        (index : ℕ) (g : Generator State) (r : State) (s : ReferenceStore)
        → Ready seed index g s
        → no_names g.live ≡ false
        → Accepted index
            (delete_command library seed index g r).1
            s
            (delete_command library seed index g r).0
    delete-Accepted index g r s ready some_live =
        let (c, g') = delete_command library seed index g r in
        let entity = (choice (collect g.live) r).0 in
        accepted index g g' s (deleted_store c s) c true ready refl
          (change-delete c s refl (choice-live index g r s ready some_live))
          (λ e.
            ground (arith, has-discard entity g.live e, get-remove entity s.values e, ready.live e))
          (λ j h.
            ground (arith, get-remove entity s.values (entity_name seed j), ready.unused_names j h))

    pub next_command-Accepted :
        (index : ℕ) (g : Generator State) (s : ReferenceStore)
        → Ready seed index g s
        → Accepted index
            (next_command library seed index g).1
            s
            (next_command library seed index g).0
    unfolding next_command
    next_command-Accepted index g s ready =
        let (decision, r) = random g.randomizer in
        elim (Bool-cases (no_names g.live)) [
          | inl empty ↦ rw (empty, next_command) (create-Accepted index g r s ready)
          | inr some_live ↦ elim (Bool-cases (is_below decision 36)) [
            | inl low ↦ rw (some_live, low, next_command) (create-Accepted index g r s ready)
            | inr high ↦ elim (Bool-cases (is_below decision 79)) [
              | inl middle ↦
                  rw (some_live, high, middle, next_command)
                    (update-Accepted index g r s ready some_live)
              | inr above ↦
                  rw (some_live, high, above, next_command)
                    (delete-Accepted index g r s ready some_live)
            ]
          ]
        ]
