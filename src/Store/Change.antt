-- ===== src/Store/Change.antt =====
-- The commands on a new key: what each kind requires and does, and what it is refused for.
use contract_conformance_tes.Base.{
  ◌≡◌, ◌≢◌, ◌⊎◌, sym, subst, Bool, true, false, Bool-cases, inl, inr, none, some, Option-cases,
  Result, ok, err, Text, bytes, text_eq, text_eq_iff, get, put, remove, add, discard, is_known,
  arith,
}
use contract_conformance_tes.Store.{
  Command, StoreError, ReferenceStore, change, create_refused, update_refused, delete_refused,
  unknown_kind,
}

module _ (c : Command) (s : ReferenceStore) where
  abbrev IsLive : Bool → Type 0
  IsLive b = is_known (get s.values c.entity_id) ≡ b

  abbrev pub created_store : Text → ReferenceStore
  created_store value = record s {
    values = put c.entity_id value s.values;
    tombstones = discard c.entity_id s.tombstones;
  }

  abbrev pub updated_store : Text → ReferenceStore
  updated_store value = record s { values = put c.entity_id value s.values }

  abbrev pub deleted_store : ReferenceStore
  deleted_store = record s {
    values = remove c.entity_id s.values;
    tombstones = add c.entity_id s.tombstones;
  }

  pub data Changes : Result (ReferenceStore × Bool) StoreError → Type 0 where
    created :
        (value : Text)
        → c.kind ≡ bytes "create"
        → c.value ≡ some value
        → IsLive false
        → Changes (ok (created_store value, false))
    updated :
        (value : Text)
        → c.kind ≡ bytes "update"
        → c.value ≡ some value
        → IsLive true
        → Changes (ok (updated_store value, false))
    deleted : c.kind ≡ bytes "delete" → IsLive true → Changes (ok (deleted_store, true))
    not_created :
        c.kind ≡ bytes "create" → (c.value ≡ none) ⊎ IsLive true → Changes (err create_refused)
    not_updated :
        c.kind ≡ bytes "update" → (c.value ≡ none) ⊎ IsLive false → Changes (err update_refused)
    not_deleted : c.kind ≡ bytes "delete" → IsLive false → Changes (err delete_refused)
    unknown :
        c.kind ≢ bytes "create"
        → c.kind ≢ bytes "update"
        → c.kind ≢ bytes "delete"
        → Changes (err (unknown_kind c.kind))

  create-Changes :
      c.kind ≡ bytes "create" → text_eq c.kind (bytes "create") ≡ true → Changes (change c s)
  unfolding change
  create-Changes e k = elim (Option-cases c.value) [
    | inl v ↦
        let r : change c s ≡ err create_refused = ground arith in
        subst Changes (sym r) (not_created e (inl v))
    | inr (value, v) ↦ elim (Bool-cases (is_known (get s.values c.entity_id))) [
      | inl live ↦
          let r : change c s ≡ err create_refused = ground arith in
          subst Changes (sym r) (not_created e (inr live))
      | inr free ↦
          let r : change c s ≡ ok (created_store value, false) = ground arith in
          subst Changes (sym r) (created value e v free)
    ]
  ]

  update-Changes :
      c.kind ≡ bytes "update"
      → text_eq c.kind (bytes "create") ≡ false
      → text_eq c.kind (bytes "update") ≡ true
      → Changes (change c s)
  unfolding change
  update-Changes e n k = elim (Option-cases c.value) [
    | inl v ↦
        let r : change c s ≡ err update_refused = ground arith in
        subst Changes (sym r) (not_updated e (inl v))
    | inr (value, v) ↦ elim (Bool-cases (is_known (get s.values c.entity_id))) [
      | inl live ↦
          let r : change c s ≡ ok (updated_store value, false) = ground arith in
          subst Changes (sym r) (updated value e v live)
      | inr free ↦
          let r : change c s ≡ err update_refused = ground arith in
          subst Changes (sym r) (not_updated e (inr free))
    ]
  ]

  delete-Changes :
      c.kind ≡ bytes "delete"
      → text_eq c.kind (bytes "create") ≡ false
      → text_eq c.kind (bytes "update") ≡ false
      → text_eq c.kind (bytes "delete") ≡ true
      → Changes (change c s)
  unfolding change
  delete-Changes e n m k = elim (Bool-cases (is_known (get s.values c.entity_id))) [
    | inl live ↦ rw (n, m, k, live, change) (deleted e live)
    | inr free ↦ rw (n, m, k, free, change) (not_deleted e free)
  ]

  is_kind : (name : Text) → text_eq c.kind name ≡ true → c.kind ≡ name
  is_kind name h = (text_eq_iff c.kind name).0 h

  is_no_kind : (name : Text) → text_eq c.kind name ≡ false → c.kind ≢ name
  is_no_kind name h e = ground (arith, text_eq_iff c.kind name)

  pub change-Changes : Changes (change c s)
  unfolding change
  change-Changes = elim (Bool-cases (text_eq c.kind (bytes "create"))) [
    | inl k ↦ create-Changes (is_kind (bytes "create") k) k
    | inr n ↦ elim (Bool-cases (text_eq c.kind (bytes "update"))) [
      | inl k ↦ update-Changes (is_kind (bytes "update") k) n k
      | inr m ↦ elim (Bool-cases (text_eq c.kind (bytes "delete"))) [
        | inl k ↦ delete-Changes (is_kind (bytes "delete") k) n m k
        | inr d ↦
            rw (n, m, d, change)
              (unknown (is_no_kind (bytes "create") n) (is_no_kind (bytes "update") m)
                (is_no_kind (bytes "delete") d))
      ]
    ]
  ]

  pub change-Changed :
      (t : ReferenceStore) (d : Bool) → change c s ≡ ok (t, d) → Changes (ok (t, d))
  change-Changed t d h = rw h at change-Changes
