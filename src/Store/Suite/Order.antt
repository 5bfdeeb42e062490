-- ===== src/Store/Suite/Order.antt =====
-- The test on the order of insertion: entities that are created in any order give one snapshot.
use mathlib.Core.List.{Permᴰ, Perm}
use mathlib.Core.Logic.{∥∥₁_elim}
use contract_conformance_tes.Base.{
  inl, inr, text_eq_ne, Bool-cases, Option-cases, is_known-get, ◌+◌, ◌≡◌, ◌≢◌, refl, sym, ap, ◌∙◌,
  false, if◌then◌else◌, Option, none, some, List, [], ◌∷◌, ◌++◌, All, length, Text, bytes, text_eq,
  text_eq_iff, get, get-put, put, discard, has, has-discard, Has, keys, Distinct, Distinct-Permᴰ,
  arith,
}
use contract_conformance_tes.Store.{
  Command, Outcome, ReferenceStore, Digests, fingerprint, change, record_outcome, apply_new, apply,
  empty_store, run, snapshot,
}
use contract_conformance_tes.Store.Snapshot.{snapshot_canonical}

abbrev pub create : Text → Text → Text → Command
create entity_id value key = record {
  kind = bytes "create";
  entity_id = entity_id;
  value = some value;
  idempotency_key = key;
}

-- The creations of entities with values, with keys made from the entities.
abbrev pub creates : (Text → Text) → List (Text × Text) → List Command
creates key [] = []
creates key ((e, v) ∷ entries) = create e v (key e) ∷ creates key entries

-- What is created is found, and what is not is as it was.
over : Option Text → Option Text → Option Text
over (some v) before = some v
over none before = before

-- What a permutation of entries keeps: the names, the number, and what is found.
keys-Permᴰ : {xs ys : List (Text × Text)} → Permᴰ xs ys → Permᴰ (keys xs) (keys ys)
keys-Permᴰ Permᴰ.nil = Permᴰ.nil
keys-Permᴰ (Permᴰ.cons e p) = Permᴰ.cons (ap (λ x. x.0) e) (keys-Permᴰ p)
keys-Permᴰ (Permᴰ.swap e f) = Permᴰ.swap (ap (λ x. x.0) e) (ap (λ x. x.0) f)
keys-Permᴰ (Permᴰ.trans p q) = Permᴰ.trans (keys-Permᴰ p) (keys-Permᴰ q)

length-Permᴰ : {xs ys : List (Text × Text)} → Permᴰ xs ys → length xs ≡ length ys
length-Permᴰ Permᴰ.nil = refl
length-Permᴰ (Permᴰ.cons e p) = omega (arith, length-Permᴰ p)
length-Permᴰ (Permᴰ.swap e f) = refl
length-Permᴰ (Permᴰ.trans p q) = length-Permᴰ p ∙ length-Permᴰ q

get-swap :
    (a b : Text × Text) (l : List (Text × Text)) (n : Text)
    → a.0 ≢ b.0
    → get (a ∷ b ∷ l) n ≡ get (b ∷ a ∷ l) n
unfolding get
get-swap a b l n other = ground (arith, text_eq_iff a.0 n, text_eq_iff b.0 n)

get-Permᴰ :
    {xs ys : List (Text × Text)}
    → Permᴰ xs ys
    → Distinct (keys xs)
    → (n : Text) → get xs n ≡ get ys n
unfolding get
get-Permᴰ Permᴰ.nil distinct n = refl
get-Permᴰ (Permᴰ.cons {b = b} e p) (new, distinct) n =
    rw e (ap (λ rest. if text_eq b.0 n then some b.1 else rest) (get-Permᴰ p distinct n))
get-Permᴰ (Permᴰ.swap {a = a} {b = b} {l = l} e f) (new, distinct) n =
    get-swap a b l n (λ same. new (inl (sym same))) ∙ (λ i. get (f i ∷ e i ∷ l) n)
get-Permᴰ (Permᴰ.trans p q) distinct n =
    get-Permᴰ p distinct n ∙ get-Permᴰ q (Distinct-Permᴰ (keys-Permᴰ p) distinct) n

module _ (digests : Digests) where
  create_step :
      (s : ReferenceStore) (e v k : Text)
      → get s.dedupe k ≡ none
      → get s.values e ≡ none
      → let c = create e v k in
        let o : Outcome = record {
          revision = s.revision + 1;
          entity_id = e;
          value = get (put e v s.values) e;
          deleted = false;
        } in
        (apply digests s c).0 ≡ record {
          values = put e v s.values;
          tombstones = discard e s.tombstones;
          revision = s.revision + 1;
          dedupe = put k (fingerprint digests c, o) s.dedupe;
          history = s.history ++ o ∷ [];
        }
  unfolding apply apply_new change record_outcome text_eq
  create_step s e v k fresh free = rw (fresh, free, apply, apply_new, change, record_outcome) refl

  module _ (key : Text → Text) (injective : (a b : Text) → key a ≡ key b → a ≡ b) where
    -- Neither the entity nor its key is in use.
    FreeIn : ReferenceStore → Text × Text → Type 0
    FreeIn s (e, v) = (get s.values e ≡ none) × (get s.dedupe (key e) ≡ none)

    keeps-FreeIn :
        (s u : ReferenceStore) (e v : Text) (entry : Text × Outcome)
        → u.values ≡ put e v s.values
        → u.dedupe ≡ put (key e) entry s.dedupe
        → (entries : List (Text × Text)) → ¬ Has (keys entries) e
        → All (FreeIn s) entries
        → All (FreeIn u) entries
    unfolding FreeIn
    keeps-FreeIn s u e v entry vs ds [] absent h = tt
    keeps-FreeIn s u e v entry vs ds ((n, w) ∷ entries) absent ((free, fresh), h) =
        let other : e ≢ n = λ same. absent (inl (sym same)) in
        let other_key : key e ≢ key n = λ same. other (injective e n same) in
        (
          (
            rw vs (get-put e v s.values n ∙ rw (text_eq_ne e n other) free),
            rw ds (
                get-put (key e) entry s.dedupe (key n)
                ∙ rw (text_eq_ne (key e) (key n) other_key) fresh),
          ),
          keeps-FreeIn s u e v entry vs ds entries (λ m. absent (inr m)) h,
        )

    over-put :
        (e v n : Text) (entries : List (Text × Text)) (before : Option Text)
        → ¬ Has (keys entries) e
        → over (get entries n) (if text_eq e n then some v else before)
          ≡ over (if text_eq e n then some v else get entries n) before
    unfolding over
    over-put e v n entries before absent = elim (Bool-cases (text_eq e n)) [
      | inl same ↦ elim (Option-cases (get entries n)) [
        | inl missing ↦ rw (same, missing) refl
        | inr (w, found) ↦
            let named : e ≡ n = (text_eq_iff e n).0 same in
            absurd (absent (rw named ((is_known-get entries n).0 (rw found refl))))
      ]
      | inr other ↦ rw other refl
    ]

    run-creates :
        (entries : List (Text × Text)) (s : ReferenceStore)
        → Distinct (keys entries)
        → All (FreeIn s) entries
        → ((n : Text) → has s.tombstones n ≡ false)
        → let t = run digests s (creates key entries) in
          (t.revision ≡ s.revision + length entries)
          × ((n : Text) → get t.values n ≡ over (get entries n) (get s.values n))
          × ((n : Text) → has t.tombstones n ≡ false)
    unfolding run get FreeIn over
    run-creates [] s distinct free clear = (omega arith, (λ n. refl), clear)
    run-creates ((e, v) ∷ entries) s (new, distinct) ((free, fresh), frees) clear =
        let u : ReferenceStore = (apply digests s (create e v (key e))).0 in
        let step = create_step s e v (key e) fresh free in
        let vs = ap ReferenceStore.values step in
        let unmarked : (n : Text) → has u.tombstones n ≡ false = λ n.
          rw (ap ReferenceStore.tombstones step)
            (ground (arith, has-discard e s.tombstones n, clear n)) in
        let (revision, values, tombstones) =
          run-creates entries u distinct
            (keeps-FreeIn s u e v _ vs (ap ReferenceStore.dedupe step) entries new frees)
            unmarked in
        let one_more : u.revision ≡ s.revision + 1 = ap ReferenceStore.revision step in
        (
          omega (arith, revision, one_more),
          (λ n.
              values n
              ∙ ap (over (get entries n)) (ap (λ m. get m n) vs ∙ get-put e v s.values n)
              ∙ over-put e v n entries (get s.values n) new),
          tombstones,
        )

    all_free : (entries : List (Text × Text)) → All (FreeIn empty_store) entries
    unfolding FreeIn get
    all_free [] = tt
    all_free ((e, v) ∷ entries) = ((refl, refl), all_free entries)

  -- Distinct entities that are created in an empty store, each with a key of its own, give the same
  -- snapshot in any order and with any keys.
  pub snapshot-creates :
      (left right : Text → Text)
      → ((a b : Text) → left a ≡ left b → a ≡ b)
      → ((a b : Text) → right a ≡ right b → a ≡ b)
      → (xs ys : List (Text × Text)) → Distinct (keys xs)
      → Perm xs ys
      → snapshot digests (run digests empty_store (creates left xs))
        ≡ snapshot digests (run digests empty_store (creates right ys))
  unfolding has
  snapshot-creates left right left_key right_key xs ys distinct p = ∥∥₁_elim p (Text_set _ _) (λ d.
      let (r₁, v₁, t₁) =
        run-creates left left_key xs empty_store distinct (all_free left left_key xs) (λ n. refl) in
      let (r₂, v₂, t₂) =
        run-creates right right_key ys empty_store (Distinct-Permᴰ (keys-Permᴰ d) distinct)
          (all_free right right_key ys) (λ n. refl) in
      snapshot_canonical digests _ _ (omega (arith, r₁, r₂, length-Permᴰ d))
        (λ n. v₁ n ∙ ap (λ o. over o (get [] n)) (get-Permᴰ d distinct n) ∙ sym (v₂ n))
        (λ n. t₁ n ∙ sym (t₂ n)))
    where
      Text_set : IsSet Text
      Text_set = hlevel
