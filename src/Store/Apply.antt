-- ===== src/Store/Apply.antt =====
-- `apply` on a new key, on a known one, and after an exception.
use contract_conformance_tes.Base.{
  ◌+◌, ◌≡◌, inl, inr, if◌then◌else◌, refl, ap, ◌∙◌, Bool, Bool-cases, Option-cases, Result-cases,
  none, some, List, [], ◌∷◌, ◌++◌, Result, ok, err, Text, text_eq, text_eq_iff, text_eq_refl, get,
  put, get-put, arith,
}
use contract_conformance_tes.Store.{
  Command, Outcome, StoreError, ReferenceStore, Digests, change, record_outcome, fingerprint,
  apply_new, apply, run, idempotency_conflict,
}

-- Values and tombstones apart, a change leaves the store alone.
pub change-keeps :
    (c : Command) (s t : ReferenceStore) (deleted : Bool)
    → change c s ≡ ok (t, deleted)
    → (t.revision ≡ s.revision) × (t.dedupe ≡ s.dedupe) × (t.history ≡ s.history)
unfolding change
change-keeps c s t deleted h = ground arith

-- What a recorded outcome says, and where it is kept.
pub record_outcome_lem :
    (digest : Text) (c : Command) (s t : ReferenceStore) (deleted : Bool) (o : Outcome)
    → record_outcome digest c s deleted ≡ (t, o)
    → (t ≡ record s {
      revision = s.revision + 1;
      dedupe = put c.idempotency_key (digest, o) s.dedupe;
      history = s.history ++ o ∷ [];
    })
      × (o ≡ record {
        revision = s.revision + 1;
        entity_id = c.entity_id;
        value = if deleted then none else get s.values c.entity_id;
        deleted = deleted;
      })
unfolding record_outcome
record_outcome_lem digest c s t deleted o h = ground arith

module _ (digests : Digests) where
  -- What the store answers to a key, and the store after.
  pub data Applied (s : ReferenceStore) (c : Command)
      : ReferenceStore → Result Outcome StoreError → Type 0 where
    repeated :
        (o : Outcome)
        → get s.dedupe c.idempotency_key ≡ some (fingerprint digests c, o)
        → Applied s c s (ok o)
    conflicting :
        (prior : Text) (o : Outcome)
        → get s.dedupe c.idempotency_key ≡ some (prior, o)
        → ¬ (prior ≡ fingerprint digests c)
        → Applied s c s (err idempotency_conflict)
    refused :
        (e : StoreError)
        → get s.dedupe c.idempotency_key ≡ none
        → change c s ≡ err e
        → Applied s c s (err e)
    recorded :
        (changed t : ReferenceStore) (deleted : Bool) (o : Outcome)
        → get s.dedupe c.idempotency_key ≡ none
        → change c s ≡ ok (changed, deleted)
        → record_outcome (fingerprint digests c) c changed deleted ≡ (t, o)
        → Applied s c t (ok o)

  apply_new-Applied :
      (s : ReferenceStore) (c : Command)
      → get s.dedupe c.idempotency_key ≡ none
      → Applied s c (apply_new digests s c).0 (apply_new digests s c).1
  unfolding apply_new
  apply_new-Applied s c fresh = elim (Result-cases (change c s)) [
    | inl ((changed, deleted), h) ↦
        rw (h, apply_new)
          (recorded changed (record_outcome (fingerprint digests c) c changed deleted).0 deleted
            (record_outcome (fingerprint digests c) c changed deleted).1 fresh h refl)
    | inr (e, h) ↦ rw (h, apply_new) (refused e fresh h)
  ]

  pub apply-Applied :
      (s : ReferenceStore) (c : Command) → Applied s c (apply digests s c).0 (apply digests s c).1
  unfolding apply
  apply-Applied s c = elim (Option-cases (get s.dedupe c.idempotency_key)) [
    | inl fresh ↦ rw (fresh, apply) (apply_new-Applied s c fresh)
    | inr ((prior, o), known) ↦ elim (Bool-cases (text_eq prior (fingerprint digests c))) [
      | inl same ↦
          rw (known, same, apply)
            (repeated o (rw (← (text_eq_iff prior (fingerprint digests c)).0 same) known))
      | inr other ↦
          rw (known, other, apply)
            (conflicting prior o known
              (λ e. ground (arith, text_eq_iff prior (fingerprint digests c))))
    ]
  ]

  -- An entry of `dedupe` stays.
  Applied-keeps :
      (s t : ReferenceStore) (c : Command) (r : Result Outcome StoreError) (key : Text)
      (entry : Text × Outcome)
      → get s.dedupe key ≡ some entry
      → Applied s c t r
      → get t.dedupe key ≡ some entry
  Applied-keeps s t c r key entry h (repeated o known) = h
  Applied-keeps s t c r key entry h (conflicting prior o known other) = h
  Applied-keeps s t c r key entry h (refused e fresh failed) = h
  Applied-keeps s t c r key entry h (recorded changed u deleted o fresh done end) =
      let (stored, _) = record_outcome_lem (fingerprint digests c) c changed u deleted o end in
      let (_, kept, _) = change-keeps c s changed deleted done in
      ground (
        arith,
        ap ReferenceStore.dedupe stored,
        get-put c.idempotency_key (fingerprint digests c, o) changed.dedupe key,
        text_eq_iff c.idempotency_key key,
      )

  -- The key of a command that succeeded has its outcome.
  Applied-answers :
      (s t : ReferenceStore) (c : Command) (r : Result Outcome StoreError) (o : Outcome)
      → r ≡ ok o
      → Applied s c t r
      → get t.dedupe c.idempotency_key ≡ some (fingerprint digests c, o)
  Applied-answers s t c r o e (repeated p known) = cc
  Applied-answers s t c r o e (conflicting prior p known other) = cc
  Applied-answers s t c r o e (refused x fresh failed) = cc
  Applied-answers s t c r o e (recorded changed u deleted p fresh done end) =
      let (stored, _) = record_outcome_lem (fingerprint digests c) c changed u deleted p end in
      ground (
        arith,
        ap ReferenceStore.dedupe stored,
        get-put c.idempotency_key (fingerprint digests c, p) changed.dedupe c.idempotency_key,
        text_eq_refl c.idempotency_key,
      )

  pub apply-answers :
      (s t : ReferenceStore) (c : Command) (o : Outcome)
      → apply digests s c ≡ (t, ok o)
      → get t.dedupe c.idempotency_key ≡ some (fingerprint digests c, o)
  apply-answers s t c o h = rw (ap (λ r. r.0) h) at (
      Applied-answers s (apply digests s c).0 c (apply digests s c).1 o (ap (λ r. r.1) h)
        (apply-Applied s c))

  run-keeps :
      (s : ReferenceStore) (commands : List Command) (key : Text) (entry : Text × Outcome)
      → get s.dedupe key ≡ some entry
      → get (run digests s commands).dedupe key ≡ some entry
  unfolding run
  run-keeps s [] key entry h = h
  run-keeps s (c ∷ commands) key entry h = run-keeps (apply digests s c).0 commands key entry (
      Applied-keeps s (apply digests s c).0 c (apply digests s c).1 key entry h (apply-Applied s c))

  apply_known :
      (s : ReferenceStore) (c : Command) (o : Outcome)
      → get s.dedupe c.idempotency_key ≡ some (fingerprint digests c, o)
      → apply digests s c ≡ (s, ok o)
  unfolding apply
  apply_known s c o h = ground (arith, text_eq_iff (fingerprint digests c) (fingerprint digests c))

  -- Once a command has succeeded, it can be repeated at any time, whatever other commands the
  -- store was given since, failed ones included: it answers with the same outcome and changes
  -- nothing.
  pub apply-repeats :
      (s t : ReferenceStore) (c : Command) (o : Outcome) (later : List Command)
      → apply digests s c ≡ (t, ok o)
      → apply digests (run digests t later) c ≡ (run digests t later, ok o)
  apply-repeats s t c o later h =
      apply_known (run digests t later) c o
        (run-keeps t later c.idempotency_key (fingerprint digests c, o) (apply-answers s t c o h))

  pub apply-new :
      (s : ReferenceStore) (c : Command)
      → get s.dedupe c.idempotency_key ≡ none
      → apply digests s c ≡ apply_new digests s c
  unfolding apply
  apply-new s c fresh = rw (fresh, apply) refl

  -- A command with a new key that may be carried out.
  pub apply_fresh :
      (s u : ReferenceStore) (c : Command) (d : Bool)
      → get s.dedupe c.idempotency_key ≡ none
      → change c s ≡ ok (u, d)
      → (t : ReferenceStore) × (o : Outcome) × (apply digests s c ≡ (t, ok o))
        × (t.values ≡ u.values)
        × (t.dedupe ≡ put c.idempotency_key (fingerprint digests c, o) s.dedupe)
        × (t.revision ≡ s.revision + 1)
  unfolding apply_new
  apply_fresh s u c d fresh done =
      let t = (record_outcome (fingerprint digests c) c u d).0 in
      let o = (record_outcome (fingerprint digests c) c u d).1 in
      let (stored, _) = record_outcome_lem (fingerprint digests c) c u t d o refl in
      let (revision, kept, _) = change-keeps c s u d done in
      (
        t,
        o,
        apply-new s c fresh ∙ rw (done, apply_new) refl,
        ap ReferenceStore.values stored,
        ground (arith, ap ReferenceStore.dedupe stored),
        ground (arith, ap ReferenceStore.revision stored),
      )
