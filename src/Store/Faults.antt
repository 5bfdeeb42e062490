-- ===== src/Store/Faults.antt =====
-- What `apply` raises, and when.
use contract_conformance_tes.Base.{
  ◌≡◌, ◌≢◌, ◌⊎◌, ◌↔◌, inl, inr, refl, sym, ap, subst, ◌∙◌, Bool, true, false, none, some,
  Option-cases, Result, err, Text, bytes, text_eq, text_eq_ne, get, is_known, arith,
}
use contract_conformance_tes.Store.{
  Command, Outcome, StoreError, ReferenceStore, Digests, idempotency_conflict, create_refused,
  update_refused, delete_refused, unknown_kind, change, fingerprint, apply_new, apply,
}
use contract_conformance_tes.Store.Change.{
  Changes, created, updated, deleted, not_created, not_updated, not_deleted, unknown,
  change-Changes,
}
use contract_conformance_tes.Store.Apply.{
  Applied, repeated, conflicting, refused, recorded, apply-Applied, apply-new,
}

err-injective :
    {a b : StoreError} → ◌≡◌ {A = Result (ReferenceStore × Bool) StoreError} (err a) (err b) → a ≡ b
err-injective h = cc

module _ (c : Command) (s : ReferenceStore) where
  -- Why a command with a new key is refused.
  abbrev pub Refusal : StoreError → Type 0
  Refusal create_refused =
      (c.kind ≡ bytes "create") × ((c.value ≡ none) ⊎ (is_known (get s.values c.entity_id) ≡ true))
  Refusal update_refused =
      (c.kind ≡ bytes "update") × ((c.value ≡ none) ⊎ (is_known (get s.values c.entity_id) ≡ false))
  Refusal delete_refused = (c.kind ≡ bytes "delete") × (is_known (get s.values c.entity_id) ≡ false)
  Refusal (unknown_kind kind) =
      (c.kind ≡ kind) × (kind ≢ bytes "create") × (kind ≢ bytes "update") × (kind ≢ bytes "delete")
  Refusal idempotency_conflict = ⊥

  Changes-Refusal :
      (r : Result (ReferenceStore × Bool) StoreError) (e : StoreError)
      → r ≡ err e
      → Changes c s r
      → Refusal e
  Changes-Refusal r e h (created value _ _ _) = cc
  Changes-Refusal r e h (updated value _ _ _) = cc
  Changes-Refusal r e h (deleted _ _) = cc
  Changes-Refusal r e h (not_created kind why) = subst Refusal (err-injective h) (kind, why)
  Changes-Refusal r e h (not_updated kind why) = subst Refusal (err-injective h) (kind, why)
  Changes-Refusal r e h (not_deleted kind why) = subst Refusal (err-injective h) (kind, why)
  Changes-Refusal r e h (unknown a b d) = subst Refusal (err-injective h) (refl, a, b, d)

  change-unknown :
      c.kind ≢ bytes "create"
      → c.kind ≢ bytes "update"
      → c.kind ≢ bytes "delete"
      → change c s ≡ err (unknown_kind c.kind)
  unfolding change
  change-unknown a b d =
      rw
        (
          text_eq_ne c.kind (bytes "create") a,
          text_eq_ne c.kind (bytes "update") b,
          text_eq_ne c.kind (bytes "delete") d,
          change,
        )
        refl

  Refusal-change : (e : StoreError) → Refusal e → change c s ≡ err e
  unfolding change text_eq
  Refusal-change create_refused (kind, inl missing) = ground arith
  Refusal-change create_refused (kind, inr live) = elim (Option-cases c.value) [
    | inl missing ↦ ground arith
    | inr (value, given) ↦ ground arith
  ]
  Refusal-change update_refused (kind, inl missing) = ground arith
  Refusal-change update_refused (kind, inr free) = elim (Option-cases c.value) [
    | inl missing ↦ ground arith
    | inr (value, given) ↦ ground arith
  ]
  Refusal-change delete_refused (kind, free) = ground arith
  Refusal-change (unknown_kind kind) (same, a, b, d) =
      change-unknown (rw same a) (rw same b) (rw same d) ∙ ap (λ k. err (unknown_kind k)) same
  Refusal-change idempotency_conflict h = absurd h

module _ (digests : Digests) (c : Command) (s : ReferenceStore) where
  -- The key was used for another intent, or it is new and the command is refused.
  abbrev pub Fault : StoreError → Type 0
  Fault e =
      ((prior : Text) × (o : Outcome) × (get s.dedupe c.idempotency_key ≡ some (prior, o))
        × (prior ≢ fingerprint digests c)
        × (e ≡ idempotency_conflict))
      ⊎ ((get s.dedupe c.idempotency_key ≡ none) × Refusal c s e)

  Applied-Fault :
      (t : ReferenceStore) (r : Result Outcome StoreError) (e : StoreError)
      → r ≡ err e
      → Applied digests s c t r
      → Fault e
  Applied-Fault t r e h (repeated o known) = cc
  Applied-Fault t r e h (conflicting prior o known other) = inl (prior, o, known, other, cc)
  Applied-Fault t r e h (refused x fresh failed) =
      inr (
        fresh,
        Changes-Refusal c s (err x) e (cc) (subst (Changes c s) failed (change-Changes c s)),
      )
  Applied-Fault t r e h (recorded changed u d o fresh done end) = cc

  apply_new-err : (e : StoreError) → change c s ≡ err e → apply_new digests s c ≡ (s, err e)
  unfolding apply_new
  apply_new-err e failed = rw (failed, apply_new) refl

  Fault-apply : (e : StoreError) → Fault e → apply digests s c ≡ (s, err e)
  unfolding apply
  Fault-apply e (inl (prior, o, known, other, same)) =
      rw (known, text_eq_ne prior (fingerprint digests c) other, apply)
        (ap (λ x. (s, err x)) (sym same))
  Fault-apply e (inr (fresh, why)) =
      apply-new digests s c fresh ∙ apply_new-err e (Refusal-change c s e why)

  Applied-unchanged :
      (t : ReferenceStore) (r : Result Outcome StoreError) (e : StoreError)
      → r ≡ err e
      → Applied digests s c t r
      → t ≡ s
  Applied-unchanged t r e h (repeated o known) = refl
  Applied-unchanged t r e h (conflicting prior o known other) = refl
  Applied-unchanged t r e h (refused x fresh failed) = refl
  Applied-unchanged t r e h (recorded changed u d o fresh done end) = cc

  -- `apply` raises an exception exactly for these faults, and leaves the store as it was: a key
  -- that was used for another intent (by its fingerprint), or, for a new key, a create without a
  -- value or of an entity that has one, an update without a value or of an entity that has none,
  -- a delete of an entity that has none, and any other kind.
  pub apply-Fault :
      (t : ReferenceStore) (e : StoreError) → (apply digests s c ≡ (t, err e)) ↔ ((t ≡ s) × Fault e)
  apply-Fault t e = (
    (λ h.
        let done = apply-Applied digests s c in
        let raised = ap (λ r. r.1) h in
        (
          sym (ap (λ r. r.0) h)
              ∙ Applied-unchanged (apply digests s c).0 (apply digests s c).1 e raised done,
          Applied-Fault (apply digests s c).0 (apply digests s c).1 e raised done,
        )),
    (λ h. Fault-apply e h.1 ∙ ap (λ x. (x, err e)) (sym h.0)),
  )
