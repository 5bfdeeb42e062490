-- ===== src/Store/Log/Effects.antt =====
-- A change of the store has the effect that the log says.
use contract_conformance_tes.Base.{
  ◌≡◌, ◌≢◌, inl, inr, refl, Bool, if◌then◌else◌, none, Option-cases, List, Result, ok, err, bytes,
  text_eq, text_eq_refl, text_eq_ne, get, get-put, is_known, arith,
}
use contract_conformance_tes.Store.{Command, StoreError, unknown_kind, ReferenceStore}
use contract_conformance_tes.Store.Change.{
  Changes, created, updated, deleted, not_created, not_updated, not_deleted, unknown,
}
use contract_conformance_tes.Store.Log.{Entry, is_live, effect}

-- How the result of a change shows in the log.
abbrev pub Effects : Command → List Entry → Result (ReferenceStore × Bool) StoreError → Type 0
Effects c log (ok (t, d)) = effect c log ≡ ok ((if d then none else get t.values c.entity_id), d)
Effects c log (err e) = effect c log ≡ err e

effect-unknown :
    (c : Command) (log : List Entry)
    → c.kind ≢ bytes "create"
    → c.kind ≢ bytes "update"
    → c.kind ≢ bytes "delete"
    → effect c log ≡ err (unknown_kind c.kind)
unfolding effect
effect-unknown c log n m d =
    rw
      (
        text_eq_ne c.kind (bytes "create") n,
        text_eq_ne c.kind (bytes "update") m,
        text_eq_ne c.kind (bytes "delete") d,
        effect,
      )
      refl

pub Changes-Effects :
    (c : Command) (s : ReferenceStore) (log : List Entry)
    (r : Result (ReferenceStore × Bool) StoreError)
    → is_known (get s.values c.entity_id) ≡ is_live c.entity_id log
    → Changes c s r
    → Effects c log r
unfolding effect text_eq
Changes-Effects c s log r live (created value kind given free) =
    ground (arith, get-put c.entity_id value s.values c.entity_id, text_eq_refl c.entity_id)
Changes-Effects c s log r live (updated value kind given known) =
    ground (arith, get-put c.entity_id value s.values c.entity_id, text_eq_refl c.entity_id)
Changes-Effects c s log r live (deleted kind known) = ground arith
Changes-Effects c s log r live (not_created kind (inl missing)) = ground arith
Changes-Effects c s log r live (not_created kind (inr known)) = elim (Option-cases c.value) [
  | inl missing ↦ ground arith
  | inr (value, given) ↦ ground arith
]
Changes-Effects c s log r live (not_updated kind (inl missing)) = ground arith
Changes-Effects c s log r live (not_updated kind (inr free)) = elim (Option-cases c.value) [
  | inl missing ↦ ground arith
  | inr (value, given) ↦ ground arith
]
Changes-Effects c s log r live (not_deleted kind free) = ground arith
Changes-Effects c s log r live (unknown n m d) = effect-unknown c log n m d
