-- ===== src/Store/Log/Refines.antt =====
-- The store answers as the log does.
use contract_conformance_tes.Base.{
  ◌+◌, ◌≡◌, refl, sym, ap, subst, ◌∙◌, Bool, if◌then◌else◌, Option, none, some, List, [], ◌∷◌, ◌++◌,
  length, Result, ok, err, Text, text_eq, text_eq_iff, text_eq_refl, get, put, get-put, is_known,
  arith,
}
use contract_conformance_tes.Store.{
  Command, Outcome, StoreError, Digests, fingerprint, ReferenceStore, change, record_outcome, apply,
  empty_store,
}
use contract_conformance_tes.Store.Change.{Changes, change-Changes}
use contract_conformance_tes.Store.Apply.{
  Applied, repeated, conflicting, refused, recorded, record_outcome_lem, change-keeps,
  apply-Applied,
}
use contract_conformance_tes.Store.Invariant.{Inv, latest, value_of, Applied-Inv, empty_store-Inv}
use contract_conformance_tes.Store.Log.{
  Entry, outcomes, find, is_live, entry_of, append, log_answers, store_answers,
}
use contract_conformance_tes.Store.Log.Effects.{Effects, Changes-Effects}

-- The store is the one of the log.
pub record Keeps (s : ReferenceStore) (log : List Entry) : Type 0 where
  pub sums : Inv s
  pub history : s.history ≡ outcomes log
  pub keys : (key : Text) → get s.dedupe key ≡ find key log

find-append :
    (key : Text) (log : List Entry) (entry : Entry)
    → find key log ≡ none
    → find key (log ++ entry ∷ [])
      ≡ (if text_eq entry.key key then some (entry.digest, entry.outcome) else none)
find-append key [] entry h = refl
find-append key (x ∷ log) entry h = ground (arith, find-append key log entry)

find-append_old :
    (key : Text) (log : List Entry) (entry : Entry) (x : Text × Outcome)
    → find key log ≡ some x
    → find key (log ++ entry ∷ []) ≡ some x
find-append_old key [] entry x h = cc
find-append_old key (y ∷ log) entry x h = ground (arith, find-append_old key log entry x)

outcomes-append :
    (log : List Entry) (entry : Entry)
    → outcomes (log ++ entry ∷ []) ≡ outcomes log ++ entry.outcome ∷ []
outcomes-append [] entry = refl
outcomes-append (x ∷ log) entry = ap (λ l. x.outcome ∷ l) (outcomes-append log entry)

length-outcomes : (log : List Entry) → length (outcomes log) ≡ length log
length-outcomes [] = refl
length-outcomes (x ∷ log) = omega (arith, length-outcomes log)

module _ (digests : Digests) where
  live_agrees :
      (s : ReferenceStore) (log : List Entry) (e : Text)
      → Keeps s log
      → is_known (get s.values e) ≡ is_live e log
  live_agrees s log e keeps =
      ap is_known (keeps.sums.values e ∙ ap (λ h. value_of (latest e h)) keeps.history)

  change-Effects :
      (c : Command) (s : ReferenceStore) (log : List Entry)
      (r : Result (ReferenceStore × Bool) StoreError)
      → Keeps s log
      → change c s ≡ r
      → Effects c log r
  change-Effects c s log r keeps h =
      Changes-Effects c s log r (live_agrees s log c.entity_id keeps)
        (subst (Changes c s) h (change-Changes c s))

  next_key :
      (log : List Entry) (entry : Entry) (key : Text) (found : Option (Text × Outcome))
      → found ≡ find key log
      → find entry.key log ≡ none
      → (if text_eq entry.key key then some (entry.digest, entry.outcome) else found)
        ≡ find key (log ++ entry ∷ [])
  next_key log entry key none h fresh = ground (arith, find-append key log entry)
  next_key log entry key (some x) h fresh =
      ground (arith, find-append_old key log entry x, text_eq_iff entry.key key)

  -- A log and its next entry keep the store and its next outcome.
  recorded-Keeps :
      (c : Command) (s changed t : ReferenceStore) (d : Bool) (o : Outcome) (log : List Entry)
      (digest : Text)
      → Keeps s log
      → Inv t
      → get s.dedupe c.idempotency_key ≡ none
      → change c s ≡ ok (changed, d)
      → record_outcome digest c changed d ≡ (t, o)
      → Keeps t (log ++ record { key = c.idempotency_key; digest = digest; outcome = o } ∷ [])
  recorded-Keeps c s changed t d o log digest keeps sums fresh done end =
      let entry : Entry = record { key = c.idempotency_key; digest = digest; outcome = o } in
      let (stored, _) = record_outcome_lem digest c changed t d o end in
      let (_, same_keys, same_history) = change-keeps c s changed d done in
      record {
        sums = sums;
        history =
            ap ReferenceStore.history stored
            ∙ ap (λ h. h ++ o ∷ []) (same_history ∙ keeps.history)
            ∙ sym (outcomes-append log entry);
        keys = λ key.
            let dedupe =
              ap ReferenceStore.dedupe stored ∙ ap (put c.idempotency_key (digest, o)) same_keys in
            rw dedupe (
              get-put c.idempotency_key (digest, o) s.dedupe key
              ∙ next_key log entry key (get s.dedupe key) (keeps.keys key)
                  (sym (keeps.keys c.idempotency_key) ∙ fresh));
      }

  -- The answer and the state after a command, on both sides.
  Agrees :
      ReferenceStore × Result Outcome StoreError → List Entry × Result Outcome StoreError → Type 0
  Agrees (t, r) (log, answer) = Inv t → Keeps t log × (r ≡ answer)

  Applied-Agrees :
      (s t : ReferenceStore) (c : Command) (r : Result Outcome StoreError) (log : List Entry)
      → Keeps s log
      → Applied digests s c t r
      → Agrees (t, r) (append digests log c)
  unfolding Agrees append
  Applied-Agrees s t c r log keeps (repeated o known) =
      ground (arith, keeps.keys c.idempotency_key, text_eq_refl (fingerprint digests c))
  Applied-Agrees s t c r log keeps (conflicting prior o known other) =
      ground (arith, keeps.keys c.idempotency_key, text_eq_iff prior (fingerprint digests c))
  Applied-Agrees s t c r log keeps (refused e fresh failed) =
      ground (arith, keeps.keys c.idempotency_key, change-Effects c s log (err e) keeps failed)
  Applied-Agrees s t c r log keeps (recorded changed u d o fresh done end) = λ sums.
      let (_, said) = record_outcome_lem (fingerprint digests c) c changed u d o end in
      let (same_revision, _, _) = change-keeps c s changed d done in
      let entry = entry_of digests c log (if d then none else get changed.values c.entity_id) d in
      let revision : changed.revision + 1 ≡ length log + 1 = omega (
        arith,
        same_revision,
        keeps.sums.revisions,
        ap length keeps.history,
        length-outcomes log,
      ) in
      let same : o ≡ entry.outcome =
        said ∙ ap (λ n. record entry.outcome { revision = n }) revision in
      let appended : append digests log c ≡ (log ++ entry ∷ [], ok entry.outcome) = ground (
        arith,
        keeps.keys c.idempotency_key,
        change-Effects c s log (ok (changed, d)) keeps done,
      ) in
      rw appended (
        rw same at (
            recorded-Keeps c s changed u d o log (fingerprint digests c) keeps sums fresh done end),
        ap ok same,
      )

  step_agrees :
      (s : ReferenceStore) (c : Command) (log : List Entry)
      → Keeps s log
      → Keeps (apply digests s c).0 (append digests log c).0
        × ((apply digests s c).1 ≡ (append digests log c).1)
  unfolding Agrees
  step_agrees s c log keeps =
      let done = apply-Applied digests s c in
      Applied-Agrees s (apply digests s c).0 c (apply digests s c).1 log keeps done
        (Applied-Inv digests s (apply digests s c).0 c (apply digests s c).1 keeps.sums done)

  answers_agree :
      (s : ReferenceStore) (log : List Entry) (commands : List Command)
      → Keeps s log
      → store_answers digests s commands ≡ log_answers digests log commands
  unfolding store_answers log_answers
  answers_agree s log [] keeps = refl
  answers_agree s log (c ∷ commands) keeps =
      let (next, same) = step_agrees s c log keeps in
      let rest = answers_agree (apply digests s c).0 (append digests log c).0 commands next in
      λ i. same i ∷ rest i

  -- To any commands, the empty store gives the answers, outcomes and exceptions, of the empty log.
  pub store_answers-log_answers :
      (commands : List Command)
      → store_answers digests empty_store commands ≡ log_answers digests [] commands
  unfolding get
  store_answers-log_answers commands =
      answers_agree empty_store [] commands
        (record { sums = empty_store-Inv; history = refl; keys = λ key. refl })
