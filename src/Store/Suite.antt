-- ===== src/Store/Suite.antt =====
-- tests/test_contract_conformance.py and tests/test_replay_stress_followup.py: what the tests of
-- the reference model assert, for any inputs.
pub mod Order
use contract_conformance_tes.Base.{
  ℕ, zero, suc, ◌+◌, ◌≡◌, refl, sym, ap, ◌∙◌, false, some, none, List, [], ◌∷◌, length, Result, ok,
  Text, bytes, arith,
}
use contract_conformance_tes.Store.{
  Command, Outcome, StoreError, ReferenceStore, Digests, empty_store, apply, run, snapshot,
}
use contract_conformance_tes.Store.Apply.{apply-repeats}
use contract_conformance_tes.Store.Invariant.{IsNumbered, Inv}
use contract_conformance_tes.Store.Replay.{replay}
use contract_conformance_tes.Store.Replay.Duplicates.{replay-duplicates}
use contract_conformance_tes.Store.Trace.{Randomizer, generate_valid_trace}
use contract_conformance_tes.Store.Trace.Accepts.{Chooses}
use contract_conformance_tes.Store.Trace.Valid.{replay-generate_valid_trace}

-- `[outcome.revision for outcome in history]` and `list(range(n, n + count))`
abbrev pub revisions_of : List Outcome → List ℕ
revisions_of [] = []
revisions_of (o ∷ history) = o.revision ∷ revisions_of history

abbrev pub range_from : ℕ → ℕ → List ℕ
range_from n zero = []
range_from n (suc count) = n ∷ range_from (n + 1) count

revisions_of-range_from :
    (n : ℕ) (history : List Outcome)
    → IsNumbered n history
    → revisions_of history ≡ range_from (n + 1) (length history)
revisions_of-range_from n [] h = refl
revisions_of-range_from n (o ∷ history) (first, h) =
    let later = revisions_of-range_from (n + 1) history h in λ i. first i ∷ later i

module _ (digests : Digests) where
  -- The replays of a generated trace with two schedules of duplicates.
  abbrev pub ReplaysDeterministically :
      {State Float : Type 0} → Randomizer State Float → ℕ → ℕ → ℕ → ℕ → Type 0
  ReplaysDeterministically library seed steps first second =
      (s : ReferenceStore) × (t : ReferenceStore) × (replay digests
          (generate_valid_trace library seed steps) first
        ≡ ok s)
      × (replay digests (generate_valid_trace library seed steps) second ≡ ok t)
      × (snapshot digests s ≡ snapshot digests t)
      × (revisions_of s.history ≡ range_from 1 (length s.history))
      × (length s.history ≡ steps)

  -- For every seed, every number of steps and every two schedules of duplicates, the replays of the
  -- generated trace return, with the same snapshot, and the revisions in the history are 1, 2 and so
  -- on, one for each step; a choice from names is only assumed to be one of them.
  pub replay-ReplaysDeterministically :
      {State Float : Type 0} (library : Randomizer State Float) (seed : ℕ)
      → Chooses library
      → (steps first second : ℕ) → ReplaysDeterministically library seed steps first second
  replay-ReplaysDeterministically library seed chooses steps first second =
      let trace = generate_valid_trace library seed steps in
      let (s, replayed, revision, sums) =
        replay-generate_valid_trace digests library seed chooses steps first in
      (
        s,
        s,
        replayed,
        replay-duplicates digests second trace
            ∙ sym (replay-duplicates digests first trace)
            ∙ replayed,
        refl,
        revisions_of-range_from 0 s.history sums.numbered,
        omega (arith, sums.revisions, revision),
      )

  -- A command over and over: the answers, and the store behind them.
  abbrev pub storm : ℕ → ReferenceStore → Command → List (Result Outcome StoreError)
  storm zero s c = []
  storm (suc n) s c = (apply digests s c).1 ∷ storm n (apply digests s c).0 c

  abbrev pub behind : ℕ → ReferenceStore → Command → ReferenceStore
  behind zero s c = s
  behind (suc n) s c = behind n (apply digests s c).0 c

  abbrev pub copies : ℕ → Result Outcome StoreError → List (Result Outcome StoreError)
  copies zero r = []
  copies (suc n) r = r ∷ copies n r

  -- However often a command that has succeeded is repeated at once, each answer is the first one,
  -- and the store stays as it is.
  pub storm-copies :
      (n : ℕ) (s t : ReferenceStore) (c : Command) (o : Outcome)
      → apply digests s c ≡ (t, ok o)
      → (storm n t c ≡ copies n (ok o)) × (behind n t c ≡ t)
  unfolding run
  storm-copies zero s t c o h = (refl, refl)
  storm-copies (suc n) s t c o h =
      let again = apply-repeats digests s t c o [] h in
      let stays : (apply digests t c).0 ≡ t = ap (λ r. r.0) again in
      let (answers, end) = storm-copies n s t c o h in
      rw stays (rw (ap (λ r. r.1) again) (ap (λ l. ok o ∷ l) answers), end)
