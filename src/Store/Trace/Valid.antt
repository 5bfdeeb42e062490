-- ===== src/Store/Trace/Valid.antt =====
-- A generated trace is valid: the store accepts every command of it.
use contract_conformance_tes.Base.{
  ℕ, zero, suc, ◌+◌, ◌≡◌, refl, sym, ap, subst, ◌∙◌, [], ok, ◌>>=◌, get, has, arith,
}
use contract_conformance_tes.Store.{
  Command, Outcome, ReferenceStore, Digests, apply, run, empty_store,
}
use contract_conformance_tes.Store.Invariant.{Inv, run-empty_store-Inv}
use contract_conformance_tes.Store.Replay.{replay_command, replay_from, replay}
use contract_conformance_tes.Store.Replay.Duplicates.{replay-duplicates}
use contract_conformance_tes.Store.Trace.{
  Randomizer, Generator, next_command, generate_from, generate_valid_trace,
}
use contract_conformance_tes.Store.Trace.Accepts.{Chooses, Ready, next_command-Accepted}

module _ (digests : Digests) {State Float : Type 0} (library : Randomizer State Float) (seed : ℕ)
    (chooses : Chooses library) where
  replay_command-ok :
      (index : ℕ) (s t : ReferenceStore) (c : Command) (o : Outcome)
      → apply digests s c ≡ (t, ok o)
      → replay_command digests 0 index s c ≡ ok t
  unfolding replay_command
  replay_command-ok index s t c o h = ground (arith, ap (λ r. r.0) h, ap (λ r. r.1) h)

  replay_from-generate_from :
      (steps index : ℕ) (g : Generator State) (s : ReferenceStore)
      → Ready seed index g s
      → let commands = generate_from library seed steps index g in
        (replay_from digests 0 index s commands ≡ ok (run digests s commands))
        × ((run digests s commands).revision ≡ s.revision + steps)
  unfolding replay_from generate_from run
  replay_from-generate_from zero index g s ready = (refl, omega arith)
  replay_from-generate_from (suc steps) index g s ready =
      let (c, g') = next_command library seed index g in
      let (t, o, applied, later, revision) =
        next_command-Accepted digests library seed chooses index g s ready in
      let end : (apply digests s c).0 ≡ t = ap (λ r. r.0) applied in
      let (replayed, counted) =
        replay_from-generate_from steps (index + 1) g' (apply digests s c).0
          (subst (Ready seed (index + 1) g') (sym end) later) in
      let done =
        replay_command-ok index s (apply digests s c).0 c o
          (λ i. ((apply digests s c).0, (applied i).1)) in
      (rw (done, ◌>>=◌) replayed, omega (arith, ap ReferenceStore.revision end, revision, counted))

  -- If the library chooses one of the names that it is given, every generated trace is valid:
  -- its replay, with any duplicates, raises nothing and ends at a revision for each step, in a
  -- store that is the sum of its history.
  pub replay-generate_valid_trace :
      (steps duplicate_every : ℕ)
      → (s : ReferenceStore) × (replay digests
            (generate_valid_trace library seed steps)
            duplicate_every
          ≡ ok s)
        × (s.revision ≡ steps)
        × Inv s
  unfolding generate_valid_trace get has replay
  replay-generate_valid_trace steps duplicate_every =
      let start : Generator State = record {
        live = [];
        next_id = 0;
        randomizer = library.seeded seed;
      } in
      let (replayed, counted) =
        replay_from-generate_from steps 0 start empty_store
          (record { live = λ e. refl; unused_names = λ j h. refl; unused_keys = λ j h. refl }) in
      (
        run digests empty_store (generate_from library seed steps 0 start),
        replay-duplicates digests duplicate_every (generate_valid_trace library seed steps)
            ∙ replayed,
        omega (arith, counted),
        run-empty_store-Inv digests (generate_from library seed steps 0 start),
      )
