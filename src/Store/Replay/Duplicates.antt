-- ===== src/Store/Replay/Duplicates.antt =====
-- Duplicates leave no trace.
use contract_conformance_tes.Base.{
  ℕ, ◌+◌, ◌≡◌, inl, inr, refl, ap, true, Bool-cases, Option, none, some, List, [], ◌∷◌, ok,
  Result-cases, ◌>>=◌, Text, text_eq_refl, arith,
}
use contract_conformance_tes.Store.{
  Command, Outcome, ReferenceStore, Digests, apply, run, empty_store,
}
use contract_conformance_tes.Store.Apply.{apply-repeats}
use contract_conformance_tes.Store.Replay.{
  value_eq, outcome_eq, is_duplicated, apply_twice, replay_command, replay_from, replay,
}

value_eq_refl : (v : Option Text) → value_eq v v ≡ true
value_eq_refl none = refl
value_eq_refl (some v) = text_eq_refl v

outcome_eq_refl : (o : Outcome) → outcome_eq o o ≡ true
unfolding outcome_eq
outcome_eq_refl o = rw (text_eq_refl o.entity_id) (ground (arith, value_eq_refl o.value))

module _ (digests : Digests) (duplicate_every : ℕ) where
  apply_again :
      (s t : ReferenceStore) (c : Command) (o : Outcome)
      → apply digests s c ≡ (t, ok o)
      → apply digests t c ≡ (t, ok o)
  unfolding run
  apply_again s t c o h = apply-repeats digests s t c o [] h

  apply_twice-ok :
      (s t : ReferenceStore) (c : Command) (o : Outcome)
      → apply digests s c ≡ (t, ok o)
      → apply_twice digests duplicate_every t c o ≡ ok t
  unfolding apply_twice
  apply_twice-ok s t c o h =
      let again = apply_again s t c o h in
      ground (arith, ap (λ r. r.0) again, ap (λ r. r.1) again, outcome_eq_refl o)

  -- A duplicate changes nothing.
  replay_command-0 :
      (index other : ℕ) (s : ReferenceStore) (c : Command)
      → replay_command digests duplicate_every index s c ≡ replay_command digests 0 other s c
  unfolding replay_command
  replay_command-0 index other s c = elim (Result-cases (apply digests s c).1) [
    | inl (o, done) ↦
        let twice =
          apply_twice-ok s (apply digests s c).0 c o (λ i. ((apply digests s c).0, done i)) in
        elim (Bool-cases (is_duplicated duplicate_every index)) [
          | inl again ↦ rw (done, again, twice, replay_command) refl
          | inr once ↦ rw (done, once, replay_command) refl
        ]
    | inr (e, failed) ↦ rw (failed, replay_command) refl
  ]

  replay_from-0 :
      (index : ℕ) (s : ReferenceStore) (commands : List Command)
      → replay_from digests duplicate_every index s commands
        ≡ replay_from digests 0 index s commands
  unfolding replay_from
  replay_from-0 index s [] = refl
  replay_from-0 index s (c ∷ commands) =
      rw (replay_command-0 index index s c, ◌>>=◌)
        (elim (Result-cases (replay_command digests 0 index s c)) [
          | inl (t, done) ↦ rw (done, ◌>>=◌) (replay_from-0 (index + 1) t commands)
          | inr (e, failed) ↦ rw (failed, ◌>>=◌) refl
        ])

  -- A replay that applies some commands twice has the same result, the store or the exception, as
  -- the one that applies each command once and asserts nothing.
  pub replay-duplicates :
      (commands : List Command)
      → replay digests commands duplicate_every ≡ replay digests commands 0
  unfolding replay
  replay-duplicates commands = replay_from-0 0 empty_store commands
