-- ===== src/Store/Replay.antt =====
-- `replay`: a trace is applied to an empty store, some of its commands twice.
pub mod Duplicates
use Prim.Native.Nat.{◌%◌}
use contract_conformance_tes.Base.{
  ℕ, zero, suc, ◌+◌, Bool, true, false, not, if◌then◌else◌, ◌&&◌, ◌==◌, Option, none, some, List,
  [], ◌∷◌, Result, ok, err, ◌>>=◌, Text, text_eq,
}
use contract_conformance_tes.Store.{
  Command, Outcome, StoreError, ReferenceStore, Digests, apply, empty_store,
}

-- An exception of `apply`, or the `assert`.
pub data ReplayError : Type 0 where
  raised : StoreError → ReplayError
  assertion_failed : ReplayError

abbrev pub value_eq : Option Text → Option Text → Bool
value_eq none none = true
value_eq (some a) (some b) = text_eq a b
value_eq _ _ = false

abbrev pub flag_eq : Bool → Bool → Bool
flag_eq true b = b
flag_eq false b = not b

-- `==` of the data class.
unfoldable pub outcome_eq : Outcome → Outcome → Bool
outcome_eq a b =
    a.revision == b.revision
    && (text_eq a.entity_id b.entity_id
        && (value_eq a.value b.value && flag_eq a.deleted b.deleted))

abbrev pub is_duplicated : ℕ → ℕ → Bool
is_duplicated duplicate_every index = not (duplicate_every == 0) && index % duplicate_every == 0

module _ (digests : Digests) (duplicate_every : ℕ) where
  -- The `assert`: the command again, with the first outcome.
  unfoldable pub apply_twice :
      ReferenceStore → Command → Outcome → Result ReferenceStore ReplayError
  apply_twice s command first =
      let (t, result) = apply digests s command in
      elim result [
        | err e ↦ err (raised e)
        | ok second ↦ if outcome_eq second first then ok t else err assertion_failed
      ]

  -- One round of the loop.
  unfoldable pub replay_command : ℕ → ReferenceStore → Command → Result ReferenceStore ReplayError
  unfolding apply_twice
  replay_command index s command =
      let (t, result) = apply digests s command in
      elim result [
        | err e ↦ err (raised e)
        | ok first ↦
            if is_duplicated duplicate_every index then apply_twice t command first else ok t
      ]

  unfoldable pub replay_from : ℕ → ReferenceStore → List Command → Result ReferenceStore ReplayError
  unfolding replay_command
  replay_from index s [] = ok s
  replay_from index s (command ∷ commands) = do
    t ← replay_command index s command
    replay_from (index + 1) t commands

-- `replay(commands, duplicate_every)`
unfoldable pub replay : Digests → List Command → ℕ → Result ReferenceStore ReplayError
unfolding replay_from
replay digests commands duplicate_every = replay_from digests duplicate_every 0 empty_store commands
