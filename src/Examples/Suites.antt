-- ===== src/Examples/Suites.antt =====
-- The tests of the reference model at the inputs of the repository, or smaller ones.
use mathlib.Core.List.{Permᴰ}
use contract_conformance_tes.Base.{
  ◌≡◌, refl, false, ok, some, List, [], ◌∷◌, ◌++◌, Text, bytes, get, put, discard, text_eq, arith,
}
use contract_conformance_tes.Store.{
  Outcome, change, record_outcome, fingerprint, apply_new, apply, empty_store, run, snapshot,
}
use contract_conformance_tes.Store.Suite.{
  ReplaysDeterministically, replay-ReplaysDeterministically, storm, behind, copies, storm-copies,
}
use contract_conformance_tes.Store.Suite.Order.{creates, snapshot-creates}
use contract_conformance_tes.Examples.Stores.{plain, create_a, counting, counting-Chooses}

replay-ReplaysDeterministically_example : ReplaysDeterministically plain counting 7 240 7 5
replay-ReplaysDeterministically_example =
    replay-ReplaysDeterministically plain counting 7 counting-Chooses 240 7 5

abbrev first : Outcome
first = record { revision = 1; entity_id = bytes "a"; value = some (bytes "one"); deleted = false }

first_answer : apply plain empty_store create_a ≡ ((apply plain empty_store create_a).0, ok first)
unfolding apply apply_new change record_outcome fingerprint get put text_eq discard
first_answer = refl

-- The storm of 64 duplicates.
storm-copies_instance :
    (storm plain 64 (apply plain empty_store create_a).0 create_a ≡ copies plain 64 (ok first))
    × (behind plain 64 (apply plain empty_store create_a).0 create_a
        ≡ (apply plain empty_store create_a).0)
storm-copies_instance =
    storm-copies plain 64 empty_store (apply plain empty_store create_a).0 create_a first
      first_answer

abbrev bac : List (Text × Text)
bac = (bytes "b", bytes "B") ∷ (bytes "a", bytes "A") ∷ (bytes "c", bytes "C") ∷ []

abbrev cba : List (Text × Text)
cba = (bytes "c", bytes "C") ∷ (bytes "b", bytes "B") ∷ (bytes "a", bytes "A") ∷ []

abbrev left : Text → Text
left e = bytes "l-" ++ e

abbrev right : Text → Text
right e = bytes "r-" ++ e

snapshot-creates_example :
    snapshot plain (run plain empty_store (creates left bac))
    ≡ snapshot plain (run plain empty_store (creates right cba))
snapshot-creates_example =
    snapshot-creates plain left right (λ a b h. ground (arith, h)) (λ a b h. ground (arith, h)) bac
      cba (ground arith)
      ∣ Permᴰ.trans (Permᴰ.cons refl (Permᴰ.swap refl refl)) (Permᴰ.swap refl refl) ∣₁
