-- ===== src/Store/Trace.antt =====
-- `generate_valid_trace`: random commands, each on an entity that a valid trace allows. Python's
-- `random.Random` is a parameter.
pub mod Names
pub mod Accepts
pub mod Valid
use contract_conformance_tes.Base.{
  ℕ, zero, suc, ◌+◌, Bool, true, false, if◌then◌else◌, ◌||◌, none, some, List, [], ◌∷◌, ◌++◌, Text,
  bytes, add, discard, collect,
}
use contract_conformance_tes.Base.Decimal.{decimal}
use contract_conformance_tes.Store.{Command}

-- `random.Random`, its states and the floats of `random()`. `is_below` compares a float with a
-- number of hundredths.
pub record Randomizer (State Float : Type 0) : Type 0 where
  pub seeded : ℕ → State
  pub random : State → Float × State
  pub is_below : Float → ℕ → Bool
  pub randrange : ℕ → State → ℕ × State
  pub choice : List Text → State → Text × State

-- The variables of the loop.
pub record Generator (State : Type 0) : Type 0 where
  pub live : List Text
  pub next_id : ℕ
  pub randomizer : State

unfoldable pub entity_name : ℕ → ℕ → Text
entity_name seed next_id = bytes "entity-" ++ (decimal seed ++ (b'-' ∷ decimal next_id))

unfoldable pub step_key : ℕ → ℕ → Text
step_key seed index = bytes "seed-" ++ (decimal seed ++ (bytes "-step-" ++ decimal index))

unfoldable pub value_name : ℕ → Text
value_name number = bytes "value-" ++ decimal number

-- `not live`
abbrev pub no_names : List Text → Bool
no_names [] = true
no_names (_ ∷ _) = false

module _ {State Float : Type 0} (library : Randomizer State Float) (seed : ℕ) where
  open library use {seeded, random, is_below, randrange, choice}

  abbrev pub create_command : ℕ → Generator State → State → Command × Generator State
  create_command index g r =
      let entity_id = entity_name seed g.next_id in
      let (number, r') = randrange 1000000 r in
      (
        record {
          kind = bytes "create";
          entity_id = entity_id;
          value = some (value_name number);
          idempotency_key = step_key seed index;
        },
        record { live = add entity_id g.live; next_id = g.next_id + 1; randomizer = r' },
      )

  abbrev pub update_command : ℕ → Generator State → State → Command × Generator State
  update_command index g r =
      let (entity_id, r') = choice (collect g.live) r in
      let (number, r'') = randrange 1000000 r' in
      (
        record {
          kind = bytes "update";
          entity_id = entity_id;
          value = some (value_name number);
          idempotency_key = step_key seed index;
        },
        record g { randomizer = r'' },
      )

  abbrev pub delete_command : ℕ → Generator State → State → Command × Generator State
  delete_command index g r =
      let (entity_id, r') = choice (collect g.live) r in
      (
        record {
          kind = bytes "delete";
          entity_id = entity_id;
          value = none;
          idempotency_key = step_key seed index;
        },
        record g { live = discard entity_id g.live; randomizer = r' },
      )

  -- A round of the loop.
  unfoldable pub next_command : ℕ → Generator State → Command × Generator State
  next_command index g =
      let (decision, r) = random g.randomizer in
      if no_names g.live || is_below decision 36
      then create_command index g r
      else if is_below decision 79
      then update_command index g r
      else delete_command index g r

  unfoldable pub generate_from : ℕ → ℕ → Generator State → List Command
  unfolding next_command
  generate_from zero index g = []
  generate_from (suc steps) index g =
      let (command, g') = next_command index g in command ∷ generate_from steps (index + 1) g'

  unfoldable pub generate_valid_trace : ℕ → List Command
  unfolding generate_from
  generate_valid_trace steps =
      generate_from steps 0 (record { live = []; next_id = 0; randomizer = seeded seed })
