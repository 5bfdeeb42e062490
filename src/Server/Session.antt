-- ===== src/Server/Session.antt =====
-- `server_once` as a state machine: the task that it spawns, under a clock in milliseconds. An
-- event is what the outside does next: time passes, a client connects, a read returns, the task
-- is run, a call fails.
pub mod Quiet
pub mod Progress
pub mod Serves
use contract_conformance_tes.Base.{
  ℕ, zero, suc, ◌+◌, leb, if◌then◌else◌, Option, none, some, List, [], ◌∷◌, ◌++◌, Text, is_empty,
}
use contract_conformance_tes.Server.{is_complete}

-- Where the task stands: in `accept`, in the loop with what it has read, before `send`, in `sleep`
-- until a time, before `write_all`, at its end, and stopped by an `expect`.
pub data Point : Type 0 where
  accepting : Point
  reading : Text → Point
  signalling : Point
  sleeping : ℕ → Point
  responding finished panicked : Point

-- `seen_at` is the time of `seen_tx.send(())`; `sent` is what was written to the socket.
pub record Session : Type 0 where
  pub clock : ℕ
  pub point : Point
  pub seen_at : Option ℕ
  pub sent : Text

-- `receive` is a read that returns, with no byte at the end of the stream; `fail n` is a call
-- that fails, a write after `n` bytes.
pub data Event : Type 0 where
  tick connect proceed : Event
  receive : Text → Event
  fail : ℕ → Event

abbrev pub bytes_of : Option Text → Text
bytes_of none = []
bytes_of (some response) = response

abbrev pub first_bytes : ℕ → Text → Text
first_bytes zero s = []
first_bytes (suc n) [] = []
first_bytes (suc n) (b ∷ s) = b ∷ first_bytes n s

-- A round of the loop, by what the read returns.
abbrev pub read_chunk : Text → Text → Point
read_chunk request chunk =
    if is_empty chunk
    then signalling
    else if is_complete (request ++ chunk)
    then signalling
    else reading (request ++ chunk)

module _ (response : Option Text) (delay : ℕ) where
  unfoldable pub step : Event → Session → Session
  step tick s = record s { clock = s.clock + 1 }
  step connect s = elim s.point [ accepting ↦ record s { point = reading [] } | _ ↦ s ]
  step (receive chunk) s = elim s.point [
    | reading request ↦ record s { point = read_chunk request chunk }
    | _ ↦ s
  ]
  step proceed s = elim s.point [
    | signalling ↦ record s { point = sleeping (s.clock + delay); seen_at = some s.clock }
    | sleeping wake ↦ if leb wake s.clock then record s { point = responding } else s
    | responding ↦ record s { point = finished; sent = bytes_of response }
    | _ ↦ s
  ]
  step (fail n) s = elim s.point [
    | accepting ↦ record s { point = panicked }
    | reading request ↦ record s { point = panicked }
    | responding ↦ record s { point = finished; sent = first_bytes n (bytes_of response) }
    | _ ↦ s
  ]

  -- The events from first to last.
  unfoldable pub run_from : Session → List Event → Session
  unfolding step
  run_from s [] = s
  run_from s (event ∷ events) = run_from (step event s) events

abbrev pub spawned : Session
spawned = record { clock = 0; point = accepting; seen_at = none; sent = [] }

-- `server_once(response, delay)`
unfoldable pub server_once : Option Text → ℕ → List Event → Session
unfolding run_from
server_once response delay events = run_from response delay spawned events
