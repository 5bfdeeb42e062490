-- ===== src/Server/Session/Serves.antt =====
-- The way of the server from the connection to its end, whatever else happens on it, and the loop
-- over the reads in it.
use contract_conformance_tes.Base.{
  ℕ, suc, ◌+◌, ◌≤◌, ◌≡◌, ◌∙◌, inl, inr, refl, sym, subst, Bool-cases, Option, none, some, List, [],
  ◌∷◌, ◌++◌, All, Text, is_empty, arith,
}
use contract_conformance_tes.Server.{is_complete, read_request}
use contract_conformance_tes.Server.Session.{
  Point, Session, Event, step, run_from, spawned, server_once,
}
use contract_conformance_tes.Server.Session.Progress.{
  Goes, HasServed, HasWoken, HasSignalled, HasRead, step-HasServed, step-HasWoken,
  step-HasSignalled, step-HasRead, clock-step, proceed-HasRead, proceed-HasSignalled,
  proceed-HasWoken,
}
use contract_conformance_tes.Server.Session.Quiet.{IsDue, server_once-IsQuiet}

-- What the reads return, and what those behind the first connection return.
abbrev pub reads_of : List Event → List Text
reads_of [] = []
reads_of (Event.receive chunk ∷ events) = chunk ∷ reads_of events
reads_of (_ ∷ events) = reads_of events

abbrev pub reads_behind_connect : List Event → List Text
reads_behind_connect [] = []
reads_behind_connect (Event.connect ∷ events) = reads_of events
reads_behind_connect (_ ∷ events) = reads_behind_connect events

-- The milliseconds that pass, and how often the task is run.
abbrev pub elapsed : List Event → ℕ
elapsed [] = 0
elapsed (Event.tick ∷ events) = suc (elapsed events)
elapsed (_ ∷ events) = elapsed events

abbrev pub turns : List Event → ℕ
turns [] = 0
turns (Event.proceed ∷ events) = suc (turns events)
turns (_ ∷ events) = turns events

module _ (response : Option Text) (delay : ℕ) where
  -- What every event keeps holds after all of them.
  run_from-keeps :
      (P : Session → Type 0)
      → ((event : Event) (s : Session) → Goes event → P s → P (step response delay event s))
      → (events : List Event) (s : Session) → All Goes events
      → P s
      → P (run_from response delay s events)
  unfolding run_from
  run_from-keeps P keeps [] s g h = h
  run_from-keeps P keeps (event ∷ events) s (g, go) h =
      run_from-keeps P keeps events (step response delay event s) go (keeps event s g h)

  run_from-append :
      (s : Session) (xs ys : List Event)
      → run_from response delay s (xs ++ ys)
        ≡ run_from response delay (run_from response delay s xs) ys
  unfolding run_from
  run_from-append s [] ys = refl
  run_from-append s (x ∷ xs) ys = run_from-append (step response delay x s) xs ys

  -- The reads of the state machine are the loop.
  reading-HasRead :
      (events : List Event) (clock : ℕ) (start request : Text)
      → All Goes events
      → read_request start (reads_of events) ≡ some request
      → (HasRead response delay) (
          run_from response delay
            (record { clock = clock; point = Point.reading start; seen_at = none; sent = [] })
            events)
  unfolding run_from step read_request
  reading-HasRead [] clock start request g h = cc
  reading-HasRead (Event.tick ∷ events) clock start request (g, go) h =
      reading-HasRead events (clock + 1) start request go h
  reading-HasRead (Event.connect ∷ events) clock start request (g, go) h =
      reading-HasRead events clock start request go h
  reading-HasRead (Event.proceed ∷ events) clock start request (g, go) h =
      reading-HasRead events clock start request go h
  reading-HasRead (Event.fail n ∷ events) clock start request (g, go) h = absurd g
  reading-HasRead (Event.receive chunk ∷ events) clock start request (g, go) h =
      elim (Bool-cases (is_empty chunk)) [
        | inl closed ↦
            run_from-keeps (HasRead response delay) (step-HasRead response delay) events _ go
              (inl (rw closed refl))
        | inr full ↦ elim (Bool-cases (is_complete (start ++ chunk))) [
          | inl complete ↦
              run_from-keeps (HasRead response delay) (step-HasRead response delay) events _ go
                (inl (rw (full, complete) refl))
          | inr partial ↦
              rw (full, partial, run_from)
                (reading-HasRead events clock (start ++ chunk) request go (ground arith))
        ]
      ]

  accepting-HasRead :
      (events : List Event) (clock : ℕ) (request : Text)
      → All Goes events
      → read_request [] (reads_behind_connect events) ≡ some request
      → (HasRead response delay) (
          run_from response delay
            (record { clock = clock; point = Point.accepting; seen_at = none; sent = [] })
            events)
  unfolding run_from step read_request
  accepting-HasRead [] clock request g h = cc
  accepting-HasRead (Event.tick ∷ events) clock request (g, go) h =
      accepting-HasRead events (clock + 1) request go h
  accepting-HasRead (Event.connect ∷ events) clock request (g, go) h =
      reading-HasRead events clock [] request go h
  accepting-HasRead (Event.proceed ∷ events) clock request (g, go) h =
      accepting-HasRead events clock request go h
  accepting-HasRead (Event.fail n ∷ events) clock request (g, go) h = absurd g
  accepting-HasRead (Event.receive chunk ∷ events) clock request (g, go) h =
      accepting-HasRead events clock request go h

  clock-run_from :
      (events : List Event) (s : Session)
      → s.clock + elapsed events ≤ (run_from response delay s events).clock
  unfolding run_from step
  clock-run_from [] s = omega arith
  clock-run_from (Event.tick ∷ events) s =
      let rest = clock-run_from events (step response delay Event.tick s) in omega arith
  clock-run_from (event ∷ events) s =
      let rest = clock-run_from events (step response delay event s) in
      let now = clock-step response delay event s in omega arith

  -- If a turn takes `P` to `Q`, and from `Q` further turns reach `R`, then `R` is reached from `P`
  -- with one turn more, whatever happens between the turns.
  one_turn :
      (P Q R : Session → Type 0) (n : ℕ)
      → ((event : Event) (s : Session) → Goes event → P s → P (step response delay event s))
      → ((s : Session) → P s → Q (step response delay Event.proceed s))
      → ((events : List Event) (s : Session)
          → All Goes events
          → n ≤ turns events
          → Q s
          → R (run_from response delay s events))
      → (events : List Event) (s : Session) → All Goes events
      → suc n ≤ turns events
      → P s
      → R (run_from response delay s events)
  unfolding run_from
  one_turn P Q R n keeps moves reaches [] s g enough h = absurd (omega arith)
  one_turn P Q R n keeps moves reaches (Event.proceed ∷ events) s (g, go) enough h =
      reaches events (step response delay Event.proceed s) go (omega arith) (moves s h)
  one_turn P Q R n keeps moves reaches (event ∷ events) s (g, go) enough h =
      one_turn P Q R n keeps moves reaches events (step response delay event s) go enough
        (keeps event s g h)

  abbrev IsAwaited : ℕ → Session → Type 0
  IsAwaited t s = HasSignalled response delay t s × (t + delay ≤ s.clock)

  step-IsAwaited :
      (t : ℕ) (event : Event) (s : Session)
      → Goes event
      → IsAwaited t s
      → IsAwaited t (step response delay event s)
  step-IsAwaited t event s g (signalled, due) =
      let later = clock-step response delay event s in
      (step-HasSignalled response delay t event s g signalled, omega arith)

  -- Two turns behind the sleep end it and write the response.
  two_turns :
      (t : ℕ) (events : List Event) (s : Session)
      → All Goes events
      → 2 ≤ turns events
      → IsAwaited t s
      → HasServed response delay (run_from response delay s events)
  two_turns t =
      one_turn (IsAwaited t) (HasWoken response delay) (HasServed response delay) 1
        (step-IsAwaited t)
        (λ s (signalled, due). proceed-HasSignalled response delay t s due signalled)
        (one_turn (HasWoken response delay) (HasServed response delay) (HasServed response delay) 0
          (step-HasWoken response delay) (proceed-HasWoken response delay)
          (λ events s go enough.
            run_from-keeps (HasServed response delay) (step-HasServed response delay) events s go))

  -- Let no call fail, and the events be of four parts: first ones in which the reads behind the
  -- first connection give a request; a turn of the task; some in which at least the delay passes;
  -- and some with at least two turns. Each part may have any other events too, in any order. Then
  -- the task has finished with the whole response written, and it had signalled the request at
  -- least the delay before.
  pub server_once-serves :
      (opening waiting closing : List Event) (request : Text)
      → All Goes opening
      → All Goes waiting
      → All Goes closing
      → read_request [] (reads_behind_connect opening) ≡ some request
      → delay ≤ elapsed waiting
      → 2 ≤ turns closing
      → let s : Session =
          server_once response delay (opening ++ (Event.proceed ∷ (waiting ++ closing))) in
        HasServed response delay s × IsDue delay s
  unfolding server_once run_from
  server_once-serves opening waiting closing request go_on wait close h enough turned =
      let opened = run_from response delay spawned opening in
      let read : HasRead response delay opened = accepting-HasRead opening 0 request go_on h in
      let asleep = step response delay Event.proceed opened in
      let waited = run_from response delay asleep waiting in
      let passed = clock-run_from waiting asleep in
      let started = clock-step response delay Event.proceed opened in
      let awaited : IsAwaited opened.clock waited = (
        run_from-keeps (HasSignalled response delay opened.clock)
            (step-HasSignalled response delay opened.clock) waiting asleep wait
            (proceed-HasRead response delay opened read),
        omega arith,
      ) in
      let served = two_turns opened.clock closing waited close turned awaited in
      let same =
        run_from-append spawned opening (Event.proceed ∷ (waiting ++ closing))
        ∙ run_from-append asleep waiting closing in
      let done = subst (HasServed response delay) (sym same) served in
      (
        done,
        (server_once-IsQuiet response delay
              (opening ++ (Event.proceed ∷ (waiting ++ closing)))).due_end
            done.0,
      )
