-- ===== src/Server/Session/Quiet.antt =====
-- What the server has sent at any time.
use mathlib.Core.List.{append-nil}
use contract_conformance_tes.Base.{
  ℕ, zero, suc, ◌+◌, ◌≤◌, ◌≡◌, ◌≢◌, inl, inr, refl, sym, ap, Bool-cases, leb, Option, none, some,
  List, [], ◌∷◌, ◌++◌, Text, Begins, is_empty, arith,
}
use contract_conformance_tes.Server.{is_complete}
use contract_conformance_tes.Server.Session.{
  Point, Session, Event, bytes_of, first_bytes, read_chunk, step, run_from, spawned, server_once,
}

-- The request was signalled, and the delay has passed since.
abbrev pub IsDue : ℕ → Session → Type 0
IsDue delay s = (t : ℕ) × (s.seen_at ≡ some t) × (t + delay ≤ s.clock)

-- What the point in the task says of the rest.
abbrev AtPoint : Option Text → ℕ → Session → Point → Type 0
AtPoint response delay s Point.accepting = (s.seen_at ≡ none) × (s.sent ≡ [])
AtPoint response delay s (Point.reading request) = (s.seen_at ≡ none) × (s.sent ≡ [])
AtPoint response delay s Point.signalling = (s.seen_at ≡ none) × (s.sent ≡ [])
AtPoint response delay s (Point.sleeping wake) =
    (t : ℕ) × (s.seen_at ≡ some t) × (wake ≡ t + delay) × (s.sent ≡ [])
AtPoint response delay s Point.responding = IsDue delay s × (s.sent ≡ [])
AtPoint response delay s Point.finished = IsDue delay s × Begins (bytes_of response) s.sent
AtPoint response delay s Point.panicked = (s.seen_at ≡ none) × (s.sent ≡ [])

abbrev session : ℕ → Point → Option ℕ → Text → Session
session clock p seen sent = record { clock = clock; point = p; seen_at = seen; sent = sent }

Begins-first_bytes : (n : ℕ) (s : Text) → Begins s (first_bytes n s)
Begins-first_bytes zero s = (s, refl)
Begins-first_bytes (suc n) [] = ([], refl)
Begins-first_bytes (suc n) (b ∷ s) =
    let (rest, e) = Begins-first_bytes n s in (rest, ap (λ l. b ∷ l) e)

module _ (response : Option Text) (delay : ℕ) where
  -- Time that passes keeps what was due.
  tick-AtPoint :
      (p : Point) (s : Session)
      → AtPoint response delay s p
      → AtPoint response delay (record s { clock = s.clock + 1 }) p
  tick-AtPoint Point.accepting s h = h
  tick-AtPoint (Point.reading request) s h = h
  tick-AtPoint Point.signalling s h = h
  tick-AtPoint (Point.sleeping wake) s h = h
  tick-AtPoint Point.responding s ((t, e, due), h) = ((t, e, omega arith), h)
  tick-AtPoint Point.finished s ((t, e, due), h) = ((t, e, omega arith), h)
  tick-AtPoint Point.panicked s h = h

  read_chunk-AtPoint :
      (request chunk : Text) (s : Session)
      → (s.seen_at ≡ none) × (s.sent ≡ [])
      → AtPoint response delay s (read_chunk request chunk)
  read_chunk-AtPoint request chunk s h = elim (Bool-cases (is_empty chunk)) [
    | inl closed ↦ rw closed h
    | inr full ↦ elim (Bool-cases (is_complete (request ++ chunk))) [
      | inl complete ↦ rw (full, complete) h
      | inr partial ↦ rw (full, partial) h
    ]
  ]

  -- Every event keeps what the point says.
  step-AtPoint :
      (event : Event) (clock : ℕ) (p : Point) (seen : Option ℕ) (sent : Text)
      → AtPoint response delay (session clock p seen sent) p
      → AtPoint response delay
          (step response delay event (session clock p seen sent))
          (step response delay event (session clock p seen sent)).point
  unfolding step
  step-AtPoint Event.tick clock p seen sent h = tick-AtPoint p (session clock p seen sent) h
  step-AtPoint Event.connect clock Point.accepting seen sent h = h
  step-AtPoint Event.connect clock (Point.reading request) seen sent h = h
  step-AtPoint Event.connect clock Point.signalling seen sent h = h
  step-AtPoint Event.connect clock (Point.sleeping wake) seen sent h = h
  step-AtPoint Event.connect clock Point.responding seen sent h = h
  step-AtPoint Event.connect clock Point.finished seen sent h = h
  step-AtPoint Event.connect clock Point.panicked seen sent h = h
  step-AtPoint Event.proceed clock Point.accepting seen sent h = h
  step-AtPoint Event.proceed clock (Point.reading request) seen sent h = h
  step-AtPoint Event.proceed clock Point.signalling seen sent (fresh, empty) =
      (clock, refl, refl, empty)
  step-AtPoint Event.proceed clock (Point.sleeping wake) seen sent (t, e, due, empty) =
      elim (Bool-cases (leb wake clock)) [
        | inl awake ↦ rw awake ((t, e, ground arith), empty)
        | inr asleep ↦ rw asleep (t, e, due, empty)
      ]
  step-AtPoint Event.proceed clock Point.responding seen sent (due, empty) =
      (due, ([], sym (append-nil (bytes_of response))))
  step-AtPoint Event.proceed clock Point.finished seen sent h = h
  step-AtPoint Event.proceed clock Point.panicked seen sent h = h
  step-AtPoint (Event.receive chunk) clock Point.accepting seen sent h = h
  step-AtPoint (Event.receive chunk) clock (Point.reading request) seen sent h =
      read_chunk-AtPoint request chunk (session clock (read_chunk request chunk) seen sent) h
  step-AtPoint (Event.receive chunk) clock Point.signalling seen sent h = h
  step-AtPoint (Event.receive chunk) clock (Point.sleeping wake) seen sent h = h
  step-AtPoint (Event.receive chunk) clock Point.responding seen sent h = h
  step-AtPoint (Event.receive chunk) clock Point.finished seen sent h = h
  step-AtPoint (Event.receive chunk) clock Point.panicked seen sent h = h
  step-AtPoint (Event.fail n) clock Point.accepting seen sent h = h
  step-AtPoint (Event.fail n) clock (Point.reading request) seen sent h = h
  step-AtPoint (Event.fail n) clock Point.signalling seen sent h = h
  step-AtPoint (Event.fail n) clock (Point.sleeping wake) seen sent h = h
  step-AtPoint (Event.fail n) clock Point.responding seen sent (due, empty) =
      (due, Begins-first_bytes n (bytes_of response))
  step-AtPoint (Event.fail n) clock Point.finished seen sent h = h
  step-AtPoint (Event.fail n) clock Point.panicked seen sent h = h

  run_from-AtPoint :
      (events : List Event) (s : Session)
      → AtPoint response delay s s.point
      → AtPoint response delay
          (run_from response delay s events)
          (run_from response delay s events).point
  unfolding run_from
  run_from-AtPoint [] s h = h
  run_from-AtPoint (event ∷ events) s h =
      run_from-AtPoint events (step response delay event s)
        (step-AtPoint event s.clock s.point s.seen_at s.sent h)

  -- What has been written is the response up to some byte, and before anything is written or the
  -- task ends the request is signalled and the delay passes.
  pub record IsQuiet (s : Session) : Type 0 where
    pub written : Begins (bytes_of response) s.sent
    pub due_write : s.sent ≢ [] → IsDue delay s
    pub due_end : s.point ≡ Point.finished → IsDue delay s

  silent : (s : Session) → s.sent ≡ [] → s.point ≢ Point.finished → IsQuiet s
  silent s empty going = record {
    written = (bytes_of response, rw empty refl);
    due_write = λ n. absurd (n empty);
    due_end = λ e. absurd (going e);
  }

  AtPoint-IsQuiet : (p : Point) (s : Session) → s.point ≡ p → AtPoint response delay s p → IsQuiet s
  AtPoint-IsQuiet Point.accepting s e (fresh, empty) = silent s empty (λ f. cc)
  AtPoint-IsQuiet (Point.reading request) s e (fresh, empty) = silent s empty (λ f. cc)
  AtPoint-IsQuiet Point.signalling s e (fresh, empty) = silent s empty (λ f. cc)
  AtPoint-IsQuiet (Point.sleeping wake) s e (t, seen, due, empty) = silent s empty (λ f. cc)
  AtPoint-IsQuiet Point.responding s e (due, empty) = silent s empty (λ f. cc)
  AtPoint-IsQuiet Point.finished s e (due, begins) = record {
    written = begins;
    due_write = λ n. due;
    due_end = λ f. due;
  }
  AtPoint-IsQuiet Point.panicked s e (fresh, empty) = silent s empty (λ f. cc)

  -- Whatever happens in whatever order, the server writes nothing, and its task does not finish
  -- (other than by a failing `expect`), before it has signalled the request and the delay has
  -- passed since; what it writes is the response, or the front of it if the write fails.
  pub server_once-IsQuiet : (events : List Event) → IsQuiet (server_once response delay events)
  unfolding server_once
  server_once-IsQuiet events =
      AtPoint-IsQuiet (run_from response delay spawned events).point
        (run_from response delay spawned events) refl (run_from-AtPoint events spawned (refl, refl))
