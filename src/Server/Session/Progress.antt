-- ===== src/Server/Session/Progress.antt =====
-- How far the task of the server has come, which no event but a failure takes back.
use contract_conformance_tes.Base.{
  ℕ, ◌+◌, ◌≤◌, ◌≡◌, ◌⊎◌, inl, inr, refl, true, Bool-cases, leb, Option, Text, arith,
}
use contract_conformance_tes.Server.Session.{Point, Session, Event, bytes_of, step}

-- No call fails.
abbrev pub Goes : Event → Type 0
Goes (Event.fail n) = ⊥
Goes _ = Unit

module _ (response : Option Text) (delay : ℕ) where
  -- How far the task has come: to its end with the response written, through its sleep, through
  -- the signal by a time, through its reads.
  abbrev pub HasServed : Session → Type 0
  HasServed s = (s.point ≡ Point.finished) × (s.sent ≡ bytes_of response)

  abbrev pub HasWoken : Session → Type 0
  HasWoken s = (s.point ≡ Point.responding) ⊎ HasServed s

  abbrev pub HasSignalled : ℕ → Session → Type 0
  HasSignalled t s =
      ((wake : ℕ) × (s.point ≡ Point.sleeping wake) × (wake ≤ t + delay)) ⊎ HasWoken s

  abbrev pub HasRead : Session → Type 0
  HasRead s = (s.point ≡ Point.signalling) ⊎ HasSignalled s.clock s

  pub step-HasServed :
      (event : Event) (s : Session)
      → Goes event
      → HasServed s
      → HasServed (step response delay event s)
  unfolding step
  step-HasServed Event.tick s g h = h
  step-HasServed Event.connect s g (at, all) = rw at (refl, all)
  step-HasServed Event.proceed s g (at, all) = rw at (refl, all)
  step-HasServed (Event.receive chunk) s g (at, all) = rw at (refl, all)
  step-HasServed (Event.fail n) s g h = absurd g

  pub step-HasWoken :
      (event : Event) (s : Session)
      → Goes event
      → HasWoken s
      → HasWoken (step response delay event s)
  unfolding step
  step-HasWoken event s g (inr served) = inr (step-HasServed event s g served)
  step-HasWoken Event.tick s g (inl at) = inl at
  step-HasWoken Event.connect s g (inl at) = inl (rw at refl)
  step-HasWoken Event.proceed s g (inl at) = inr (rw at (refl, refl))
  step-HasWoken (Event.receive chunk) s g (inl at) = inl (rw at refl)
  step-HasWoken (Event.fail n) s g (inl at) = absurd g

  pub step-HasSignalled :
      (t : ℕ) (event : Event) (s : Session)
      → Goes event
      → HasSignalled t s
      → HasSignalled t (step response delay event s)
  unfolding step
  step-HasSignalled t event s g (inr woken) = inr (step-HasWoken event s g woken)
  step-HasSignalled t Event.tick s g (inl h) = inl h
  step-HasSignalled t Event.connect s g (inl (wake, at, h)) = inl (wake, rw at refl, h)
  step-HasSignalled t Event.proceed s g (inl (wake, at, h)) = elim (Bool-cases (leb wake s.clock)) [
    | inl due ↦ inr (inl (rw (at, due) refl))
    | inr early ↦ inl (wake, rw (at, early) refl, h)
  ]
  step-HasSignalled t (Event.receive chunk) s g (inl (wake, at, h)) = inl (wake, rw at refl, h)
  step-HasSignalled t (Event.fail n) s g (inl h) = absurd g

  pub clock-step : (event : Event) (s : Session) → s.clock ≤ (step response delay event s).clock
  unfolding step
  clock-step event s = ground arith

  later-HasSignalled : (t u : ℕ) (s : Session) → t ≤ u → HasSignalled t s → HasSignalled u s
  later-HasSignalled t u s h (inl (wake, at, due)) = inl (wake, at, omega arith)
  later-HasSignalled t u s h (inr woken) = inr woken

  pub step-HasRead :
      (event : Event) (s : Session) → Goes event → HasRead s → HasRead (step response delay event s)
  unfolding step
  step-HasRead event s g (inr signalled) = inr (
      later-HasSignalled s.clock (step response delay event s).clock (step response delay event s)
        (clock-step event s) (step-HasSignalled s.clock event s g signalled))
  step-HasRead Event.tick s g (inl at) = inl at
  step-HasRead Event.connect s g (inl at) = inl (rw at refl)
  step-HasRead Event.proceed s g (inl at) =
      let later = clock-step Event.proceed s in inr (inl (s.clock + delay, rw at refl, omega arith))
  step-HasRead (Event.receive chunk) s g (inl at) = inl (rw at refl)
  step-HasRead (Event.fail n) s g (inl at) = absurd g

  -- A turn goes on from the signal, from a sleep that is due, and from the write.
  pub proceed-HasRead :
      (s : Session) → HasRead s → HasSignalled s.clock (step response delay Event.proceed s)
  unfolding step
  proceed-HasRead s (inl at) = inl (s.clock + delay, rw at refl, omega arith)
  proceed-HasRead s (inr signalled) = step-HasSignalled s.clock Event.proceed s tt signalled

  pub proceed-HasSignalled :
      (t : ℕ) (s : Session)
      → t + delay ≤ s.clock
      → HasSignalled t s
      → HasWoken (step response delay Event.proceed s)
  unfolding step
  proceed-HasSignalled t s h (inl (wake, at, due)) =
      let awake : leb wake s.clock ≡ true = ground arith in inl (rw (at, awake) refl)
  proceed-HasSignalled t s h (inr woken) = step-HasWoken Event.proceed s tt woken

  pub proceed-HasWoken :
      (s : Session) → HasWoken s → HasServed (step response delay Event.proceed s)
  unfolding step
  proceed-HasWoken s (inl at) = rw at (refl, refl)
  proceed-HasWoken s (inr served) = step-HasServed Event.proceed s tt served
