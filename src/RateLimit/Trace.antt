-- ===== src/RateLimit/Trace.antt =====
-- The limiter over a run of calls and of rounds of the sweep, where every key has its own limit and
-- duration, as middleware/rate-limit.go calls it.
use text.Mathlib.TextEquality.{eq_iff}
use east_api.Prelude.{
  ℕ, ◌≤◌, ◌≡◌, refl, subst, inl, inr, String, Option, none, some, List, [], ◌∷◌, str_eq,
  if◌then◌else◌, arith, if_cases, Bool-cases,
}
use east_api.RateLimit.{
  InMemoryRateLimiter, enqueue, request_entry, request, is_stale, swept, clear_expired, init,
}
use east_api.RateLimit.Window.{in_stretch, Tracks}
use east_api.RateLimit.Steps.{
  log_after, Tracks-later, Tracks-forget, enqueue-Served, Explained, enqueue-Explained,
}

pub data Event : Type 0 where
  ask : String → ℕ → Event
  sweep : ℕ → Event

abbrev pub time_of : Event → ℕ
time_of (ask key now) = now
time_of (sweep now) = now

-- The events happen one after another, the first not before `from`.
abbrev pub InOrder : ℕ → List Event → Type 0
InOrder from [] = Unit
InOrder from (e ∷ es) = (from ≤ time_of e) × InOrder (time_of e) es

abbrev queue_of : Option (List ℕ) → List ℕ
queue_of none = []
queue_of (some queue) = queue

module _ (limit span : String → ℕ) (k : String) where
  -- The limiter after an event, and the times at which the key `k` was admitted
  unfoldable pub step : Event → InMemoryRateLimiter × List ℕ → InMemoryRateLimiter × List ℕ
  unfolding request clear_expired
  step (ask key now) (l, log) =
      let (answer, l') = request key (limit key) (span key) now l in
      (l', if str_eq k key then log_after answer now log else log)
  step (sweep now) (l, log) = (clear_expired now l, log)

  unfoldable pub run : List Event → InMemoryRateLimiter × List ℕ → InMemoryRateLimiter × List ℕ
  unfolding step
  run [] state = state
  run (e ∷ es) state = run es (step e state)

request_entry-enqueue :
    (max d now : ℕ) (e : Option (List ℕ))
    → 1 ≤ max
    → request_entry max d now e ≡ enqueue max d now (queue_of e)
unfolding request_entry enqueue
request_entry-enqueue max d now none h = ground arith
request_entry-enqueue max d now (some queue) h = refl

module _ (limit span : String → ℕ) (k : String) (some_room : 1 ≤ limit k) where
  abbrev Fine : ℕ → ℕ → InMemoryRateLimiter × List ℕ → Type 0
  Fine expiration now (l, log) =
      Tracks (limit k) (span k) now log (queue_of (l.store k)) × (l.expiration ≡ expiration)

  asked_for :
      (expiration now : ℕ) (l : InMemoryRateLimiter) (log : List ℕ)
      → Fine expiration now (l, log)
      → Fine expiration now (step limit span k (ask k now) (l, log))
  unfolding step request
  asked_for expiration now l log h =
      rw ((eq_iff k k).1 refl, request_entry-enqueue (limit k) (span k) now (l.store k) some_room)
        ((enqueue-Served (limit k) (span k) now log (queue_of (l.store k)) some_room h.0).1, h.1)

  asked :
      (expiration now : ℕ) (key : String) (l : InMemoryRateLimiter) (log : List ℕ)
      → Fine expiration now (l, log)
      → Fine expiration now (step limit span k (ask key now) (l, log))
  unfolding step request
  asked expiration now key l log h = elim (Bool-cases (str_eq k key)) [
    | inl same ↦
        subst (λ key'. Fine expiration now (step limit span k (ask key' now) (l, log)))
          ((eq_iff k key).0 same) (asked_for expiration now l log h)
    | inr other ↦ rw other h
  ]

  swept-Tracks :
      (expiration now : ℕ) (e : Option (List ℕ)) (log : List ℕ)
      → span k ≤ expiration
      → Tracks (limit k) (span k) now log (queue_of e)
      → Tracks (limit k) (span k) now log (queue_of (swept expiration now e))
  unfolding swept
  swept-Tracks expiration now none log le h = h
  swept-Tracks expiration now (some queue) log le h =
      if_cases (λ e. Tracks (limit k) (span k) now log (queue_of e)) (is_stale expiration now queue)
        (λ stale. Tracks-forget (limit k) (span k) expiration now log queue some_room le stale h)
        (λ fresh. h)

  step-Fine :
      (expiration from : ℕ) (e : Event) (l : InMemoryRateLimiter) (log : List ℕ)
      → span k ≤ expiration
      → from ≤ time_of e
      → Fine expiration from (l, log)
      → Fine expiration (time_of e) (step limit span k e (l, log))
  unfolding step clear_expired
  step-Fine expiration from (ask key now) l log le later h =
      asked expiration now key l log
        (Tracks-later (limit k) (span k) from now log (queue_of (l.store k)) later h.0, h.1)
  step-Fine expiration from (sweep now) l log le later h = (
    swept-Tracks l.expiration now (l.store k) log (rw h.1 le)
        (Tracks-later (limit k) (span k) from now log (queue_of (l.store k)) later h.0),
    h.1,
  )

  abbrev last_time : ℕ → List Event → ℕ
  last_time from [] = from
  last_time from (e ∷ es) = last_time (time_of e) es

  run-Fine :
      (expiration from : ℕ) (events : List Event) (state : InMemoryRateLimiter × List ℕ)
      → span k ≤ expiration
      → InOrder from events
      → Fine expiration from state
      → Fine expiration (last_time from events) (run limit span k events state)
  unfolding run
  run-Fine expiration from [] state le order h = h
  run-Fine expiration from (e ∷ es) (l, log) le order h =
      run-Fine expiration (time_of e) es (step limit span k e (l, log)) le order.1
        (step-Fine expiration from e l log le order.0 h)

  init-Fine : (expiration : ℕ) → Fine expiration 0 (init expiration, [])
  init-Fine expiration = (
    record {
      old = [];
      split = refl;
      bounded = omega arith;
      ordered = tt;
      so_far = tt;
      settled = inr tt;
      windows = λ t. omega arith;
    },
    refl,
  )

  -- Whatever calls for whatever keys and rounds of the sweep follow one another, in whatever stretch of
  -- time of the key's duration no more requests are admitted for a key than its limit, where the limit
  -- is at least 1 and the duration is not longer than the expiration.
  pub run-in_stretch :
      (expiration : ℕ) (events : List Event)
      → span k ≤ expiration
      → InOrder 0 events
      → (t : ℕ) → in_stretch t (span k) (run limit span k events (init expiration, [])).1 ≤ limit k
  run-in_stretch expiration events le order t =
      (run-Fine expiration 0 events (init expiration, []) le order (init-Fine expiration)).0.windows
        t

  -- After whatever calls and rounds of the sweep, the next call for the key is admitted only if its
  -- time keeps every stretch within the limit, it is refused only if some stretch with its time already
  -- has as many admitted requests as the limit, and it does not go out of range, where the limit is at
  -- least 1 and the duration is not longer than the expiration.
  pub request-Explained :
      (expiration now : ℕ) (events : List Event)
      → span k ≤ expiration
      → InOrder 0 events
      → last_time 0 events ≤ now
      → Explained
          (limit k)
          (span k)
          now
          (run limit span k events (init expiration, [])).1
          (request k (limit k) (span k) now (run limit span k events (init expiration, [])).0).0
  unfolding request
  request-Explained expiration now events le order later =
      rw
        (request_entry-enqueue (limit k) (span k) now
          ((run limit span k events (init expiration, [])).0.store k) some_room)
        (enqueue-Explained (limit k) (span k) now (run limit span k events (init expiration, [])).1
          (queue_of ((run limit span k events (init expiration, [])).0.store k)) some_room
          (Tracks-later (limit k) (span k) (last_time 0 events) now
            (run limit span k events (init expiration, [])).1
            (queue_of ((run limit span k events (init expiration, [])).0.store k)) later
            (run-Fine expiration 0 events (init expiration, []) le order (init-Fine expiration)).0))
