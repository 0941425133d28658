-- ===== src/RateLimit.antt =====
-- The limiter of requests in memory, common/rate-limit.go: `InMemoryRateLimiter`. Times are seconds;
-- the mutex makes each call one step. The store is a function of the key.
pub mod Window
pub mod Steps
pub mod Trace
use east_api.Prelude.{
  ℕ, ◌+◌, String, Bool, true, false, Option, none, some, List, [], ◌∷◌, ◌++◌, ltb, leb, length,
  str_eq, if◌then◌else◌,
}

-- `store` and `expirationDuration`
pub record InMemoryRateLimiter : Type 0 where
  pub store : String → Option (List ℕ)
  pub expiration : ℕ

-- What a call answers; `panics` is an index out of range.
pub data Answer : Type 0 where
  admitted refused panics : Answer

-- The branch of a key that is there
unfoldable pub enqueue : ℕ → ℕ → ℕ → List ℕ → Answer × List ℕ
enqueue max duration now queue =
    if ltb (length queue) max then (admitted, queue ++ now ∷ []) else elim queue [
      | [] ↦ (panics, [])
      | oldest ∷ rest ↦
          if leb (oldest + duration) now
          then (admitted, rest ++ now ∷ [])
          else (refused, oldest ∷ rest)
    ]

-- `Request`, for the entry of its key
unfoldable pub request_entry : ℕ → ℕ → ℕ → Option (List ℕ) → Answer × List ℕ
unfolding enqueue
request_entry max duration now none = (admitted, now ∷ [])
request_entry max duration now (some queue) = enqueue max duration now queue

abbrev put : String → List ℕ → (String → Option (List ℕ)) → String → Option (List ℕ)
put key queue store k = if str_eq k key then some queue else store k

-- `Request(key, maxRequestNum, duration)` at the time `now`
unfoldable pub request : String → ℕ → ℕ → ℕ → InMemoryRateLimiter → Answer × InMemoryRateLimiter
unfolding request_entry
request key max duration now l =
    let (answer, queue) = request_entry max duration now (l.store key) in
    (answer, record l { store = put key queue l.store })

-- The newest time of a queue is out of date, or there is none.
unfoldable pub is_stale : ℕ → ℕ → List ℕ → Bool
is_stale expiration now [] = true
is_stale expiration now (t ∷ []) = ltb (t + expiration) now
is_stale expiration now (t ∷ u ∷ rest) = is_stale expiration now (u ∷ rest)

unfoldable pub swept : ℕ → ℕ → Option (List ℕ) → Option (List ℕ)
unfolding is_stale
swept expiration now none = none
swept expiration now (some queue) = if is_stale expiration now queue then none else some queue

-- A round of `clearExpiredItems` at the time `now`
unfoldable pub clear_expired : ℕ → InMemoryRateLimiter → InMemoryRateLimiter
unfolding swept
clear_expired now l = record l { store = λ k. swept l.expiration now (l.store k) }

-- `Init`
abbrev pub init : ℕ → InMemoryRateLimiter
init expiration = record { store = λ k. none; expiration = expiration }
