-- ===== src/Relay.antt =====
-- The attempts that a request makes: CacheGetRandomSatisfiedChannel and RetryParam of
-- service/channel_select.go, and the loop of Relay with shouldRetry, controller/relay.go.
pub mod Ends
use east_api.Prelude.{
  ℕ, zero, suc, String, Bool, true, false, not, ◌&&◌, Option, none, some, List, [], ◌∷◌, ltb, leb,
  str_eq, if◌then◌else◌,
}
use east_api.StatusCode.{StatusCodeRange, should_retry}
use east_api.Channel.{
  Channel, Cache, Selection, chosen, nothing, inconsistent, exhausted, get_random_satisfied_channel,
}

-- `RetryParam` with the keys of the gin context that the choice of a group keeps: the index of the
-- group is 0 where it is not set.
pub record RetryParam : Type 0 where
  pub retry : ℕ
  pub reset_next_try : Bool
  pub group_index : ℕ
  pub auto_group : String

-- `IncreaseRetry`
abbrev pub increase_retry : RetryParam → RetryParam
increase_retry p =
    if p.reset_next_try
    then record p { reset_next_try = false }
    else record p { retry = suc p.retry }

-- What a failed attempt comes back with, as far as `shouldRetry` reads it and the context
pub record Failure : Type 0 where
  pub code : ℕ
  pub skips_by_affinity : Bool
  pub is_channel_error : Bool
  pub is_skip_retry : Bool
  pub is_always_skip_code : Bool
  pub names_channel : Bool

-- `shouldRetry`: `spent` says that no retries are left.
abbrev pub should_retry_relay : List StatusCodeRange → Failure → Bool → Bool
should_retry_relay ranges e spent =
    if e.skips_by_affinity
    then false
    else if e.is_channel_error
    then true
    else if e.is_skip_retry
    then false
    else if spent
    then false
    else if e.names_channel
    then false
    else if leb 200 e.code && ltb e.code 300
    then false
    else if ltb e.code 100
    then true
    else if ltb 599 e.code
    then true
    else if e.is_always_skip_code
    then false
    else should_retry ranges e.code

-- A request: what it asks for, the settings, and what meets it at its n-th attempt, which is the cache,
-- the random source for each group, and the failure that the attempt comes back with. No failure
-- stands for a success and for an error that ends the loop at once.
pub record Request : Type 0 where
  pub token_group : String
  pub auto_groups : List String
  pub model : String
  pub cross_group_retry : Bool
  pub retry_times : ℕ
  pub ranges : List StatusCodeRange
  pub cache : ℕ → Cache
  pub draw : ℕ → String → ℕ → ℕ
  pub answer : ℕ → Option Failure

abbrev pub drop : ℕ → List String → List String
drop zero gs = gs
drop (suc n) [] = []
drop (suc n) (g ∷ gs) = drop n gs

abbrev selected : Selection → Option Channel
selected (chosen c) = some c
selected nothing = none
selected inconsistent = none
selected exhausted = none

module _ (q : Request) (n : ℕ) where
  -- The call of `model.GetRandomSatisfiedChannel`
  abbrev pub select_in : String → ℕ → Option Channel
  select_in group retry =
      selected (get_random_satisfied_channel (q.draw n group) (q.cache n) group q.model retry)

  -- The state for the next retry, after a channel of the group with the index `i` was found
  abbrev pub prepared : ℕ → String → ℕ → RetryParam → RetryParam
  prepared i group priority_retry p =
      if q.cross_group_retry && leb q.retry_times priority_retry
      then record p { auto_group = group; group_index = suc i; retry = 0; reset_next_try = true }
      else record p { auto_group = group; group_index = i }

  -- The loop over the groups from the index `i` on
  try_groups : ℕ → ℕ → List String → RetryParam → Option Channel × RetryParam
  try_groups start i [] p = (none, p)
  try_groups start i (g ∷ gs) p =
      let priority_retry = if ltb start i then 0 else p.retry in
      elim (select_in g priority_retry) [
        | none ↦ try_groups start (suc i) gs (record p { group_index = suc i; retry = 0 })
        | some c ↦ (some c, prepared i g priority_retry p)
      ]

  -- `CacheGetRandomSatisfiedChannel`; an error is no channel.
  unfoldable pub cache_get_random_satisfied_channel : RetryParam → Option Channel × RetryParam
  unfolding try_groups
  cache_get_random_satisfied_channel p =
      if str_eq q.token_group "auto"
      then try_groups p.group_index p.group_index (drop p.group_index q.auto_groups) p
      else (select_in q.token_group p.retry, p)

-- `getChannel`: the first attempt goes to the channel that the distributor has chosen.
get_channel : Request → Channel → ℕ → RetryParam → Option Channel × RetryParam
unfolding cache_get_random_satisfied_channel
get_channel q first zero p = (some first, p)
get_channel q first (suc n) p = cache_get_random_satisfied_channel q (suc n) p

-- What follows an attempt: the end, or the rest of the attempts
attempt : Request → ℕ → Bool → Option Channel → Option ℕ → Option ℕ
attempt q n spent none rest = some n
attempt q n spent (some c) rest = elim (q.answer n) [
  | none ↦ some (suc n)
  | some e ↦ if should_retry_relay q.ranges e spent then rest else some (suc n)
]

-- The loop of `Relay` from its n-th attempt on: how many attempts it has made when it ends
unfoldable pub relay : Request → Channel → ℕ → ℕ → RetryParam → Option ℕ
unfolding get_channel attempt
relay q first zero n p = none
relay q first (suc fuel) n p =
    let (found, p') = get_channel q first n p in
    let rest = relay q first fuel (suc n) (increase_retry p') in
    if ltb q.retry_times p.retry
    then some n
    else attempt q n (leb q.retry_times p'.retry) found rest
