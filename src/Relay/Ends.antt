-- ===== src/Relay/Ends.antt =====
-- The attempts of a request come to an end, although the count of retries starts again in every group.
use east_api.Prelude.{
  ℕ, zero, suc, ◌+◌, ◌-◌, ◌≤◌, ◌<◌, ◌≡◌, refl, sym, ◌∙◌, ◌⊎◌, inl, inr, String, Bool, true, false,
  ◌&&◌, false≢true, Option, none, some, List, [], ◌∷◌, length, ltb, leb, str_eq, if◌then◌else◌,
  arith, if_both, if_cases,
}
use east_api.Channel.{Channel}
use east_api.Relay.{
  RetryParam, increase_retry, Request, drop, select_in, prepared, try_groups,
  cache_get_random_satisfied_channel, get_channel, attempt, relay, should_retry_relay,
}

-- What the groups that are left allow: one more than the attempts of each
abbrev pub steps : ℕ → ℕ → ℕ
steps times zero = 0
steps times (suc m) = times + 2 + steps times m

-- How many attempts there can still be: those that the present group has left, and those of the groups
-- after it, where the token's group is chosen automatically
abbrev pub budget : Request → RetryParam → ℕ
budget q p =
    (if str_eq q.token_group "auto"
      then steps q.retry_times (length q.auto_groups - p.group_index)
      else 0)
    + (q.retry_times + 1 - p.retry)

steps_less : (times m k : ℕ) → m < k → steps times m + times + 2 ≤ steps times k
steps_less times m zero lt = absurd (omega (arith, lt))
steps_less times zero (suc k) lt = omega arith
steps_less times (suc m) (suc k) lt = omega (arith, steps_less times m k (omega (arith, lt)))

length-drop : (n : ℕ) (gs : List String) → length (drop n gs) ≡ length gs - n
length-drop zero gs = omega arith
length-drop (suc n) [] = omega arith
length-drop (suc n) (g ∷ gs) = omega (arith, length-drop n gs)

-- Where a channel was found past the group that it began with: the index has moved up to between the
-- bounds, and the count starts again.
abbrev Restarted : ℕ → ℕ → Option Channel × RetryParam → Type 0
Restarted low high (none, p) = Unit
Restarted low high (some c, p) = (low ≤ p.group_index) × (p.group_index ≤ high) × (p.retry ≡ 0)

-- Where a channel was found: in the group that it began with, or past it.
abbrev Progress : ℕ → RetryParam → Option Channel × RetryParam → Type 0
Progress size p (none, p') = Unit
Progress size p (some c, p') =
    ((p'.group_index ≡ p.group_index) × (p'.retry ≡ p.retry) × (p'.reset_next_try ≡ false))
    ⊎ ((p.group_index < p'.group_index) × (p'.group_index ≤ size) × (p'.retry ≡ 0))

module _ (q : Request) (n : ℕ) where
  try_groups-Restarted :
      (start i : ℕ) (gs : List String) (p : RetryParam)
      → start < i
      → p.retry ≡ 0
      → Restarted i (i + length gs) (try_groups q n start i gs p)
  unfolding try_groups
  try_groups-Restarted start i [] p lt fresh = tt
  try_groups-Restarted start i (g ∷ gs) p lt fresh =
      at_group (select_in q n g (if ltb start i then 0 else p.retry)) (
        wider (try_groups q n start (suc i) gs (record p { group_index = suc i; retry = 0 })) (
          try_groups-Restarted start (suc i) gs (record p { group_index = suc i; retry = 0 })
            (omega (arith, lt)) refl))
    where
      wider :
          (x : Option Channel × RetryParam)
          → Restarted (suc i) (suc i + length gs) x
          → Restarted i (i + suc (length gs)) x
      wider (none, p') h = tt
      wider (some c, p') (low, high, again) = (omega (arith, low), omega (arith, high), again)

      at_group :
          (o : Option Channel)
          → Restarted i
              (i + suc (length gs))
              (try_groups q n start (suc i) gs (record p { group_index = suc i; retry = 0 }))
          → Restarted i (i + suc (length gs)) (elim o [
            | none ↦ try_groups q n start (suc i) gs (record p { group_index = suc i; retry = 0 })
            | some c ↦ (some c, prepared q n i g (if ltb start i then 0 else p.retry) p)
          ])
      at_group none later = later
      at_group (some c) later =
          if_both (λ p'. Restarted i (i + suc (length gs)) (some c, p'))
            (q.cross_group_retry && leb q.retry_times (if ltb start i then 0 else p.retry))
            (omega arith, omega arith, refl) (omega arith, omega arith, fresh)

  try_groups-Progress :
      (gs : List String) (p : RetryParam)
      → p.reset_next_try ≡ false
      → Progress (p.group_index + length gs) p (try_groups q n p.group_index p.group_index gs p)
  unfolding try_groups
  try_groups-Progress [] p quiet = tt
  try_groups-Progress (g ∷ gs) p quiet =
      at_group (select_in q n g (if ltb p.group_index p.group_index then 0 else p.retry))
    where
      past :
          (x : Option Channel × RetryParam)
          → Restarted (suc p.group_index) (suc p.group_index + length gs) x
          → Progress (p.group_index + suc (length gs)) p x
      past (none, p') h = tt
      past (some c, p') (low, high, again) = inr (omega (arith, low), omega (arith, high), again)

      at_group :
          (o : Option Channel)
          → Progress (p.group_index + suc (length gs)) p (elim o [
            | none ↦
                try_groups q n p.group_index
                  (suc p.group_index)
                  gs
                  (record p { group_index = suc p.group_index; retry = 0 })
            | some c ↦ (
              some c,
              prepared q n p.group_index g
                  (if ltb p.group_index p.group_index then 0 else p.retry)
                  p,
            )
          ])
      at_group none =
          past
            (try_groups q n p.group_index (suc p.group_index) gs
              (record p { group_index = suc p.group_index; retry = 0 }))
            (try_groups-Restarted p.group_index (suc p.group_index) gs
              (record p { group_index = suc p.group_index; retry = 0 }) (omega arith) refl)
      at_group (some c) =
          if_both (λ p'. Progress (p.group_index + suc (length gs)) p (some c, p'))
            (q.cross_group_retry
              && leb q.retry_times (if ltb p.group_index p.group_index then 0 else p.retry))
            (inr (omega arith, omega arith, refl)) (inl (refl, refl, quiet))

  -- What the next attempt may cost is less than what this one might.
  abbrev Less : RetryParam → Option Channel × RetryParam → Type 0
  Less p (none, p') = Unit
  Less p (some c, p') =
      (budget q (increase_retry p') < budget q p) × ((increase_retry p').reset_next_try ≡ false)

  auto-Less :
      (p : RetryParam) (x : Option Channel × RetryParam)
      → str_eq q.token_group "auto" ≡ true
      → p.retry ≤ q.retry_times
      → Progress (p.group_index + length (drop p.group_index q.auto_groups)) p x
      → Less p x
  auto-Less p (none, p') auto early h = tt
  auto-Less p (some c, p') auto early (inl (same, count, quiet)) =
      if_cases (λ p''. (budget q p'' < budget q p) × (p''.reset_next_try ≡ false)) p'.reset_next_try
        (λ e. absurd (false≢true (sym quiet ∙ e)))
        (λ e. (rw (auto, same, count) (omega (arith, early)), e))
  auto-Less p (some c, p') auto early (inr (up, high, fresh)) =
      if_cases (λ p''. (budget q p'' < budget q p) × (p''.reset_next_try ≡ false)) p'.reset_next_try
        (λ e. (rw (auto, fresh) (omega (arith, early, more)), refl))
        (λ e. (rw (auto, fresh) (omega (arith, early, more)), e))
    where
      more :
          steps q.retry_times (length q.auto_groups - p'.group_index) + q.retry_times + 2
          ≤ steps q.retry_times (length q.auto_groups - p.group_index)
      more =
          steps_less q.retry_times (length q.auto_groups - p'.group_index)
            (length q.auto_groups - p.group_index)
            (omega (arith, up, high, length-drop p.group_index q.auto_groups))

  own-Less :
      (p : RetryParam) (o : Option Channel)
      → str_eq q.token_group "auto" ≡ false
      → p.retry ≤ q.retry_times
      → p.reset_next_try ≡ false
      → Less p (o, p)
  own-Less p none own early quiet = tt
  own-Less p (some c) own early quiet =
      if_cases (λ p''. (budget q p'' < budget q p) × (p''.reset_next_try ≡ false)) p.reset_next_try
        (λ e. absurd (false≢true (sym quiet ∙ e))) (λ e. (rw own (omega (arith, early)), e))

  cache_get_random_satisfied_channel-Less :
      (p : RetryParam)
      → p.retry ≤ q.retry_times
      → p.reset_next_try ≡ false
      → Less p (cache_get_random_satisfied_channel q n p)
  unfolding cache_get_random_satisfied_channel
  cache_get_random_satisfied_channel-Less p early quiet =
      if_cases (Less p) (str_eq q.token_group "auto")
        (λ auto.
          auto-Less p
            (try_groups q n p.group_index p.group_index (drop p.group_index q.auto_groups) p) auto
            early (try_groups-Progress (drop p.group_index q.auto_groups) p quiet))
        (λ own. own-Less p (select_in q n q.token_group p.retry) own early quiet)

-- The first attempt leaves the count as it is, and a retry counts on in the group.
first-Less :
    (q : Request) (c : Channel) (p : RetryParam)
    → p.retry ≤ q.retry_times
    → p.reset_next_try ≡ false
    → Less q zero p (some c, p)
first-Less q c p early quiet =
    if_cases (λ p''. (budget q p'' < budget q p) × (p''.reset_next_try ≡ false)) p.reset_next_try
      (λ e. absurd (false≢true (sym quiet ∙ e)))
      (λ e. (
        if_both (λ b. b + (q.retry_times + 1 - suc p.retry) < b + (q.retry_times + 1 - p.retry))
            (str_eq q.token_group "auto") (omega (arith, early)) (omega (arith, early)),
        e,
      ))

get_channel-Less :
    (q : Request) (first : Channel) (n : ℕ) (p : RetryParam)
    → p.retry ≤ q.retry_times
    → p.reset_next_try ≡ false
    → Less q n p (get_channel q first n p)
unfolding get_channel
get_channel-Less q first zero p early quiet = first-Less q first p early quiet
get_channel-Less q first (suc n) p early quiet =
    cache_get_random_satisfied_channel-Less q (suc n) p early quiet

-- The loop has ended, after at most so many attempts.
abbrev pub EndsWithin : ℕ → Option ℕ → Type 0
EndsWithin most none = ⊥
EndsWithin most (some k) = k ≤ most

EndsWithin-later : (a b : ℕ) (o : Option ℕ) → a ≤ b → EndsWithin a o → EndsWithin b o
EndsWithin-later a b none le h = h
EndsWithin-later a b (some k) le h = omega (arith, le, h)

attempt-EndsWithin :
    (q : Request) (n : ℕ) (spent : Bool) (o : Option Channel) (most : ℕ) (rest : Option ℕ)
    → suc n ≤ most
    → EndsWithin most rest
    → EndsWithin most (attempt q n spent o rest)
unfolding attempt
attempt-EndsWithin q n spent none most rest le h = omega (arith, le)
attempt-EndsWithin q n spent (some c) most rest le h =
    elim (q.answer n)
      as (λ a. EndsWithin most (elim a [
        | none ↦ some (suc n)
        | some e ↦ if should_retry_relay q.ranges e spent then rest else some (suc n)
      ])) [
        | none ↦ le
        | some e ↦ if_both (EndsWithin most) (should_retry_relay q.ranges e spent) h le
      ]

-- An attempt, where the attempts after it end.
next-EndsWithin :
    (q : Request) (first : Channel) (fuel n : ℕ) (p : RetryParam) (x : Option Channel × RetryParam)
    → budget q p < suc fuel
    → Less q n p x
    → ((p' : RetryParam)
        → budget q p' < fuel
        → p'.reset_next_try ≡ false
        → EndsWithin (suc n + budget q p') (relay q first fuel (suc n) p'))
    → EndsWithin (n + budget q p) (
        attempt q n
          (leb q.retry_times x.1.retry)
          x.0
          (relay q first fuel (suc n) (increase_retry x.1)))
unfolding attempt
next-EndsWithin q first fuel n p (none, p') enough less after = omega arith
next-EndsWithin q first fuel n p (some c, p') enough less after =
    attempt-EndsWithin q n (leb q.retry_times p'.retry) (some c) (n + budget q p)
      (relay q first fuel (suc n) (increase_retry p')) (omega (arith, less.0))
      (EndsWithin-later (suc n + budget q (increase_retry p')) (n + budget q p)
        (relay q first fuel (suc n) (increase_retry p')) (omega (arith, less.0))
        (after (increase_retry p') (omega (arith, less.0, enough)) less.1))

-- The attempts of a request come to an end, whatever the caches, the random source and the providers
-- answer: with as much fuel the loop ends, and it makes no more attempts than the budget, which is
-- the retries that are left in the present group and, where groups are chosen automatically, two more than the retry times for each group from it on.
pub relay-EndsWithin :
    (q : Request) (first : Channel) (fuel n : ℕ) (p : RetryParam)
    → budget q p < fuel
    → p.reset_next_try ≡ false
    → EndsWithin (n + budget q p) (relay q first fuel n p)
unfolding relay
relay-EndsWithin q first zero n p enough quiet = absurd (omega (arith, enough))
relay-EndsWithin q first (suc fuel) n p enough quiet =
    if_cases (EndsWithin (n + budget q p)) (ltb q.retry_times p.retry) (λ over. omega arith)
      λ early.
        next-EndsWithin q first fuel n p (get_channel q first n p) enough
          (get_channel-Less q first n p (ground arith) quiet)
          λ p' enough' quiet'. relay-EndsWithin q first fuel (suc n) p' enough' quiet'
