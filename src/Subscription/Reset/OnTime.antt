-- ===== src/Subscription/Reset/OnTime.antt =====
-- When the next reset of a subscription falls, for each of its periods, in UTC.
use east_api.Prelude.{
  ℕ, suc, ◌+◌, ◌*◌, ◌/◌, ◌%◌, ◌≤◌, ◌<◌, ◌≡◌, refl, sym, subst, ◌&&◌, Option, none, some, ltb,
  if◌then◌else◌, arith,
}
use east_api.Prelude.Int.{pos, pos_part, leb_ℤ}
use east_api.Store.Rows.{SubscriptionPlan, ResetPeriod, never, daily, weekly, monthly, custom}
use east_api.Calendar.{weekday, month_of, month_start}
use east_api.Subscription.Reset.{calc_next_reset_time, next_by_period}
use east_api.Subscription.Reset.Laws.{calc_next_reset_time-weekly, calc_next_reset_time-monthly}

-- The reset after `base`, where nothing ends: of a day, the next midnight, of a week, the first midnight
-- of a Monday, of a month, the first midnight of the next one; of a custom period, the seconds of the
-- plan later, where they are positive; 0 is no reset.
abbrev pub OnTime : ResetPeriod → SubscriptionPlan → ℕ → ℕ → Type 0
OnTime never plan base next = next ≡ 0
OnTime daily plan base next = (next % 86400 ≡ 0) × (base < next) × (next ≤ base + 86400)
OnTime weekly plan base next =
    (weekday (next / 86400) ≡ 1) × (next % 86400 ≡ 0) × (base < next) × (next ≤ base + 7 * 86400)
OnTime monthly plan base next = next ≡ month_start (suc (month_of (base / 86400)).0) * 86400
OnTime custom plan base next = next ≡ (
    if leb_ℤ plan.quota_reset_custom_seconds (pos 0)
    then 0
    else base + pos_part plan.quota_reset_custom_seconds)

-- The reset of a subscription that ends at `end_unix`, where 0 is no end
abbrev pub unless_past : ℕ → ℕ → ℕ
unless_past end_unix next = if ltb 0 end_unix && ltb end_unix next then 0 else next

calc_next_reset_time-never :
    (base : ℕ) (plan : SubscriptionPlan)
    → plan.quota_reset_period ≡ never
    → calc_next_reset_time base plan 0 ≡ 0
unfolding calc_next_reset_time next_by_period
calc_next_reset_time-never base plan e = rw e refl

calc_next_reset_time-daily :
    (base : ℕ) (plan : SubscriptionPlan)
    → plan.quota_reset_period ≡ daily
    → OnTime daily plan base (calc_next_reset_time base plan 0)
unfolding calc_next_reset_time next_by_period
calc_next_reset_time-daily base plan e = rw e (omega arith, omega arith, omega arith)

calc_next_reset_time-custom :
    (base : ℕ) (plan : SubscriptionPlan)
    → plan.quota_reset_period ≡ custom
    → OnTime custom plan base (calc_next_reset_time base plan 0)
unfolding calc_next_reset_time next_by_period
calc_next_reset_time-custom base plan e = rw e (ground arith)

calc_next_reset_time_end :
    (base end_unix : ℕ) (plan : SubscriptionPlan)
    → calc_next_reset_time base plan end_unix
      ≡ unless_past end_unix (calc_next_reset_time base plan 0)
unfolding calc_next_reset_time
calc_next_reset_time_end base end_unix plan = go (next_by_period plan.quota_reset_period plan base)
  where
    go :
        (next : Option ℕ)
        → ◌≡◌ {A = ℕ}
            (elim next [ none ↦ 0 | some n ↦ if ltb 0 end_unix && ltb end_unix n then 0 else n ])
            (unless_past end_unix (elim next [ none ↦ 0 | some n ↦ n ]))
    go none = ground arith
    go (some n) = refl

-- A reset falls, in UTC, for a day on the next midnight after its base, for a week on the first midnight
-- of a Monday, for a month on the first midnight of the next month, for positive custom seconds so
-- many seconds after its base, and else never; where the subscription has an end, it has that
-- same reset unless it falls past the end, and then none.
pub calc_next_reset_time-OnTime :
    (base end_unix : ℕ) (plan : SubscriptionPlan)
    → let raw = calc_next_reset_time base plan 0 in
      OnTime plan.quota_reset_period plan base raw
      × (calc_next_reset_time base plan end_unix ≡ unless_past end_unix raw)
calc_next_reset_time-OnTime base end_unix plan =
    (go plan.quota_reset_period refl, calc_next_reset_time_end base end_unix plan)
  where
    known :
        (p : ResetPeriod)
        → plan.quota_reset_period ≡ p
        → OnTime p plan base (calc_next_reset_time base plan 0)
        → OnTime plan.quota_reset_period plan base (calc_next_reset_time base plan 0)
    known p e = subst (λ p. OnTime p plan base (calc_next_reset_time base plan 0)) (sym e)

    go :
        (p : ResetPeriod)
        → plan.quota_reset_period ≡ p
        → OnTime plan.quota_reset_period plan base (calc_next_reset_time base plan 0)
    go never e = known never e (calc_next_reset_time-never base plan e)
    go daily e = known daily e (calc_next_reset_time-daily base plan e)
    go weekly e = known weekly e (calc_next_reset_time-weekly base plan e)
    go monthly e = known monthly e (calc_next_reset_time-monthly base plan e)
    go custom e = known custom e (calc_next_reset_time-custom base plan e)
