-- ===== src/Subscription/Reset.antt =====
-- The periods of a subscription: calcPlanEndTime, NormalizeResetPeriod, calcNextResetTime and
-- maybeResetUserSubscriptionWithPlanTx of model/subscription.go. Times are UTC, and the seconds of a
-- plan stay below 2^63 nanoseconds.
pub mod Laws
pub mod OnTime
use east_api.Prelude.{
  ℕ, zero, suc, ◌+◌, ◌-◌, ◌*◌, ◌/◌, Bool, true, false, not, ◌&&◌, Option, none, some, ltb, leb,
  ◌==◌, if◌then◌else◌,
}
use east_api.Prelude.Int.{ℤ, pos, pos_part, leb_ℤ}
use east_api.Prelude.Tables.{update_where}
use east_api.Calendar.{day_seconds, weekday, month_of, month_length, add_months}
use east_api.Store.{Error, Result, ok, err, Action, pure, write, ◌>>=◌, ◌>>◌}
use east_api.Store.Rows.{SubscriptionPlan, UserSubscription, DurationUnit, ResetPeriod}

abbrev is_custom : DurationUnit → Bool
is_custom DurationUnit.custom = true
is_custom _ = false

-- The `switch` of `calcPlanEndTime`.
unfoldable pub end_by_unit : DurationUnit → SubscriptionPlan → ℕ → Result ℕ
unfolding add_months
end_by_unit DurationUnit.year plan start = ok (add_months (12 * pos_part plan.duration_value) start)
end_by_unit DurationUnit.month plan start = ok (add_months (pos_part plan.duration_value) start)
end_by_unit DurationUnit.day plan start = ok (start + pos_part plan.duration_value * 24 * 3600)
end_by_unit DurationUnit.hour plan start = ok (start + pos_part plan.duration_value * 3600)
end_by_unit DurationUnit.custom plan start =
    if leb_ℤ plan.custom_seconds (pos 0)
    then err Error.invalid_duration
    else ok (start + pos_part plan.custom_seconds)
end_by_unit DurationUnit.unknown plan start = err Error.invalid_duration

-- `calcPlanEndTime`
unfoldable pub calc_plan_end_time : ℕ → SubscriptionPlan → Result ℕ
calc_plan_end_time start plan =
    if leb_ℤ plan.duration_value (pos 0) && not (is_custom plan.duration_unit)
    then err Error.invalid_duration
    else end_by_unit plan.duration_unit plan start

-- The `switch` of `calcNextResetTime`; `none` is its `return 0`.
unfoldable pub next_by_period : ResetPeriod → SubscriptionPlan → ℕ → Option ℕ
unfolding weekday month_of month_length
next_by_period ResetPeriod.never plan base = none
next_by_period ResetPeriod.daily plan base = some ((base / day_seconds + 1) * day_seconds)
next_by_period ResetPeriod.weekly plan base =
    let d = base / day_seconds in
    let w = if weekday d == 0 then 7 else weekday d in some ((d + (8 - w)) * day_seconds)
next_by_period ResetPeriod.monthly plan base =
    let (k, s) = month_of (base / day_seconds) in some ((s + month_length k) * day_seconds)
next_by_period ResetPeriod.custom plan base =
    if leb_ℤ plan.quota_reset_custom_seconds (pos 0)
    then none
    else some (base + pos_part plan.quota_reset_custom_seconds)

-- `calcNextResetTime`: 0 where there is no reset before the end.
unfoldable pub calc_next_reset_time : ℕ → SubscriptionPlan → ℕ → ℕ
calc_next_reset_time base plan end_unix = elim (next_by_period plan.quota_reset_period plan base) [
  | none ↦ 0
  | some next ↦ if ltb 0 end_unix && ltb end_unix next then 0 else next
]

abbrev pub due : ℕ → ℕ → Bool
due next now = ltb 0 next && leb next now

-- `for next > 0 && next <= now`: the base and the next reset that the loop ends with.
unfoldable pub catch_up : ℕ → SubscriptionPlan → ℕ → ℕ → ℕ → ℕ → ℕ × ℕ
catch_up zero plan end_unix now base next = (base, next)
catch_up (suc fuel) plan end_unix now base next =
    let rest = catch_up fuel plan end_unix now next (calc_next_reset_time next plan end_unix) in
    if due next now then rest else (base, next)

abbrev pub is_never : ResetPeriod → Bool
is_never ResetPeriod.never = true
is_never _ = false

-- `baseUnix`
abbrev pub reset_base : UserSubscription → ℕ
reset_base sub = if sub.last_reset_time == 0 then sub.start_time else sub.last_reset_time

abbrev pub subscription_has_id : ℕ → UserSubscription → Bool
subscription_has_id id s = s.id == id

-- `tx.Save(&sub)`
abbrev pub save_subscription : UserSubscription → Action Unit
save_subscription sub = write λ d. record d {
  subscriptions = update_where (subscription_has_id sub.id) (λ _. sub) d.subscriptions;
}

-- What `maybeResetUserSubscriptionWithPlanTx` makes of the row, `none` where it saves nothing. The
-- fuel `now + 1` is enough: every round moves `next` forward, and the loop ends past `now`.
unfoldable pub reset_row : UserSubscription → SubscriptionPlan → ℕ → Option UserSubscription
reset_row sub plan now =
    if ltb 0 sub.next_reset_time && ltb now sub.next_reset_time
    then none
    else if is_never plan.quota_reset_period
    then none
    else let base = reset_base sub in
      let next = calc_next_reset_time base plan sub.end_time in
      let (last, after) = catch_up (suc now) plan sub.end_time now base next in
      if not (due next now)
      then if sub.next_reset_time == 0 && ltb 0 after
        then some (record sub { next_reset_time = after; last_reset_time = last })
        else none
      else some
          (record sub { amount_used = pos 0; last_reset_time = last; next_reset_time = after })

-- `maybeResetUserSubscriptionWithPlanTx`: the row as it then is, saved if it has changed.
unfoldable pub maybe_reset : UserSubscription → SubscriptionPlan → ℕ → Action UserSubscription
maybe_reset sub plan now = elim (reset_row sub plan now) [
  | none ↦ pure sub
  | some sub' ↦ save_subscription sub' >> pure sub'
]
