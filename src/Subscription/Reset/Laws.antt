-- ===== src/Subscription/Reset/Laws.antt =====
-- The reset schedule: every reset lies after its base and before the end, weeks begin on Mondays and
-- months on their first day; the catch-up loop ends, and a second reset at one time does nothing.
use east_api.Prelude.{
  ℕ, zero, suc, ◌+◌, ◌*◌, ◌/◌, ◌%◌, ◌≤◌, ◌<◌, ◌≡◌, refl, ◌⊎◌, inl, inr, true, false, none, some,
  arith, if◌then◌else◌, Bool-cases, Option-cases, false≢true, sym,
}
use east_api.Prelude.Int.{pos, pos_part}
use east_api.Calendar.{weekday, month_of, month_start}
use east_api.Calendar.Laws.{month_of-IsMonthOf, lt-add_months}
use east_api.Store.{ok}
use east_api.Store.Rows.{SubscriptionPlan, UserSubscription, DurationUnit, ResetPeriod}
use east_api.Subscription.Reset.{
  end_by_unit, calc_plan_end_time, next_by_period, calc_next_reset_time, catch_up, due, reset_base,
  reset_row,
}

end_by_unit-gt :
    (u : DurationUnit) (plan : SubscriptionPlan) (start e : ℕ)
    → (0 < pos_part plan.duration_value) ⊎ (u ≡ DurationUnit.custom)
    → end_by_unit u plan start ≡ ok e
    → start < e
unfolding end_by_unit
end_by_unit-gt DurationUnit.year plan start e h p =
    ground (arith, lt-add_months (12 * pos_part plan.duration_value) start)
end_by_unit-gt DurationUnit.month plan start e h p =
    ground (arith, lt-add_months (pos_part plan.duration_value) start)
end_by_unit-gt DurationUnit.day plan start e h p = ground arith
end_by_unit-gt DurationUnit.hour plan start e h p = ground arith
end_by_unit-gt DurationUnit.custom plan start e h p = ground arith
end_by_unit-gt DurationUnit.unknown plan start e h p = ground arith

-- A plan that has an end time ends after its start.
pub calc_plan_end_time-gt :
    (start e : ℕ) (plan : SubscriptionPlan) → calc_plan_end_time start plan ≡ ok e → start < e
unfolding calc_plan_end_time
calc_plan_end_time-gt start e plan h =
    ground (arith, end_by_unit-gt plan.duration_unit plan start e)

next_by_period-gt :
    (p : ResetPeriod) (plan : SubscriptionPlan) (base next : ℕ)
    → next_by_period p plan base ≡ some next
    → base < next
unfolding next_by_period
next_by_period-gt ResetPeriod.never plan base next h = ground arith
next_by_period-gt ResetPeriod.daily plan base next h = ground arith
next_by_period-gt ResetPeriod.weekly plan base next h = ground arith
next_by_period-gt ResetPeriod.monthly plan base next h =
    ground (arith, month_of-IsMonthOf (base / 86400))
next_by_period-gt ResetPeriod.custom plan base next h = ground arith

-- A reset lies after its base and not past the end of the subscription, or there is none.
pub calc_next_reset_time_bounds :
    (base : ℕ) (plan : SubscriptionPlan) (end_unix : ℕ)
    → let next = calc_next_reset_time base plan end_unix in
      (next ≡ 0) ⊎ ((base < next) × ((end_unix ≡ 0) ⊎ (next ≤ end_unix)))
unfolding calc_next_reset_time
calc_next_reset_time_bounds base plan end_unix =
    elim (Option-cases (next_by_period plan.quota_reset_period plan base)) [
      | inl e ↦ inl (ground arith)
      | inr (n, e) ↦ ground (arith, next_by_period-gt plan.quota_reset_period plan base n e)
    ]

-- A weekly reset falls on the first midnight of a Monday after its base, within seven days, where
-- the subscription has no end.
pub calc_next_reset_time-weekly :
    (base : ℕ) (plan : SubscriptionPlan)
    → plan.quota_reset_period ≡ ResetPeriod.weekly
    → let next = calc_next_reset_time base plan 0 in
      (weekday (next / 86400) ≡ 1) × (next % 86400 ≡ 0) × (base < next) × (next ≤ base + 7 * 86400)
unfolding calc_next_reset_time next_by_period weekday month_start
calc_next_reset_time-weekly base plan p = rw (p, next_by_period) (ground arith)

-- A monthly reset falls on the first midnight of the month after that of its base, where the
-- subscription has no end.
pub calc_next_reset_time-monthly :
    (base : ℕ) (plan : SubscriptionPlan)
    → plan.quota_reset_period ≡ ResetPeriod.monthly
    → calc_next_reset_time base plan 0 ≡ month_start (suc (month_of (base / 86400)).0) * 86400
unfolding calc_next_reset_time next_by_period weekday month_start
calc_next_reset_time-monthly base plan p =
    rw (p, next_by_period) (ground (arith, month_of-IsMonthOf (base / 86400)))

-- What the catch-up loop has done when it stops at `(last, after)`: no reset is due any more,
-- `after` is the reset that follows `last`, and `last` is a reset that was due if one was.
abbrev CaughtUp : SubscriptionPlan → ℕ → ℕ → ℕ → ℕ → ℕ × ℕ → Type 0
CaughtUp plan end_unix now base next (last, after) =
    (due after now ≡ false)
    × (after ≡ calc_next_reset_time last plan end_unix)
    × (due next now ≡ true → (0 < last) × (last ≤ now))
    × (due next now ≡ false → last ≡ base)

catch_up-CaughtUp :
    (fuel : ℕ) (plan : SubscriptionPlan) (end_unix now base next : ℕ)
    → next ≡ calc_next_reset_time base plan end_unix
    → (next ≡ 0) ⊎ (now < next + fuel)
    → CaughtUp plan end_unix now base next (catch_up fuel plan end_unix now base next)
unfolding catch_up
catch_up-CaughtUp zero plan end_unix now base next e h = ground arith
catch_up-CaughtUp (suc fuel) plan end_unix now base next e h = elim (Bool-cases (due next now)) [
  | inl more ↦
      let next' = calc_next_reset_time next plan end_unix in
      let ih =
        catch_up-CaughtUp fuel plan end_unix now next next' refl
          (ground (arith, calc_next_reset_time_bounds next plan end_unix)) in
      rw more (
        ih.0,
        ih.1,
        (λ _. elim (Bool-cases (due next' now)) [
          | inl again ↦ ih.2 again
          | inr over ↦ rw (ih.3 over) (ground arith)
        ]),
        λ f. absurd (false≢true (sym f)),
      )
  | inr done ↦ rw done (done, e, (λ f. absurd (false≢true f)), λ _. refl)
]

-- The catch-up of a row, from its base.
row_CaughtUp :
    (sub : UserSubscription) (plan : SubscriptionPlan) (now : ℕ)
    → let base = reset_base sub in
      let next = calc_next_reset_time base plan sub.end_time in
      CaughtUp plan sub.end_time now base next (catch_up (suc now) plan sub.end_time now base next)
row_CaughtUp sub plan now =
    catch_up-CaughtUp (suc now) plan sub.end_time now (reset_base sub) _ refl (omega arith)

-- A reset that changes a row leaves it without a reset that is due: the next one is past `now`, or
-- there is none. The use is set to 0 if the reset after the row's base was due, and kept otherwise;
-- the total, the owner, the status and the end stay.
pub reset_row_effect :
    (sub sub' : UserSubscription) (plan : SubscriptionPlan) (now : ℕ)
    → reset_row sub plan now ≡ some sub'
    → (due sub'.next_reset_time now ≡ false)
      × (sub'.amount_used ≡ (
          if due (calc_next_reset_time (reset_base sub) plan sub.end_time) now
          then pos 0
          else sub.amount_used))
      × (sub'.id ≡ sub.id)
      × (sub'.amount_total ≡ sub.amount_total)
      × (sub'.user_id ≡ sub.user_id)
      × (sub'.status ≡ sub.status)
      × (sub'.end_time ≡ sub.end_time)
unfolding reset_row
reset_row_effect sub sub' plan now e = ground (arith, row_CaughtUp sub plan now)

-- A row whose reset is done: the next one is past `now`, or none follows the last.
abbrev IsSettled : UserSubscription → SubscriptionPlan → ℕ → Type 0
IsSettled s plan now =
    (now < s.next_reset_time)
    ⊎ ((s.next_reset_time ≡ 0)
        × (0 < s.last_reset_time)
        × (calc_next_reset_time s.last_reset_time plan s.end_time ≡ 0))

reset_row-IsSettled :
    (sub sub' : UserSubscription) (plan : SubscriptionPlan) (now : ℕ)
    → reset_row sub plan now ≡ some sub'
    → IsSettled sub' plan now
unfolding reset_row
reset_row-IsSettled sub sub' plan now e = ground (arith, row_CaughtUp sub plan now)

reset_row_of_IsSettled :
    (s : UserSubscription) (plan : SubscriptionPlan) (now : ℕ)
    → IsSettled s plan now
    → reset_row s plan now ≡ none
unfolding reset_row
reset_row_of_IsSettled s plan now h = ground (arith, row_CaughtUp s plan now)

-- A reset is complete: another one at the same time finds nothing to change.
reset_row_idem :
    (sub sub' : UserSubscription) (plan : SubscriptionPlan) (now : ℕ)
    → reset_row sub plan now ≡ some sub'
    → reset_row sub' plan now ≡ none
reset_row_idem sub sub' plan now e =
    reset_row_of_IsSettled sub' plan now (reset_row-IsSettled sub sub' plan now e)

-- A reset that changes a row leaves it without a reset that is due, and another one at the same time
-- finds nothing to change. The use is set to 0 if the reset after the row's base was due, and kept
-- otherwise; the total, the owner, the status and the end stay.
pub reset_row_settles :
    (sub sub' : UserSubscription) (plan : SubscriptionPlan) (now : ℕ)
    → reset_row sub plan now ≡ some sub'
    → (reset_row sub' plan now ≡ none)
      × ((due sub'.next_reset_time now ≡ false)
          × (sub'.amount_used ≡ (
              if due (calc_next_reset_time (reset_base sub) plan sub.end_time) now
              then pos 0
              else sub.amount_used))
          × (sub'.id ≡ sub.id)
          × (sub'.amount_total ≡ sub.amount_total)
          × (sub'.user_id ≡ sub.user_id)
          × (sub'.status ≡ sub.status)
          × (sub'.end_time ≡ sub.end_time))
reset_row_settles sub sub' plan now e =
    (reset_row_idem sub sub' plan now e, reset_row_effect sub sub' plan now e)
