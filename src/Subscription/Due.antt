-- ===== src/Subscription/Due.antt =====
-- The periodic reset: ResetDueSubscriptions of model/subscription.go.
use east_api.Prelude.{
  ℕ, zero, suc, Bool, true, false, ◌&&◌, List, [], ◌∷◌, ltb, leb, ◌==◌, if◌then◌else◌,
}
use east_api.Prelude.Int.{ℤ, pos, pos_part, leb_ℤ}
use east_api.Prelude.Tables.{find, select}
use east_api.Store.{
  World, Result, ok, err, Action, pure, gets, statement, on_option, on_error, transaction, ◌>>=◌,
  ◌>>◌,
}
use east_api.Store.Rows.{SubscriptionPlan, UserSubscription}
use east_api.Subscription.Reset.{maybe_reset}
use east_api.Subscription.Consume.{get_plan, is_active}

-- `next_reset_time > 0 AND next_reset_time <= ?`
abbrev pub is_due : ℕ → UserSubscription → Bool
is_due now s = ltb 0 s.next_reset_time && leb s.next_reset_time now

-- `next_reset_time asc`
insert_by_reset : UserSubscription → List UserSubscription → List UserSubscription
insert_by_reset s [] = s ∷ []
insert_by_reset s (t ∷ ts) =
    if leb s.next_reset_time t.next_reset_time then s ∷ t ∷ ts else t ∷ insert_by_reset s ts

sort_by_reset : List UserSubscription → List UserSubscription
unfolding insert_by_reset
sort_by_reset [] = []
sort_by_reset (s ∷ ss) = insert_by_reset s (sort_by_reset ss)

pub first_rows : ℕ → List UserSubscription → List UserSubscription
first_rows zero ss = []
first_rows (suc n) [] = []
first_rows (suc n) (s ∷ ss) = s ∷ first_rows n ss

-- The transaction of `ResetDueSubscriptions` for one row; whether it counts.
reset_locked : ℕ → ℕ → SubscriptionPlan → Action Bool
unfolding maybe_reset
reset_locked now id plan =
    on_error statement (λ _. pure false)
      λ _. do
        locked ← gets (λ w. find (λ s. s.id == id && is_due now s) w.db.subscriptions)
        on_option locked (pure false) λ sub. maybe_reset sub plan now >> pure true

-- The loop of `ResetDueSubscriptions`: a plan that is not found is passed over, and an error of a
-- transaction ends the loop; the count comes back beside it.
reset_each : ℕ → List UserSubscription → ℕ → World → ℕ × Result (Unit {0}) × World
unfolding get_plan reset_locked
reset_each now [] count w = (count, ok tt, w)
reset_each now (s ∷ ss) count w =
    let (plan, w1) = get_plan s.plan_id w in
    elim plan [
      | err e ↦ reset_each now ss count w1
      | ok p ↦
          let (done, w2) = transaction (reset_locked now s.id p) w1 in
          elim done [
            | err e ↦ (count, err e, w2)
            | ok counts ↦ reset_each now ss (if counts then suc count else count) w2
          ]
    ]

-- `ResetDueSubscriptions`
unfoldable pub reset_due : ℤ → World → ℕ × Result (Unit {0}) × World
unfolding sort_by_reset first_rows reset_each ◌>>=◌
reset_due limit w =
    let most : ℕ = if leb_ℤ limit (pos 0) then 200 else pos_part limit in
    let (r, w1) = statement w in
    elim r [
      | err e ↦ (0, err e, w1)
      | ok _ ↦
          reset_each w.now
            (first_rows most (
              sort_by_reset
                (select (λ s. is_due w.now s && is_active s.status) w1.db.subscriptions)))
            0 w1
    ]
