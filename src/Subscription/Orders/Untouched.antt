-- ===== src/Subscription/Orders/Untouched.antt =====
-- The steps of a completion that come before the order is saved leave the orders alone.
use east_api.Prelude.{ℕ, String, List}
use east_api.Store.{Db, Result, ok, err}
use east_api.Store.Ensures.{Ensures, Any, Ensures-write, Ensures-raise, Ensures-statement}
use east_api.Store.Keeps.{gets-Any, bind-Any, pure-Any, on_option-Any, any_rules}
use east_api.Store.Rows.{SubscriptionOrder, SubscriptionPlan, UserSubscription}
use east_api.Subscription.Orders.{
  create_from_plan, upsert_topup, check_purchases, count_purchases, upgrade_user_group,
  get_user_group, set_group, create_subscription, of_result,
}
use east_api.Subscription.Consume.{get_plan}

-- What the steps before the last one do not touch.
module _ (Q : List SubscriptionOrder → Type 0) where
  unfoldable pub Same : Db → Type 0
  Same d = Q d.orders

  pub get_plan-Same : (id : ℕ) → Ensures Same Any (get_plan id)
  unfolding get_plan
  get_plan-Same id = search any_rules depth 8

  of_result-Same : {A : Type 0} (r : Result A) → Ensures Same Any (of_result r)
  of_result-Same (ok a) = pure-Any a
  of_result-Same (err e) = Ensures-raise e

  check_purchases-Same :
      (user_id : ℕ) (plan : SubscriptionPlan) → Ensures Same Any (check_purchases user_id plan)
  unfolding check_purchases count_purchases
  check_purchases-Same user_id plan = search any_rules depth 10

  set_group-Same :
      (user_id : ℕ) (group current : String) → Ensures Same Any (set_group user_id group current)
  unfolding set_group Same
  set_group-Same user_id group current =
      bind-Any _ _ (Ensures-write _ λ d h. h) λ _. pure-Any current

  upgrade_user_group-Same :
      (user_id : ℕ) (group : String) → Ensures Same Any (upgrade_user_group user_id group)
  unfolding upgrade_user_group get_user_group
  upgrade_user_group-Same user_id group = search (any_rules, set_group-Same) depth 12

  create_subscription-Same : (sub : UserSubscription) → Ensures Same Any (create_subscription sub)
  unfolding create_subscription Same
  create_subscription-Same sub =
      bind-Any _ _ (Ensures-write _ λ d h. h) λ _. record { at = λ w h. (h, tt) }

  pub create_from_plan-Same :
      (user_id : ℕ) (plan : SubscriptionPlan) → Ensures Same Any (create_from_plan user_id plan)
  unfolding create_from_plan
  create_from_plan-Same user_id plan =
      search
        (
          any_rules, of_result-Same, check_purchases-Same, upgrade_user_group-Same,
          create_subscription-Same,
        )
        depth 20

  pub upsert_topup-Same : (o : SubscriptionOrder) → Ensures Same Any (upsert_topup o)
  unfolding upsert_topup Same
  upsert_topup-Same o = bind-Any _ _ Ensures-statement λ _. bind-Any _ _ (gets-Any _) λ now.
      bind-Any _ _ (gets-Any _)
        λ found. on_option-Any found _ _ (Ensures-write _ λ d h. h) λ t. Ensures-write _ λ d h. h
