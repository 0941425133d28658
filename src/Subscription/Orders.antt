-- ===== src/Subscription/Orders.antt =====
-- The purchase of a subscription: CreateUserSubscriptionFromPlanTx, CompleteSubscriptionOrder,
-- ExpireSubscriptionOrder and upsertSubscriptionTopUpTx of model/subscription.go.
pub mod Untouched
pub mod Completed
use east_api.Prelude.{
  ℕ, suc, String, Bool, true, false, not, ◌&&◌, none, some, List, [], ◌∷◌, ltb, ◌==◌, str_eq,
  if◌then◌else◌,
}
use east_api.Prelude.Int.{ℤ, pos, ltb_ℤ, leb_ℤ}
use east_api.Prelude.Tables.{find, update_where, count_where}
use east_api.Prelude.Text.{trim_text, is_empty_text}
use east_api.Store.{
  World, Db, Error, Result, ok, err, Action, pure, raise, gets, or_raise, raise_if, statement,
  write, on_option, on_error, transaction, ◌>>=◌, ◌>>◌,
}
use east_api.Store.Rows.{
  User, SubscriptionPlan, UserSubscription, SubscriptionStatus, SubscriptionOrder, OrderStatus,
  TopUp,
}
use east_api.Quota.{user_has_id}
use east_api.Subscription.Reset.{calc_plan_end_time, calc_next_reset_time}
use east_api.Subscription.Consume.{get_plan}

abbrev pub order_has_trade : String → SubscriptionOrder → Bool
order_has_trade trade_no o = str_eq o.trade_no trade_no

abbrev pub topup_has_trade : String → TopUp → Bool
topup_has_trade trade_no t = str_eq t.trade_no trade_no

abbrev pub is_success : OrderStatus → Bool
is_success OrderStatus.success = true
is_success _ = false

abbrev pub is_pending : OrderStatus → Bool
is_pending OrderStatus.pending = true
is_pending _ = false

abbrev of_result : {A : Type 0} → Result A → Action A
of_result (ok a) = pure a
of_result (err e) = raise e

abbrev has_bought : ℕ → ℕ → UserSubscription → Bool
has_bought user_id plan_id s = s.user_id == user_id && s.plan_id == plan_id

-- The limit of purchases of `CreateUserSubscriptionFromPlanTx`
count_purchases : ℕ → SubscriptionPlan → Action Unit
count_purchases user_id plan = do
  statement
  n ← gets (λ w. count_where (has_bought user_id plan.id) w.db.subscriptions)
  raise_if (leb_ℤ plan.max_purchase_per_user (pos n)) Error.purchase_limit

check_purchases : ℕ → SubscriptionPlan → Action Unit
unfolding count_purchases
check_purchases user_id plan =
    if ltb_ℤ (pos 0) plan.max_purchase_per_user then count_purchases user_id plan else pure tt

-- `getUserGroupByIdTx`: `Find` leaves the empty text where there is no row.
unfoldable pub get_user_group : ℕ → Action String
get_user_group user_id = do
  raise_if (user_id == 0) Error.invalid_user
  statement
  gets (λ w. elim (find (user_has_id user_id) w.db.users) [ none ↦ "" | some u ↦ u.group ])

unfoldable pub set_group : ℕ → String → String → Action String
set_group user_id group current = do
  write λ d. record d {
    users = update_where (user_has_id user_id) (λ u. record u { group = group }) d.users;
  }
  pure current

-- The group that the plan raises the user to; the group before, if it changes, comes back.
upgrade_user_group : ℕ → String → Action String
unfolding get_user_group set_group
upgrade_user_group user_id group = if is_empty_text group then pure "" else do
  current ← get_user_group user_id
  if str_eq current group then pure "" else set_group user_id group current

-- `tx.Create(sub)`, which takes the next key
create_subscription : UserSubscription → Action Unit
create_subscription sub = write (λ d. record d { subscriptions = sub ∷ d.subscriptions }) >> λ w.
    (ok tt, record w { next_id = suc w.next_id })

-- `CreateUserSubscriptionFromPlanTx`
unfoldable pub create_from_plan : ℕ → SubscriptionPlan → Action UserSubscription
unfolding check_purchases upgrade_user_group create_subscription
create_from_plan user_id plan = do
  raise_if (plan.id == 0) Error.invalid_plan
  raise_if (user_id == 0) Error.invalid_user
  check_purchases user_id plan
  now ← gets (λ w. w.now)
  end_unix ← of_result (calc_plan_end_time now plan)
  prev_group ← upgrade_user_group user_id (trim_text plan.upgrade_group)
  id ← gets (λ w. w.next_id)
  let next = calc_next_reset_time now plan end_unix
  let sub : UserSubscription = record {
    id = id;
    user_id = user_id;
    plan_id = plan.id;
    amount_total = plan.total_amount;
    amount_used = pos 0;
    start_time = now;
    end_time = end_unix;
    status = SubscriptionStatus.active;
    last_reset_time = if ltb 0 next then now else 0;
    next_reset_time = next;
    upgrade_group = trim_text plan.upgrade_group;
    prev_user_group = prev_group;
  }
  create_subscription sub
  pure sub

-- The row that `upsertSubscriptionTopUpTx` creates
new_topup : SubscriptionOrder → ℕ → TopUp
new_topup o now = record {
  user_id = o.user_id;
  amount = pos 0;
  money = o.money;
  trade_no = o.trade_no;
  payment_method = o.payment_method;
  create_time = o.create_time;
  complete_time = now;
  status = OrderStatus.success;
}

-- The row that it updates
paid_topup : SubscriptionOrder → ℕ → TopUp → TopUp
paid_topup o now t = record t {
  money = o.money;
  payment_method = if is_empty_text t.payment_method then o.payment_method else t.payment_method;
  create_time = if t.create_time == 0 then o.create_time else t.create_time;
  complete_time = now;
  status = OrderStatus.success;
}

-- `upsertSubscriptionTopUpTx`
pub upsert_topup : SubscriptionOrder → Action Unit
unfolding new_topup paid_topup
upsert_topup o = do
  statement
  now ← gets (λ w. w.now)
  found ← gets (λ w. find (topup_has_trade o.trade_no) w.db.topups)
  on_option found (write (λ d. record d { topups = new_topup o now ∷ d.topups })) λ t. write λ d.
      record d {
        topups = update_where (topup_has_trade o.trade_no) (λ _. paid_topup o now t) d.topups;
      }

-- The order's row once it is paid, or has expired
abbrev pub closed : OrderStatus → ℕ → SubscriptionOrder → SubscriptionOrder
closed status now o = record o { status = status; complete_time = now }

-- `tx.Save(&order)`
save_order : String → (SubscriptionOrder → SubscriptionOrder) → Action Unit
save_order trade_no f =
    write λ d. record d { orders = update_where (order_has_trade trade_no) f d.orders }

-- What `CompleteSubscriptionOrder` does of a pending order
fulfil : String → String → SubscriptionOrder → Action Unit
unfolding create_from_plan upsert_topup save_order
fulfil trade_no payload o = do
  plan ← get_plan o.plan_id
  create_from_plan o.user_id plan
  upsert_topup o
  now ← gets (λ w. w.now)
  save_order trade_no λ r. record (closed OrderStatus.success now r) {
    provider_payload = if is_empty_text payload then r.provider_payload else payload;
  }

complete_body : String → String → Action Unit
unfolding fulfil
complete_body trade_no payload =
    on_error statement (λ _. raise Error.order_not_found)
      λ _. do
        o ←
            or_raise (← gets (λ w. find (order_has_trade trade_no) w.db.orders))
              Error.order_not_found
        if is_success o.status
            then pure tt
            else raise_if (not (is_pending o.status)) Error.order_status
              >> fulfil trade_no payload o

-- `CompleteSubscriptionOrder`
unfoldable pub complete_order : String → String → Action Unit
unfolding complete_body
complete_order trade_no payload = do
  raise_if (is_empty_text trade_no) Error.order_missing
  transaction (complete_body trade_no payload)

expire_body : String → Action Unit
unfolding save_order
expire_body trade_no =
    on_error statement (λ _. raise Error.order_not_found)
      λ _. do
        o ←
            or_raise (← gets (λ w. find (order_has_trade trade_no) w.db.orders))
              Error.order_not_found
        now ← gets (λ w. w.now)
        if is_pending o.status
            then save_order trade_no (closed OrderStatus.expired now)
            else pure tt

-- `ExpireSubscriptionOrder`
unfoldable pub expire_order : String → Action Unit
unfolding expire_body
expire_order trade_no = do
  raise_if (is_empty_text trade_no) Error.order_missing
  transaction (expire_body trade_no)
