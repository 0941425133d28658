-- ===== src/Tests.antt =====
-- Test data, runs of the code on it, and the theorems applied to it.
mod Codes
mod Payments
mod Pollers
mod Names
mod Headers
use east_api.Prelude.{
  ℕ, ◌+◌, ◌*◌, ◌/◌, ◌%◌, ◌≤◌, ◌<◌, suc, ◌≡◌, refl, ◌⊎◌, inr, Bool, true, false, none, some, [], ◌∷◌,
  if◌then◌else◌, arith,
}
use east_api.Prelude.Int.{pos, neg, ◌+ℤ◌}
use east_api.Store.{World, Db, ok}
use east_api.Store.Rows.{
  User, Token, SubscriptionPlan, DurationUnit, ResetPeriod, UserSubscription, SubscriptionStatus,
}
use east_api.Store.Triples.{After}
use east_api.Subscription.Orders.{complete_order}
use east_api.Subscription.Orders.Completed.{Closed, complete_order-once}
use east_api.Redemption.{redeem}
use east_api.Redemption.Once.{redeem-once}
use east_api.Store.Rows.{SubscriptionOrder, OrderStatus, Redemption, RedemptionStatus}
use east_api.Quota.{
  decrease_user_quota, increase_user_quota, decrease_token_quota, increase_token_quota,
  batch_update,
}
use east_api.Quota.Effective.{
  Moves, effective_user, effective_token, waiting, quota_at, remain_at, quota_calls-Moves,
}
use east_api.Quota.Flush.{landed, batch_update-effective, batch_update_loses}
use east_api.Calendar.{month_of, month_start, weekday}
use east_api.Calendar.Laws.{IsMonthOf, month_of-IsMonthOf}
use east_api.Subscription.Reset.{
  calc_plan_end_time, calc_next_reset_time, next_by_period, catch_up, end_by_unit, reset_row, due,
  reset_base,
}
use east_api.Subscription.Reset.Laws.{reset_row_settles}
use east_api.Subscription.Reset.OnTime.{OnTime, unless_past, calc_next_reset_time-OnTime}
use east_api.Subscription.Consume.{
  pre_consume_user_subscription, post_consume_delta, refund_pre_consume,
}
use east_api.Subscription.Consume.Within.{AllWithin, consume-AllWithin}
use east_api.Billing.Funding.{Source}
use east_api.Billing.Session.{RelayInfo, effective_quota, pre_consume, settle, refund}
use east_api.Billing.Session.Balance.{Holds}
use east_api.Billing.Session.Wallet.{opened}
use east_api.Billing.Session.Reserve.{fresh}
use east_api.Billing.Session.Lifecycle.{Charged, Restored, wallet_charge, wallet_refund}
use east_api.Billing.Session.Finished.{settle_with, give_up, Final, settle-Final, refund_once}

abbrev alice : User
alice = record { id = 1; quota = pos 1000; group = "default"; email = "" }

abbrev key : Token
key = record { id = 7; key = "sk"; remain_quota = pos 500; used_quota = pos 0 }

abbrev weekly_plan : SubscriptionPlan
weekly_plan = record {
  id = 3;
  title = "weekly";
  duration_unit = DurationUnit.month;
  duration_value = pos 2;
  custom_seconds = pos 0;
  max_purchase_per_user = pos 0;
  upgrade_group = "";
  total_amount = pos 200;
  quota_reset_period = ResetPeriod.weekly;
  quota_reset_custom_seconds = pos 0;
}

abbrev monthly_plan : SubscriptionPlan
monthly_plan = record weekly_plan { quota_reset_period = ResetPeriod.monthly }

-- It was used, and a reset is due at 1000000: it was last reset at 172800, a Saturday.
abbrev sub : UserSubscription
sub = record {
  id = 5;
  user_id = 1;
  plan_id = 3;
  amount_total = pos 200;
  amount_used = pos 150;
  start_time = 86400;
  end_time = 5184000;
  status = SubscriptionStatus.active;
  last_reset_time = 172800;
  next_reset_time = 345600;
  upgrade_group = "";
  prev_user_group = "";
}

abbrev tables : Db
tables = record {
  users = alice ∷ [];
  tokens = key ∷ [];
  plans = weekly_plan ∷ [];
  subscriptions = sub ∷ [];
  records = [];
  redemptions = [];
  topups = [];
  orders = [];
}

abbrev world : World
world = record {
  db = tables;
  pending_users = [];
  pending_tokens = [];
  batch_update_enabled = false;
  now = 1000000;
  next_id = 6;
  faults = [];
}

-- A delta of 30 waits for the user, one of 20 for the token.
abbrev batched : World
batched = record world {
  batch_update_enabled = true;
  pending_users = (1, pos 30) ∷ [];
  pending_tokens = (7, pos 20) ∷ [];
}

abbrev request : RelayInfo
request = record {
  user_id = 1;
  token_id = 7;
  token_key = "sk";
  token_unlimited = false;
  is_playground = false;
  force_pre_consume = true;
  user_quota = pos 1000;
  token_quota = pos 500;
  trust_quota = pos 100;
  request_id = "req";
  billing_preference = " wallet_first ";
  final_pre_consumed_quota = pos 0;
  billing_source = Source.from_wallet;
  subscription_id = 0;
  subscription_pre_consumed = pos 0;
  subscription_post_delta = pos 0;
  subscription_amount_total = pos 0;
  subscription_amount_used_after = pos 0;
}

world-Holds : (calm : Bool) → Holds calm 1 7 (pos 1000) (pos 500) world
unfolding ◌+ℤ◌
world-Holds calm = record {
  user_there = refl;
  token_there = refl;
  user_is = refl;
  token_is = refl;
  no_faults = λ c. refl;
}

wallet_charge_example :
    Charged true request
      (pos 1000)
      (pos 500)
      (effective_quota (fresh request) (pos 60))
      (pos 85)
      (pre_consume (pos 60) (fresh request) world)
wallet_charge_example =
    wallet_charge true request (pos 1000) (pos 500) (pos 60) (pos 85) world refl (world-Holds true)

wallet_refund_example :
    Restored request (pos 1000) (pos 500) (pre_consume (pos 60) (fresh request) world)
wallet_refund_example =
    wallet_refund request (pos 1000) (pos 500) (pos 60) world refl (world-Holds true)

settle-Final_example :
    Final
      (give_up ∷ settle_with (pos 10) ∷ [])
      (opened request (pos 60))
      (settle (pos 85) (opened request (pos 60)) world)
settle-Final_example =
    settle-Final (pos 85) (opened request (pos 60)) world (give_up ∷ settle_with (pos 10) ∷ [])

batch_update-effective_example :
    ((j : ℕ) → quota_at j (batch_update batched).db.users ≡ effective_user j batched)
    × ((j : ℕ) → remain_at j (batch_update batched).db.tokens ≡ effective_token j batched)
    × ((batch_update batched).pending_users ≡ [])
    × ((batch_update batched).pending_tokens ≡ [])
batch_update-effective_example =
    batch_update-effective batched refl (refl, refl, tt) (refl, refl, tt)

-- The write of the user's delta fails, that of the token's does not.
abbrev broken : World
broken = record batched { faults = true ∷ [] }

batch_update_loses_example :
    ((j : ℕ)
      → quota_at j (batch_update broken).db.users
        ≡ quota_at j world.db.users +ℤ waiting j (landed (true ∷ []) ((1, pos 30) ∷ [])))
    × ((j : ℕ)
        → remain_at j (batch_update broken).db.tokens
          ≡ remain_at j world.db.tokens +ℤ waiting j (landed [] ((7, pos 20) ∷ [])))
    × ((batch_update broken).pending_users ≡ [])
    × ((batch_update broken).pending_tokens ≡ [])
batch_update_loses_example = batch_update_loses broken (refl, refl, tt) (refl, refl, tt)

tables-AllWithin : AllWithin tables
tables-AllWithin = ((omega arith, inr (omega arith)), tt)

consume-AllWithin_example :
    AllWithin (pre_consume_user_subscription "req" 1 (pos 60) world).1.db
    × AllWithin (post_consume_delta 5 (neg (pos 60)) world).1.db
    × AllWithin (refund_pre_consume "req" world).1.db
consume-AllWithin_example =
    consume-AllWithin world tables-AllWithin "req" 1 (pos 60) 5 (neg (pos 60))

quota_calls-Moves_example :
    Moves effective_user 1 (neg (pos 40)) batched (decrease_user_quota 1 (pos 40) false batched)
    × Moves effective_user 1 (pos 40) batched (increase_user_quota 1 (pos 40) false batched)
    × Moves effective_token 7 (neg (pos 40)) batched (decrease_token_quota 7 (pos 40) batched)
    × Moves effective_token 7 (pos 40) batched (increase_token_quota 7 (pos 40) batched)
quota_calls-Moves_example =
    quota_calls-Moves 1 7 (pos 40) false batched (λ e. ground arith) (λ e. ground arith)

-- `sub` after the resets that were due at 1000000.
abbrev sub_after : UserSubscription
sub_after = record sub { amount_used = pos 0; last_reset_time = 950400; next_reset_time = 1555200 }

sub-reset : reset_row sub weekly_plan 1000000 ≡ some sub_after
unfolding reset_row calc_next_reset_time next_by_period catch_up
sub-reset = refl

plan_end : calc_plan_end_time 86400 weekly_plan ≡ ok 5184000
unfolding calc_plan_end_time end_by_unit
plan_end = refl

reset_row_settles_example :
    (reset_row sub_after weekly_plan 1000000 ≡ none)
    × ((due 1555200 1000000 ≡ false)
        × (pos 0 ≡ (
            if due (calc_next_reset_time (reset_base sub) weekly_plan 5184000) 1000000
            then pos 0
            else pos 150))
        × (sub_after.id ≡ 5)
        × (sub_after.amount_total ≡ pos 200)
        × (sub_after.user_id ≡ 1)
        × (sub_after.status ≡ SubscriptionStatus.active)
        × (sub_after.end_time ≡ 5184000))
reset_row_settles_example = reset_row_settles sub sub_after weekly_plan 1000000 sub-reset

calc_next_reset_time-OnTime_example :
    OnTime ResetPeriod.weekly weekly_plan 172800 (calc_next_reset_time 172800 weekly_plan 0)
    × (calc_next_reset_time 172800 weekly_plan 5184000
        ≡ unless_past 5184000 (calc_next_reset_time 172800 weekly_plan 0))
calc_next_reset_time-OnTime_example = calc_next_reset_time-OnTime 172800 5184000 weekly_plan

month_of-IsMonthOf_example : IsMonthOf 59 (month_of 59)
month_of-IsMonthOf_example = month_of-IsMonthOf 59

abbrev order : SubscriptionOrder
order = record {
  user_id = 1;
  plan_id = 3;
  money = 0;
  trade_no = "T1";
  payment_method = "card";
  status = OrderStatus.pending;
  create_time = 900000;
  complete_time = 0;
  provider_payload = "";
}

abbrev code : Redemption
code = record {
  key = "K1";
  status = RedemptionStatus.enabled;
  quota = pos 300;
  expired_time = 0;
  redeemed_time = 0;
  used_user_id = 0;
}

abbrev shop : World
shop = record world { db = record tables { orders = order ∷ []; redemptions = code ∷ [] } }

complete_order-once_example :
    After (λ _ w'. Closed "T1" "late" w') (λ w'. w'.db ≡ shop.db) (complete_order "T1" "paid" shop)
complete_order-once_example = complete_order-once "T1" "paid" "late" shop

redeem-once_example :
    After
      (λ _ w'. After (λ _ _. ⊥) (λ w''. w''.db ≡ w'.db) (redeem "K1" 2 w'))
      (λ w'. w'.db ≡ shop.db)
      (redeem "K1" 1 shop)
redeem-once_example = redeem-once "K1" 1 2 shop
