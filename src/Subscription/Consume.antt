-- ===== src/Subscription/Consume.antt =====
-- The use of a subscription by requests: PreConsumeUserSubscription, RefundSubscriptionPreConsume,
-- PostConsumeUserSubscriptionDelta, HasActiveUserSubscription and
-- CleanupSubscriptionPreConsumeRecords of model/subscription.go. Transactions run one after another.
pub mod Within
use east_api.Prelude.{
  ℕ, ◌-◌, String, Bool, true, false, not, ◌&&◌, ◌||◌, Option, none, some, List, [], ◌∷◌, ltb, leb,
  ◌==◌, ◌+◌, ◌*◌, str_eq, is_blank, if◌then◌else◌,
}
use east_api.Prelude.Int.{ℤ, pos, pos_part, ◌+ℤ◌, ◌-ℤ◌, neg, ltb_ℤ, leb_ℤ, eqb_ℤ}
use east_api.Prelude.Tables.{find, select, update_where, count_where}
use east_api.Store.{
  World, Db, Error, Result, Action, pure, raise, gets, or_raise, raise_if, statement, write,
  on_option, on_error, transaction, ◌>>=◌, ◌>>◌,
}
use east_api.Store.Rows.{
  SubscriptionPlan, UserSubscription, SubscriptionStatus, PreConsumeRecord, RecordStatus,
}
use east_api.Subscription.Reset.{maybe_reset, save_subscription, subscription_has_id}

pub record PreConsumeResult : Type 0 where
  pub user_subscription_id : ℕ
  pub pre_consumed : ℤ
  pub amount_total : ℤ
  pub amount_used_before : ℤ
  pub amount_used_after : ℤ

abbrev pub is_active : SubscriptionStatus → Bool
is_active SubscriptionStatus.active = true
is_active _ = false

abbrev pub is_refunded : RecordStatus → Bool
is_refunded RecordStatus.refunded = true
is_refunded RecordStatus.consumed = false

-- `user_id = ? AND status = 'active' AND end_time > ?`
abbrev pub is_live : ℕ → ℕ → UserSubscription → Bool
is_live user_id now s = s.user_id == user_id && is_active s.status && ltb now s.end_time

abbrev pub is_empty : List UserSubscription → Bool
is_empty [] = true
is_empty (s ∷ ss) = false

abbrev pub plan_has_id : ℕ → SubscriptionPlan → Bool
plan_has_id id p = p.id == id

abbrev pub record_has_request : String → PreConsumeRecord → Bool
record_has_request request_id r = str_eq r.request_id request_id

-- `end_time asc, id asc`
abbrev pub goes_before : UserSubscription → UserSubscription → Bool
goes_before a b = ltb a.end_time b.end_time || (a.end_time == b.end_time && leb a.id b.id)

pub insert_by_end : UserSubscription → List UserSubscription → List UserSubscription
insert_by_end s [] = s ∷ []
insert_by_end s (t ∷ ts) = if goes_before s t then s ∷ t ∷ ts else t ∷ insert_by_end s ts

unfoldable pub sort_by_end : List UserSubscription → List UserSubscription
unfolding insert_by_end
sort_by_end [] = []
sort_by_end (s ∷ ss) = insert_by_end s (sort_by_end ss)

-- `getSubscriptionPlanByIdTx` with an empty cache
unfoldable pub get_plan : ℕ → Action SubscriptionPlan
get_plan id = do
  raise_if (id == 0) Error.invalid_plan
  statement
  or_raise (← gets (λ w. find (plan_has_id id) w.db.plans)) Error.record_not_found

abbrev result_of : UserSubscription → ℤ → ℤ → PreConsumeResult
result_of sub consumed before = record {
  user_subscription_id = sub.id;
  pre_consumed = consumed;
  amount_total = sub.amount_total;
  amount_used_before = before;
  amount_used_after = sub.amount_used;
}

-- A record that was made meanwhile, for the subscription `sub`.
reuse : PreConsumeRecord → UserSubscription → Action PreConsumeResult
reuse r sub =
    if is_refunded r.status
    then raise Error.already_refunded
    else pure (result_of sub r.pre_consumed sub.amount_used)

new_record : String → ℕ → ℕ → ℤ → ℕ → PreConsumeRecord
new_record request_id user_id sub_id amount now = record {
  request_id = request_id;
  user_id = user_id;
  user_subscription_id = sub_id;
  pre_consumed = amount;
  status = RecordStatus.consumed;
  updated_at = now;
}

-- `tx.Create(record)`; the column `request_id` has a unique index.
create_record : PreConsumeRecord → Action Unit
create_record r = do
  other ← gets (λ w. find (record_has_request r.request_id) w.db.records)
  on_option other (write (λ d. record d { records = r ∷ d.records }))
      (λ _. raise Error.statement_failed)

-- The branch `if err := tx.Create(record).Error; err != nil`: a record that is there by now is used.
use_duplicate : String → UserSubscription → Error → Action PreConsumeResult
unfolding reuse
use_duplicate request_id sub e = do
  statement
  found ← gets (λ w. find (record_has_request request_id) w.db.records)
  on_option found (raise e) (λ dup. reuse dup sub)

-- The body of the loop where `sub`, up to date, has room for the amount.
charge : String → ℕ → ℤ → UserSubscription → Action PreConsumeResult
unfolding new_record create_record use_duplicate
charge request_id user_id amount sub = do
  now ← gets (λ w. w.now)
  on_error (create_record (new_record request_id user_id sub.id amount now))
      (use_duplicate request_id sub)
      λ _. do
        let charged = record sub { amount_used = sub.amount_used +ℤ amount }
        save_subscription charged
        pure (result_of charged amount sub.amount_used)

-- `sub.AmountTotal > 0 && sub.AmountTotal - usedBefore < amount`
abbrev pub lacks_room : UserSubscription → ℤ → Bool
lacks_room sub amount =
    ltb_ℤ (pos 0) sub.amount_total && ltb_ℤ (sub.amount_total -ℤ sub.amount_used) amount

-- The loop over the candidates.
unfoldable pub charge_first : String → ℕ → ℤ → List UserSubscription → Action PreConsumeResult
unfolding get_plan maybe_reset charge
charge_first request_id user_id amount [] = raise Error.subscription_insufficient
charge_first request_id user_id amount (candidate ∷ rest) = do
  plan ← get_plan candidate.plan_id
  now ← gets (λ w. w.now)
  sub ← maybe_reset candidate plan now
  if lacks_room sub amount
      then charge_first request_id user_id amount rest
      else charge request_id user_id amount sub

-- The first part of the transaction: a record of the request is there already.
resume : PreConsumeRecord → Action PreConsumeResult
resume existing = do
  raise_if (is_refunded existing.status) Error.already_refunded
  statement
  sub ←
      or_raise
        (← gets (λ w. find (subscription_has_id existing.user_subscription_id) w.db.subscriptions))
        Error.record_not_found
  pure (result_of sub existing.pre_consumed sub.amount_used)

-- The second part: the live subscriptions of the user, those that end first first.
start_new : String → ℕ → ℤ → Action PreConsumeResult
unfolding sort_by_end charge_first
start_new request_id user_id amount =
    on_error statement (λ _. raise Error.no_active_subscription)
      λ _. do
        subs ← gets (λ w. sort_by_end (select (is_live user_id w.now) w.db.subscriptions))
        raise_if (is_empty subs) Error.no_active_subscription
        charge_first request_id user_id amount subs

pre_consume_body : String → ℕ → ℤ → Action PreConsumeResult
unfolding resume start_new
pre_consume_body request_id user_id amount = do
  statement
  existing ← gets (λ w. find (record_has_request request_id) w.db.records)
  on_option existing (start_new request_id user_id amount) resume

-- `PreConsumeUserSubscription`
unfoldable pub pre_consume_user_subscription : String → ℕ → ℤ → Action PreConsumeResult
unfolding pre_consume_body
pre_consume_user_subscription request_id user_id amount = do
  raise_if (user_id == 0) Error.invalid_user
  raise_if (is_blank request_id) Error.empty_request
  raise_if (leb_ℤ amount (pos 0)) Error.amount_not_positive
  transaction (pre_consume_body request_id user_id amount)

-- The use after a delta: never below 0.
abbrev pub clamp : ℤ → ℤ
clamp used = if ltb_ℤ used (pos 0) then pos 0 else used

post_consume_body : ℕ → ℤ → Action Unit
post_consume_body id delta = do
  statement
  sub ←
      or_raise (← gets (λ w. find (subscription_has_id id) w.db.subscriptions))
        Error.record_not_found
  let used = clamp (sub.amount_used +ℤ delta)
  raise_if (ltb_ℤ (pos 0) sub.amount_total && ltb_ℤ sub.amount_total used)
      Error.subscription_exceeded
  save_subscription (record sub { amount_used = used })

-- `PostConsumeUserSubscriptionDelta`
unfoldable pub post_consume_delta : ℕ → ℤ → Action Unit
unfolding post_consume_body
post_consume_delta id delta =
    if id == 0
    then raise Error.invalid_subscription
    else if eqb_ℤ delta (pos 0)
    then pure tt
    else transaction (post_consume_body id delta)

-- `record.Status = "refunded"; tx.Save(&record)`
mark_refunded : String → Action Unit
mark_refunded request_id = do
  now ← gets (λ w. w.now)
  write λ d. record d {
    records =
        update_where (record_has_request request_id)
          (λ r. record r { status = RecordStatus.refunded; updated_at = now }) d.records;
  }

-- What `RefundSubscriptionPreConsume` does with the record it has found. The delta is not part of
-- the outer transaction: PostConsumeUserSubscriptionDelta opens and commits its own on `DB`. The
-- outer one writes the record alone, so its rollback undoes that write and nothing else.
refund_record : PreConsumeRecord → Action Unit
unfolding mark_refunded post_consume_delta
refund_record r =
    if is_refunded r.status
    then pure tt
    else if leb_ℤ r.pre_consumed (pos 0)
    then transaction (mark_refunded r.request_id)
    else do
      post_consume_delta r.user_subscription_id (neg r.pre_consumed)
      transaction (mark_refunded r.request_id)

-- `RefundSubscriptionPreConsume`
unfoldable pub refund_pre_consume : String → Action Unit
unfolding refund_record
refund_pre_consume request_id = do
  raise_if (is_blank request_id) Error.empty_request
  statement
  r ←
      or_raise (← gets (λ w. find (record_has_request request_id) w.db.records))
        Error.record_not_found
  refund_record r

-- `HasActiveUserSubscription`
unfoldable pub has_active_subscription : ℕ → Action Bool
has_active_subscription user_id = do
  raise_if (user_id == 0) Error.invalid_user
  statement
  gets (λ w. ltb 0 (count_where (is_live user_id w.now) w.db.subscriptions))

-- `CleanupSubscriptionPreConsumeRecords`
unfoldable pub cleanup_records : ℤ → Action Unit
cleanup_records older w =
    let seconds : ℕ = if leb_ℤ older (pos 0) then 7 * 24 * 3600 else pos_part older in
    write
      (λ d. record d { records = select (λ r. not (ltb r.updated_at (w.now - seconds))) d.records })
      w
