-- ===== src/Billing/Tasks.antt =====
-- The billing of asynchronous tasks, service/task_billing.go: taskAdjustFunding,
-- taskAdjustTokenQuota, RefundTaskQuota and RecalculateTaskQuota. Logs and statistics are left out.
pub mod Held
pub mod Kept
use east_api.Prelude.{ℕ, String, Bool, true, false, ◌&&◌, ◌||◌, if◌then◌else◌, ltb, ◌==◌}
use east_api.Prelude.Int.{ℤ, pos, ◌-ℤ◌, neg, ltb_ℤ, leb_ℤ, eqb_ℤ}
use east_api.Prelude.Tables.{find}
use east_api.Prelude.Text.{is_empty_text}
use east_api.Store.{Error, Action, pure, gets, or_raise, statement, on_error, ◌>>=◌, ◌>>◌}
use east_api.Quota.{
  token_has_id, increase_token_quota, decrease_token_quota, increase_user_quota,
  decrease_user_quota,
}
use east_api.Subscription.Consume.{post_consume_delta}
use east_api.Billing.Funding.{Source}

-- The fields of `Task` and of its `PrivateData` that billing reads and writes; a source that is not
-- the subscription's is the wallet.
pub record Task : Type 0 where
  pub user_id : ℕ
  pub quota : ℤ
  pub billing_source : Source
  pub subscription_id : ℕ
  pub token_id : ℕ

abbrev is_from_subscription : Source → Bool
is_from_subscription Source.from_wallet = false
is_from_subscription Source.from_subscription = true

-- `taskIsSubscription`
abbrev pub task_is_subscription : Task → Bool
task_is_subscription t = is_from_subscription t.billing_source && ltb 0 t.subscription_id

-- `taskAdjustFunding`
pub task_adjust_funding : Task → ℤ → Action Unit
task_adjust_funding t delta =
    if task_is_subscription t
    then post_consume_delta t.subscription_id delta
    else if ltb_ℤ (pos 0) delta
    then decrease_user_quota t.user_id delta false
    else increase_user_quota t.user_id (neg delta) false

-- `resolveTokenKey`
resolve_token_key : ℕ → Action String
resolve_token_key id =
    on_error statement (λ _. pure "")
      λ _.
        on_error
          (gets (λ w. find (token_has_id id) w.db.tokens) >>= λ found.
            or_raise found Error.record_not_found)
          (λ _. pure "") λ t. pure t.key

adjust_token : ℕ → ℤ → Action Unit
adjust_token id delta =
    if ltb_ℤ (pos 0) delta
    then decrease_token_quota id delta
    else increase_token_quota id (neg delta)

-- `taskAdjustTokenQuota`: an error is only logged.
pub task_adjust_token_quota : Task → ℤ → Action Unit
unfolding resolve_token_key adjust_token
task_adjust_token_quota t delta = if t.token_id == 0 || eqb_ℤ delta (pos 0) then pure tt else do
  key ← resolve_token_key t.token_id
  if is_empty_text key
      then pure tt
      else on_error (adjust_token t.token_id delta) (λ _. pure tt) (λ _. pure tt)

-- `RefundTaskQuota`
unfoldable pub refund_task_quota : Task → Action Unit
unfolding task_adjust_funding task_adjust_token_quota
refund_task_quota t =
    if eqb_ℤ t.quota (pos 0)
    then pure tt
    else on_error (task_adjust_funding t (neg t.quota)) (λ _. pure tt)
        λ _. task_adjust_token_quota t (neg t.quota)

-- `RecalculateTaskQuota(task, actualQuota)`, with the task as it leaves it
unfoldable pub recalculate_task_quota : ℤ → Task → Action Task
unfolding task_adjust_funding task_adjust_token_quota
recalculate_task_quota actual t =
    if leb_ℤ actual (pos 0)
    then pure t
    else if eqb_ℤ (actual -ℤ t.quota) (pos 0)
    then pure t
    else on_error (task_adjust_funding t (actual -ℤ t.quota)) (λ _. pure t)
        λ _. task_adjust_token_quota t (actual -ℤ t.quota) >> pure (record t { quota = actual })
