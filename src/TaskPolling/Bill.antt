-- ===== src/TaskPolling/Bill.antt =====
-- The billing at the end of a task, service/task_polling.go: settleTaskBillingOnComplete, and the
-- refund of a failed task.
use east_api.Prelude.{Option, none, some, if◌then◌else◌}
use east_api.Prelude.Int.{ℤ, pos, ltb_ℤ}
use east_api.Store.{Action, pure, ◌>>◌}
use east_api.Billing.Tasks.{Task, recalculate_task_quota, refund_task_quota}
use east_api.TaskPolling.Rows.{Row}
use east_api.TaskPolling.{TaskInfo, Due}

-- The adaptor's `AdjustBillingOnComplete`, and the quota that RecalculateTaskQuotaByTokens reckons
-- from the ratio settings, `none` where no ratio is set
pub record Pricing : Type 0 where
  pub adjust_billing_on_complete : Row → TaskInfo → ℤ
  pub quota_of_tokens : Row → ℤ → Option ℤ

unfoldable pub recalculate_by_tokens : Option ℤ → Task → Action Unit
recalculate_by_tokens none t = pure tt
recalculate_by_tokens (some actual) t = recalculate_task_quota actual t >> pure tt

module _ (pricing : Pricing) where
  open pricing use {adjust_billing_on_complete, quota_of_tokens}

  unfoldable pub settle_task_billing_on_complete : Row → TaskInfo → Action Unit
  unfolding recalculate_by_tokens
  settle_task_billing_on_complete t info =
      if t.per_call_billing
      then pure tt
      else if ltb_ℤ (pos 0) (adjust_billing_on_complete t info)
      then recalculate_task_quota (adjust_billing_on_complete t info) t.bill >> pure tt
      else if ltb_ℤ (pos 0) info.total_tokens
      then recalculate_by_tokens (quota_of_tokens t info.total_tokens) t.bill
      else pure tt

  -- The end of a task's turn: what is due is billed.
  unfoldable pub bill : Due → Action Unit
  unfolding settle_task_billing_on_complete
  bill Due.nothing = pure tt
  bill (Due.refund t) = refund_task_quota t.bill
  bill (Due.settle t info) = settle_task_billing_on_complete t info
