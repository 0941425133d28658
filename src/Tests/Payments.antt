-- ===== src/Tests/Payments.antt =====
-- The theorems on top-ups, tasks and the end of subscriptions, applied to data.
use east_api.Prelude.{◌≡◌, refl, true, false, [], ◌∷◌}
use east_api.Prelude.Int.{pos, ◌+ℤ◌}
use east_api.Store.{World}
use east_api.Store.Rows.{TopUp, OrderStatus}
use east_api.Store.Triples.{After}
use east_api.Store.Calm.{Never}
use east_api.Quota.Effective.{effective_user}
use east_api.Subscription.Lifecycle.{admin_invalidate, admin_delete}
use east_api.Subscription.Lifecycle.Ended.{Gone, admin_invalidate-Gone}
use east_api.Topup.{Rates, Way, complete_topup}
use east_api.Topup.Credit.{Settled, worth}
use east_api.Topup.Once.{complete_topup-once, complete_topup-Settled}
use east_api.Topup.Paid.{complete_topup-Paid}
use east_api.Billing.Funding.{Source}
use east_api.Billing.Tasks.{Task, refund_task_quota}
use east_api.Billing.Tasks.Kept.{
  recalculate_all, recalculate_all-effective_user, refund_task_quota-effective_user,
}
use east_api.Billing.Session.Wallet.{opened}
use east_api.Billing.PostConsume.{billed, unbilled, settle_billing}
use east_api.Billing.PostConsume.Same.{plain, Charged, settle_billing-Charged}
use east_api.Tests.{tables, world, request}

abbrev topup : TopUp
topup = record {
  user_id = 1;
  amount = pos 20;
  money = 0;
  trade_no = "P1";
  payment_method = "waffo";
  create_time = 900000;
  complete_time = 0;
  status = OrderStatus.pending;
}

-- 20 units of money are worth 10000.
abbrev rates : Rates
rates = record {
  amount_units = λ amount. pos 10000;
  money_units = λ money. pos 500;
  money_quota = λ money. pos 500;
}

abbrev till : World
till = record world { db = record tables { topups = topup ∷ [] } }

complete_topup-once_example :
    After
      (λ _ w'.
        After
          (λ _ w''. w''.db ≡ w'.db)
          (λ w''. w''.db ≡ w'.db)
          (complete_topup rates Way.manual "P1" w'))
      (λ w'. w'.db ≡ till.db)
      (complete_topup rates Way.waffo "P1" till)
complete_topup-once_example = complete_topup-once rates Way.waffo Way.manual "P1" till

complete_topup-Settled_example :
    After
      (λ _ w'. Settled "P1" 1 (worth rates topup) till.db.users w')
      (λ w'. w'.db ≡ till.db)
      (complete_topup rates Way.waffo "P1" till)
complete_topup-Settled_example = complete_topup-Settled rates Way.waffo "P1" till topup refl refl tt

complete_topup-Paid_example :
    After
      (λ _ w'. Settled "P1" 1 (worth rates topup) till.db.users w')
      Never
      (complete_topup rates Way.waffo "P1" till)
complete_topup-Paid_example =
    complete_topup-Paid rates Way.waffo "P1" till topup refl refl refl refl (refl, refl)

abbrev task : Task
task = record {
  user_id = 1;
  quota = pos 200;
  billing_source = Source.from_wallet;
  subscription_id = 0;
  token_id = 7;
}

abbrev shaky : World
shaky = record world { faults = false ∷ true ∷ false ∷ [] }

recalculate_all-effective_user_example :
    After
      (λ t' w'. effective_user 1 w' +ℤ t'.quota ≡ effective_user 1 shaky +ℤ pos 200)
      Never
      (recalculate_all (pos 250 ∷ pos 90 ∷ []) task shaky)
recalculate_all-effective_user_example =
    recalculate_all-effective_user (pos 250 ∷ pos 90 ∷ []) task shaky refl refl refl

refund_task_quota-effective_user_example :
    After
      (λ _ w'. effective_user 1 w' ≡ effective_user 1 world +ℤ pos 200)
      Never
      (refund_task_quota task world)
refund_task_quota-effective_user_example =
    refund_task_quota-effective_user task world refl refl refl refl

settle_billing-Charged_example :
    Charged request
      (pos 100)
      (pos 130)
      world
      (settle_billing (pos 130) (billed (opened request (pos 100))) world)
    × Charged request
        (pos 100)
        (pos 130)
        world
        (settle_billing (pos 130) (unbilled (plain request (pos 100))) world)
settle_billing-Charged_example =
    settle_billing-Charged request (pos 100) (pos 130) world refl refl refl

admin_invalidate-Gone_example :
    After
      (λ _ w'. Gone 5 world.db.subscriptions w'.db.subscriptions)
      (λ w'. w'.db ≡ world.db)
      (admin_invalidate 5 world)
    × After
        (λ _ w'. Gone 5 world.db.subscriptions w'.db.subscriptions)
        (λ w'. w'.db ≡ world.db)
        (admin_delete 5 world)
admin_invalidate-Gone_example = admin_invalidate-Gone 5 world
