-- ===== src/Billing/Funding.antt =====
-- The funding sources of service/funding_source.go: the wallet of the user and a subscription. The
-- pauses between the attempts of `refundWithRetry` are left out.
use east_api.Prelude.{ℕ, zero, suc, String, false, if◌then◌else◌}
use east_api.Prelude.Int.{ℤ, pos, neg, ltb_ℤ, leb_ℤ, eqb_ℤ}
use east_api.Store.{Error, ok, err, Action, pure, ◌>>=◌}
use east_api.Quota.{increase_user_quota, decrease_user_quota}
use east_api.Subscription.Consume.{
  PreConsumeResult, pre_consume_user_subscription, post_consume_delta, refund_pre_consume,
}

pub record WalletFunding : Type 0 where
  pub user_id : ℕ
  pub consumed : ℤ

-- `PlanId` and `PlanTitle`, for logs, are left out.
pub record SubscriptionFunding : Type 0 where
  pub request_id : String
  pub user_id : ℕ
  pub amount : ℤ
  pub subscription_id : ℕ
  pub pre_consumed : ℤ
  pub amount_total : ℤ
  pub amount_used_after : ℤ

pub data Funding : Type 0 where
  wallet : WalletFunding → Funding
  subscription : SubscriptionFunding → Funding

pub data Source : Type 0 where
  from_wallet from_subscription : Source

-- `Source()`
abbrev pub source : Funding → Source
source (wallet f) = Source.from_wallet
source (subscription f) = Source.from_subscription

-- `SubscriptionFunding.PreConsume` once the model has answered
abbrev filled : SubscriptionFunding → PreConsumeResult → SubscriptionFunding
filled f res = record f {
  subscription_id = res.user_subscription_id;
  pre_consumed = res.pre_consumed;
  amount_total = res.amount_total;
  amount_used_after = res.amount_used_after;
}

-- `PreConsume(amount)`: the source as it is after a success.
unfoldable pub funding_pre_consume : Funding → ℤ → Action Funding
unfolding ◌>>=◌
funding_pre_consume (wallet f) amount = if leb_ℤ amount (pos 0) then pure (wallet f) else do
  _ ← decrease_user_quota f.user_id amount false
  pure (wallet (record f { consumed = amount }))
funding_pre_consume (subscription f) amount = do
  res ← pre_consume_user_subscription f.request_id f.user_id f.amount
  pure (subscription (filled f res))

-- `Settle(delta)`
unfoldable pub funding_settle : Funding → ℤ → Action Unit
unfolding ◌>>=◌
funding_settle (wallet f) delta =
    if eqb_ℤ delta (pos 0)
    then pure tt
    else if ltb_ℤ (pos 0) delta
    then decrease_user_quota f.user_id delta false
    else increase_user_quota f.user_id (neg delta) false
funding_settle (subscription f) delta =
    if eqb_ℤ delta (pos 0) then pure tt else post_consume_delta f.subscription_id delta

-- The loop of `refundWithRetry`: the last error, if every attempt fails.
retry : ℕ → Action Unit → Error → Action Unit
retry zero fn last w = (err last, w)
retry (suc n) fn last w =
    let (r, w') = fn w in elim r [ ok _ ↦ (ok tt, w') | err e ↦ retry n fn e w' ]

abbrev max_attempts : ℕ
max_attempts = 3

-- `refundWithRetry`
unfoldable pub refund_with_retry : Action Unit → Action Unit
unfolding retry
refund_with_retry fn = retry max_attempts fn Error.statement_failed

-- `Refund()`
unfoldable pub funding_refund : Funding → Action Unit
unfolding ◌>>=◌ refund_with_retry
funding_refund (wallet f) =
    if leb_ℤ f.consumed (pos 0) then pure tt else increase_user_quota f.user_id f.consumed false
funding_refund (subscription f) =
    if leb_ℤ f.pre_consumed (pos 0)
    then pure tt
    else refund_with_retry (refund_pre_consume f.request_id)
