-- ===== src/Billing/PostConsume.antt =====
-- The settlement of a request: SettleBilling of service/billing.go and PostConsumeQuota of
-- service/quota.go. Notifications and logs are left out.
pub mod Same
use east_api.Prelude.{ℕ, Bool, true, false, if◌then◌else◌, ◌==◌}
use east_api.Prelude.Int.{ℤ, pos, ◌+ℤ◌, ◌-ℤ◌, neg, ltb_ℤ, eqb_ℤ}
use east_api.Store.{World, Error, Result, ok, err, Action, pure, raise, ◌>>=◌}
use east_api.Quota.{increase_user_quota, decrease_user_quota}
use east_api.Subscription.Consume.{post_consume_delta}
use east_api.Billing.Funding.{Source}
use east_api.Billing.Session.{RelayInfo, BillingSession, settle_token, settle}

-- The source's part of `PostConsumeQuota`
post_consume_source : RelayInfo → ℤ → Action Unit
unfolding ◌>>=◌
post_consume_source info quota = elim info.billing_source [
  | Source.from_subscription ↦
      if info.subscription_id == 0
      then raise Error.subscription_id_missing
      else if eqb_ℤ quota (pos 0)
      then pure tt
      else post_consume_delta info.subscription_id quota
  | Source.from_wallet ↦
      if ltb_ℤ (pos 0) quota
      then decrease_user_quota info.user_id quota false
      else increase_user_quota info.user_id (neg quota) false
]

-- `SubscriptionPostDelta += delta`, for a subscription
noted : ℤ → RelayInfo → RelayInfo
noted quota info = elim info.billing_source [
  | Source.from_subscription ↦ record info {
    subscription_post_delta = info.subscription_post_delta +ℤ quota;
  }
  | Source.from_wallet ↦ info
]

-- What `PostConsumeQuota` does once the source has answered; the token's part is that of `Settle`.
finish_post_consume :
    RelayInfo → ℤ → Result (Unit {0}) × World → Result (Unit {0}) × RelayInfo × World
unfolding noted
finish_post_consume info quota (err e, w) = (err e, info, w)
finish_post_consume info quota (ok _, w) =
    let (r, w') = settle_token info quota w in (r, noted quota info, w')

-- `PostConsumeQuota`
unfoldable pub post_consume_quota : ℤ → RelayInfo → World → Result (Unit {0}) × RelayInfo × World
unfolding post_consume_source finish_post_consume
post_consume_quota quota info w = finish_post_consume info quota (post_consume_source info quota w)

-- `relayInfo.Billing`, which holds the `RelayInfo` itself if it is there
pub data Relay : Type 0 where
  billed : BillingSession → Relay
  unbilled : RelayInfo → Relay

-- `SettleBilling`
unfoldable pub settle_billing : ℤ → Relay → World → Result (Unit {0}) × Relay × World
unfolding post_consume_quota
settle_billing actual (billed s) w = let (r, s', w') = settle actual s w in (r, billed s', w')
settle_billing actual (unbilled info) w =
    let delta = actual -ℤ info.final_pre_consumed_quota in
    let (r, info', w') = post_consume_quota delta info w in
    if eqb_ℤ delta (pos 0) then (ok tt, unbilled info, w) else (r, unbilled info', w')
