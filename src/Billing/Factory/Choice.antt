-- ===== src/Billing/Factory/Choice.antt =====
-- The session that NewBillingSession hands out: it is consistent, and paid as the preference says.
use east_api.Prelude.{ℕ, ◌≡◌, Bool, true, false, List, if◌then◌else◌, ◌⊎◌}
use east_api.Prelude.Int.{ℤ}
use east_api.Prelude.Text.{codes, codes_eq}
use east_api.Store.{World, Result, ok, err}
use east_api.Subscription.Consume.{has_active_subscription}
use east_api.Billing.Funding.{Source}
use east_api.Billing.Session.{RelayInfo, ErrorCode, fine, failed}
use east_api.Billing.Factory.{Tried, try_wallet, try_subscription}

-- The attempt found too little quota.
abbrev pub Short : Tried → Type 0
Short (fine s, info, w) = ⊥
Short (failed e, info, w) = e ≡ ErrorCode.insufficient_user_quota

-- Where subscriptions go first: with an active one the wallet pays only if the subscription has too
-- little, and without one it is the wallet.
abbrev pub BySubscription : RelayInfo → ℤ → Result Bool × World → Source → Type 0
BySubscription info quota (err e, w) src = ⊥
BySubscription info quota (ok false, w) src = src ≡ Source.from_wallet
BySubscription info quota (ok true, w) src =
    (src ≡ Source.from_subscription)
    ⊎ ((src ≡ Source.from_wallet) × Short (try_subscription info quota w))

-- The source that a preference admits; any text but the three is taken for subscription_first.
abbrev pub Admits : List ℕ → RelayInfo → ℤ → World → Source → Type 0
Admits pref info quota w src =
    if codes_eq pref (codes "subscription_only")
    then src ≡ Source.from_subscription
    else if codes_eq pref (codes "wallet_only")
    then src ≡ Source.from_wallet
    else if codes_eq pref (codes "wallet_first")
    then (src ≡ Source.from_wallet)
      ⊎ ((src ≡ Source.from_subscription) × Short (try_wallet info quota w))
    else BySubscription info quota (has_active_subscription info.user_id w) src
