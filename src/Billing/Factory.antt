-- ===== src/Billing/Factory.antt =====
-- NewBillingSession of service/billing_session.go, with NormalizeBillingPreference of common/str.go
-- and GetUserQuota of model/user.go: which source pays, and what is tried when the first one cannot.
pub mod Attempts
pub mod Choice
use east_api.Prelude.{ℕ, String, Bool, true, false, ◌||◌, none, some, List, if◌then◌else◌}
use east_api.Prelude.Int.{ℤ, pos, ◌-ℤ◌, ltb_ℤ, leb_ℤ}
use east_api.Prelude.Tables.{find}
use east_api.Prelude.Text.{codes, codes_eq, trim_space}
use east_api.Store.{World, Result, ok, err, Action, gets, statement, ◌>>=◌, ◌>>◌}
use east_api.Quota.{user_has_id}
use east_api.Subscription.Consume.{has_active_subscription}
use east_api.Billing.Funding.{Funding, wallet, subscription}
use east_api.Billing.Session.{
  RelayInfo, BillingSession, ErrorCode, Checked, fine, failed, new_session, pre_consume,
}

-- The four cases of the first `switch`, on the trimmed text
abbrev pub is_known : List ℕ → Bool
is_known cs =
    codes_eq cs (codes "subscription_first")
    || codes_eq cs (codes "wallet_first")
    || codes_eq cs (codes "subscription_only")
    || codes_eq cs (codes "wallet_only")

-- `NormalizeBillingPreference`, as code points
unfoldable pub normalize_billing_preference : String → List ℕ
unfolding trim_space codes_eq
normalize_billing_preference pref =
    let trimmed = trim_space (codes pref) in
    if is_known trimmed then trimmed else codes "subscription_first"

-- `GetUserQuota`: `Find` leaves 0 where there is no row.
unfoldable pub get_user_quota : ℕ → Action ℤ
unfolding ◌>>=◌
get_user_quota id = do
  statement
  gets (λ w. elim (find (user_has_id id) w.db.users) [ none ↦ pos 0 | some u ↦ u.quota ])

-- The session or the error, and the relay info, which the attempts share and write to.
abbrev pub Tried : Type 0
Tried = Checked BillingSession × RelayInfo × World

-- What `pre_consume` returns, with the relay info as the session has it.
abbrev pub with_info : RelayInfo → Checked BillingSession × World → Tried
with_info info (fine s, w) = (fine s, s.relay_info, w)
with_info info (failed e, w) = (failed e, info, w)

-- `tryWallet` once the quota of the user is read
pub wallet_attempt : RelayInfo → ℤ → ℤ → World → Tried
wallet_attempt info quota user_quota w =
    if leb_ℤ user_quota (pos 0)
    then (failed ErrorCode.insufficient_user_quota, info, w)
    else if ltb_ℤ (user_quota -ℤ quota) (pos 0)
    then (failed ErrorCode.insufficient_user_quota, info, w)
    else let info' = record info { user_quota = user_quota } in
      with_info info' (
        pre_consume quota
          (new_session info' (wallet (record { user_id = info'.user_id; consumed = pos 0 }))) w)

-- `tryWallet`
unfoldable pub try_wallet : RelayInfo → ℤ → World → Tried
unfolding wallet_attempt get_user_quota
try_wallet info quota w =
    let (r, w') = get_user_quota info.user_id w in
    elim r [
      | err e ↦ (failed ErrorCode.query_data_error, info, w')
      | ok user_quota ↦ wallet_attempt info quota user_quota w'
    ]

-- `subConsume`: at least 1.
abbrev pub sub_consume : ℤ → ℤ
sub_consume quota = if leb_ℤ quota (pos 0) then pos 1 else quota

-- `trySubscription`
unfoldable pub try_subscription : RelayInfo → ℤ → World → Tried
try_subscription info quota w = with_info info (
    pre_consume (sub_consume quota)
      (new_session info (
        subscription (record {
          request_id = info.request_id;
          user_id = info.user_id;
          amount = sub_consume quota;
          subscription_id = 0;
          pre_consumed = pos 0;
          amount_total = pos 0;
          amount_used_after = pos 0;
        })))
      w)

abbrev pub is_insufficient : ErrorCode → Bool
is_insufficient ErrorCode.insufficient_user_quota = true
is_insufficient _ = false

-- The other source is tried where the first one has too little.
abbrev pub or_else : Tried → (RelayInfo → World → Tried) → Tried
or_else (fine s, info, w) next = (fine s, info, w)
or_else (failed e, info, w) next = if is_insufficient e then next info w else (failed e, info, w)

-- The case `subscription_first`, and every other text
pub subscription_first : RelayInfo → ℤ → World → Tried
unfolding has_active_subscription
subscription_first info quota w =
    let (r, w') = has_active_subscription info.user_id w in
    elim r [
      | err e ↦ (failed ErrorCode.query_data_error, info, w')
      | ok has_sub ↦
          if has_sub
          then or_else (try_subscription info quota w') (λ info' w''. try_wallet info' quota w'')
          else try_wallet info quota w'
    ]

-- `NewBillingSession`
unfoldable pub new_billing_session : RelayInfo → ℤ → World → Tried
unfolding try_wallet try_subscription normalize_billing_preference subscription_first
new_billing_session info quota w =
    let pref = normalize_billing_preference info.billing_preference in
    if codes_eq pref (codes "subscription_only")
    then try_subscription info quota w
    else if codes_eq pref (codes "wallet_only")
    then try_wallet info quota w
    else if codes_eq pref (codes "wallet_first")
    then or_else (try_wallet info quota w) (λ info' w'. try_subscription info' quota w')
    else subscription_first info quota w
