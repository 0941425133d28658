-- ===== src/Billing/Session.antt =====
-- BillingSession of service/billing_session.go, with PreConsumeTokenQuota of service/quota.go. The
-- mutex makes each method one step; the goroutine of `Refund` is run at once. Redis is off, so that
-- tokens are read from the table.
pub mod Balance
pub mod Wallet
pub mod Reserve
pub mod Opened
pub mod Settle
pub mod Lifecycle
pub mod Finished
use east_api.Prelude.{ℕ, String, Bool, true, false, not, ◌&&◌, ◌||◌, if◌then◌else◌}
use east_api.Prelude.Int.{ℤ, pos, ◌+ℤ◌, ◌-ℤ◌, neg, ltb_ℤ, leb_ℤ, eqb_ℤ}
use east_api.Prelude.Tables.{find}
use east_api.Store.{
  World, Error, Result, ok, err, Action, pure, raise, gets, or_raise, raise_if, statement, ◌>>=◌,
  ◌>>◌,
}
use east_api.Quota.{token_has_key, increase_token_quota, decrease_token_quota}
use east_api.Billing.Funding.{
  Funding, wallet, subscription, Source, funding_pre_consume, funding_settle, funding_refund,
}

-- The fields of `RelayInfo` that billing reads and writes, with the `token_quota` of the gin context
-- and `common.GetTrustQuota()`.
pub record RelayInfo : Type 0 where
  pub user_id : ℕ
  pub token_id : ℕ
  pub token_key : String
  pub token_unlimited : Bool
  pub is_playground : Bool
  pub force_pre_consume : Bool
  pub user_quota : ℤ
  pub token_quota : ℤ
  pub trust_quota : ℤ
  pub request_id : String
  pub billing_preference : String
  pub final_pre_consumed_quota : ℤ
  pub billing_source : Source
  pub subscription_id : ℕ
  pub subscription_pre_consumed : ℤ
  pub subscription_post_delta : ℤ
  pub subscription_amount_total : ℤ
  pub subscription_amount_used_after : ℤ

pub record BillingSession : Type 0 where
  pub relay_info : RelayInfo
  pub funding : Funding
  pub pre_consumed_quota : ℤ
  pub token_consumed : ℤ
  pub funding_settled : Bool
  pub settled : Bool
  pub refunded : Bool

-- `types.ErrorCode`, as far as billing makes them
pub data ErrorCode : Type 0 where
  invalid_request query_data_error update_data_error : ErrorCode
  insufficient_user_quota pre_consume_token_quota_failed : ErrorCode

-- A method that may change the session before it fails: it comes back beside the error.
abbrev pub Outcome : Type 0
Outcome = Result (Unit {0}) × BillingSession × World

abbrev pub is_subscription : Funding → Bool
is_subscription (wallet f) = false
is_subscription (subscription f) = true

-- `PreConsumeTokenQuota`
unfoldable pub pre_consume_token_quota : RelayInfo → ℤ → Action Unit
unfolding ◌>>=◌
pre_consume_token_quota info quota =
    if ltb_ℤ quota (pos 0)
    then raise Error.negative_quota
    else if info.is_playground
    then pure tt
    else do
      statement
      token ←
          or_raise (← gets (λ w. find (token_has_key info.token_key) w.db.tokens))
            Error.record_not_found
      raise_if (not info.token_unlimited && ltb_ℤ token.remain_quota quota) Error.token_insufficient
      decrease_token_quota info.token_id quota

-- The token's part of `Settle`
pub settle_token : RelayInfo → ℤ → Action Unit
unfolding ◌>>=◌
settle_token info delta =
    if info.is_playground
    then pure tt
    else if ltb_ℤ (pos 0) delta
    then decrease_token_quota info.token_id delta
    else increase_token_quota info.token_id (neg delta)

-- `SubscriptionPostDelta += delta`, for a subscription
pub note_delta : Funding → ℤ → RelayInfo → RelayInfo
note_delta (wallet f) delta info = info
note_delta (subscription f) delta info = record info {
  subscription_post_delta = info.subscription_post_delta +ℤ delta;
}

-- What `Settle` does once the source has paid: the token, the log field, the mark.
pub finish_settle : ℤ → BillingSession → World → Outcome
unfolding settle_token note_delta
finish_settle delta s w =
    let (r, w') = settle_token s.relay_info delta w in
    (
      r,
      record s {
        funding_settled = true;
        settled = true;
        relay_info = note_delta s.funding delta s.relay_info;
      },
      w',
    )

-- The call of `funding.Settle`, if the source has not paid yet.
pub pay : ℤ → BillingSession → Action Unit
pay delta s w = if s.funding_settled then (ok tt, w) else funding_settle s.funding delta w

pub settle_delta : ℤ → BillingSession → World → Outcome
unfolding pay finish_settle
settle_delta delta s w =
    let (r, w') = pay delta s w in
    elim r [ err e ↦ (err e, s, w') | ok _ ↦ finish_settle delta s w' ]

-- `Settle(actualQuota)`
unfoldable pub settle : ℤ → BillingSession → World → Outcome
unfolding settle_delta
settle actual s w =
    if s.settled
    then (ok tt, s, w)
    else if eqb_ℤ (actual -ℤ s.pre_consumed_quota) (pos 0)
    then (ok tt, record s { settled = true }, w)
    else settle_delta (actual -ℤ s.pre_consumed_quota) s w

-- `sub.preConsumed > 0`, for a subscription
abbrev reserved : Funding → Bool
reserved (wallet f) = false
reserved (subscription f) = ltb_ℤ (pos 0) f.pre_consumed

-- `needsRefundLocked`
unfoldable pub needs_refund : BillingSession → Bool
needs_refund s =
    if s.settled || s.refunded || s.funding_settled
    then false
    else ltb_ℤ (pos 0) s.token_consumed || reserved s.funding

-- The goroutine of `Refund`: both parts are tried, and errors are only logged.
pub refund_work : BillingSession → World → World
refund_work s w =
    let w1 = (funding_refund s.funding w).1 in
    if ltb_ℤ (pos 0) s.token_consumed && not s.relay_info.is_playground
    then (increase_token_quota s.relay_info.token_id s.token_consumed w1).1
    else w1

-- `Refund`
unfoldable pub refund : BillingSession → World → BillingSession × World
unfolding needs_refund refund_work
refund s w =
    if s.settled || s.refunded || not (needs_refund s)
    then (s, w)
    else (record s { refunded = true }, refund_work s w)

-- The last test of `shouldTrust`, by source
trusts_source : Funding → RelayInfo → Bool
trusts_source (wallet f) info = ltb_ℤ info.trust_quota info.user_quota
trusts_source (subscription f) info = false

-- `shouldTrust`
unfoldable pub should_trust : BillingSession → Bool
unfolding trusts_source
should_trust s =
    if s.relay_info.force_pre_consume
    then false
    else if leb_ℤ s.relay_info.trust_quota (pos 0)
    then false
    else if not
        (s.relay_info.token_unlimited || ltb_ℤ s.relay_info.trust_quota s.relay_info.token_quota)
    then false
    else trusts_source s.funding s.relay_info

-- `syncRelayInfo`
pub sync_relay_info : Funding → ℤ → RelayInfo → RelayInfo
sync_relay_info (wallet f) quota info = record info {
  final_pre_consumed_quota = quota;
  billing_source = Source.from_wallet;
  subscription_id = 0;
  subscription_pre_consumed = pos 0;
}
sync_relay_info (subscription f) quota info = record info {
  final_pre_consumed_quota = quota;
  billing_source = Source.from_subscription;
  subscription_id = f.subscription_id;
  subscription_pre_consumed = f.pre_consumed;
  subscription_post_delta = pos 0;
  subscription_amount_total = f.amount_total;
  subscription_amount_used_after = f.amount_used_after;
}

-- The error of `preConsume` where the source fails. The code looks for two messages in the text of
-- the error; they are those of these two errors.
pub code_of : Error → ErrorCode
code_of Error.no_active_subscription = ErrorCode.insufficient_user_quota
code_of Error.subscription_insufficient = ErrorCode.insufficient_user_quota
code_of _ = ErrorCode.update_data_error

-- A result with the code that the caller of billing looks at.
pub data Checked (A : Type 0) : Type 0 where
  fine : A → Checked A
  failed : ErrorCode → Checked A

-- The token's part of `preConsume`; the amount that was taken comes back.
pub take_token : RelayInfo → ℤ → Action ℤ
unfolding ◌>>=◌ pre_consume_token_quota
take_token info quota =
    if ltb_ℤ (pos 0) quota then pre_consume_token_quota info quota >> pure quota else pure (pos 0)

-- The rollback of the token's part; its error is only logged.
pub give_back : RelayInfo → ℤ → World → World
give_back info taken w =
    if ltb_ℤ (pos 0) taken && not info.is_playground
    then (increase_token_quota info.token_id taken w).1
    else w

-- The source's part of `preConsume`, after the token's.
pub reserve : ℤ → ℤ → BillingSession → World → Checked BillingSession × World
unfolding give_back code_of sync_relay_info
reserve quota taken s w =
    let (r, w') = funding_pre_consume s.funding quota w in
    elim r [
      | err e ↦ (failed (code_of e), give_back s.relay_info taken w')
      | ok f ↦ (
        fine (record s {
          funding = f;
          token_consumed = taken;
          pre_consumed_quota = quota;
          relay_info = sync_relay_info f quota s.relay_info;
        }),
        w',
      )
    ]

abbrev pub effective_quota : BillingSession → ℤ → ℤ
effective_quota s quota = if should_trust s then pos 0 else quota

-- `preConsume(quota)`: the session is given up by the caller on an error.
unfoldable pub pre_consume : ℤ → BillingSession → World → Checked BillingSession × World
unfolding should_trust take_token reserve
pre_consume quota s w =
    let (r, w') = take_token s.relay_info (effective_quota s quota) w in
    elim r [
      | err e ↦ (failed ErrorCode.pre_consume_token_quota_failed, w')
      | ok taken ↦ reserve (effective_quota s quota) taken s w'
    ]

-- `&BillingSession{relayInfo, funding}`
abbrev pub new_session : RelayInfo → Funding → BillingSession
new_session info f = record {
  relay_info = info;
  funding = f;
  pre_consumed_quota = pos 0;
  token_consumed = pos 0;
  funding_settled = false;
  settled = false;
  refunded = false;
}
