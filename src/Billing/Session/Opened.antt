-- ===== src/Billing/Session/Opened.antt =====
-- The session that preConsume opens, whatever pays for it.
use east_api.Prelude.{arith, ◌≡◌, refl, Bool, false}
use east_api.Prelude.Int.{ℤ, pos, leb_ℤ}
use east_api.Store.{World, Result, ok, err, Action}
use east_api.Store.Triples.{After, Triple, Triple-pure, Triple-if, Triple-bind}
use east_api.Quota.{decrease_user_quota}
use east_api.Subscription.Consume.{pre_consume_user_subscription}
use east_api.Billing.Funding.{
  SubscriptionFunding, Funding, wallet, subscription, source, funding_pre_consume,
}
use east_api.Billing.Session.{
  RelayInfo, BillingSession, ErrorCode, Checked, fine, failed, new_session, effective_quota,
  should_trust, code_of, sync_relay_info, take_token, reserve, give_back, pre_consume,
}

-- The source after its part of `preConsume` is of the kind that it was, for the same user and amount.
unfoldable pub Follows : Funding → Funding → Type 0
Follows (wallet f) (wallet g) = g.user_id ≡ f.user_id
Follows (subscription f) (subscription g) = (g.user_id ≡ f.user_id) × (g.amount ≡ f.amount)
Follows _ _ = ⊥

Nothing : World → Type 0
Nothing w = Unit {0}

any : {A : Type 0} (m : Action A) → Triple Nothing (λ _. Nothing) Nothing m
unfolding Nothing
any m = record { at = λ w _. always (m w) }
  where
    always : {A : Type 0} (x : Result A × World) → After (λ _. Nothing) Nothing x
    always (ok a, w) = tt
    always (err e, w) = tt

funding_pre_consume-Follows :
    (f : Funding) (q : ℤ) (w : World)
    → After (λ g _. Follows f g) (λ _. Unit {0}) (funding_pre_consume f q w)
unfolding funding_pre_consume Follows Nothing
funding_pre_consume-Follows f q w = go f
  where
    go : (f : Funding) → After (λ g _. Follows f g) (λ _. Unit {0}) (funding_pre_consume f q w)
    go (wallet f) =
        (Triple-if {P = Nothing} {G = λ g _. Follows (wallet f) g} {B = Nothing} (leb_ℤ q (pos 0)) _
            _ (λ _. Triple-pure _ λ w _. refl)
            λ _.
              Triple-bind (decrease_user_quota f.user_id q false) _ (any _)
                λ _. Triple-pure _ λ w _. refl).at
          w tt
    go (subscription f) =
        (Triple-bind (pre_consume_user_subscription f.request_id f.user_id f.amount) _ (any _)
            λ res. Triple-pure {G = λ g _. Follows (subscription f) g} _ λ w _. (refl, refl)).at
          w tt

-- What holds of a session, if there is one.
abbrev pub IfFine : (BillingSession → Type 0) → Checked BillingSession × World → Type 0
IfFine Q (fine s, w) = Q s
IfFine Q (failed e, w) = Unit {0}

-- The fields of the relay info that trust in a wallet rests on
abbrev pub trust_fields : RelayInfo → Bool × Bool × ℤ × ℤ × ℤ
trust_fields info = (
  info.force_pre_consume, info.token_unlimited, info.trust_quota, info.token_quota, info.user_quota,
)

pub record Opened (f : Funding) (info : RelayInfo) (q : ℤ) (s : BillingSession) : Type 0 where
  pub not_settled : s.settled ≡ false
  pub not_paid : s.funding_settled ≡ false
  pub not_refunded : s.refunded ≡ false
  pub amount : s.pre_consumed_quota ≡ q
  pub same_amount : s.relay_info.final_pre_consumed_quota ≡ q
  pub same_source : s.relay_info.billing_source ≡ source s.funding
  pub same_id : s.relay_info.user_id ≡ info.user_id
  pub same_trust : trust_fields s.relay_info ≡ trust_fields info
  pub follows : Follows f s.funding

reserve-Opened :
    (q taken : ℤ) (info : RelayInfo) (f : Funding) (w : World)
    → IfFine (Opened f info q) (reserve q taken (new_session info f) w)
unfolding reserve
reserve-Opened q taken info f w = go (funding_pre_consume f q w) (funding_pre_consume-Follows f q w)
  where
    go :
        (x : Result Funding × World)
        → After (λ g _. Follows f g) (λ _. Unit {0}) x
        → IfFine (Opened f info q) (elim x.0 [
          | err e ↦ (failed (code_of e), give_back info taken x.1)
          | ok g ↦ (
            fine (record (new_session info f) {
              funding = g;
              token_consumed = taken;
              pre_consumed_quota = q;
              relay_info = sync_relay_info g q info;
            }),
            x.1,
          )
        ])
    go (ok (wallet g), w') h = record {
      not_settled = refl;
      not_paid = refl;
      not_refunded = refl;
      amount = refl;
      same_amount = refl;
      same_source = refl;
      same_id = refl;
      same_trust = refl;
      follows = h;
    }
    go (ok (subscription g), w') h = record {
      not_settled = refl;
      not_paid = refl;
      not_refunded = refl;
      amount = refl;
      same_amount = refl;
      same_source = refl;
      same_id = refl;
      same_trust = refl;
      follows = h;
    }
    go (err e, w') h = tt

-- Opening a session keeps the kind, the user and the amount of its source.
pub pre_consume-Opened :
    (quota : ℤ) (info : RelayInfo) (f : Funding) (w : World)
    → IfFine
        (Opened f info (effective_quota (new_session info f) quota))
        (pre_consume quota (new_session info f) w)
unfolding pre_consume
pre_consume-Opened quota info f w =
    go (take_token info (effective_quota (new_session info f) quota) w)
  where
    q : ℤ
    q = effective_quota (new_session info f) quota

    go :
        (x : Result ℤ × World)
        → IfFine (Opened f info q) (elim x.0 [
          | err e ↦ (failed ErrorCode.pre_consume_token_quota_failed, x.1)
          | ok taken ↦ reserve q taken (new_session info f) x.1
        ])
    go (ok taken, w') = reserve-Opened q taken info f w'
    go (err e, w') = tt

-- The trust test never lets a subscription through.
pub should_trust-subscription :
    (f : SubscriptionFunding) (info : RelayInfo)
    → should_trust (new_session info (subscription f)) ≡ false
unfolding should_trust
should_trust-subscription f info = ground arith
