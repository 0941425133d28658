-- ===== src/Billing/Factory/Attempts.antt =====
-- The two attempts of NewBillingSession: what holds of the session that each of them hands out.
use east_api.Prelude.{
  subst, ℕ, ◌≡◌, refl, sym, ◌∙◌, ◌⊎◌, inl, inr, Bool, true, false, if_both, if_cases, if_false,
  if◌then◌else◌, arith,
}
use east_api.Prelude.Int.{ℤ, pos, ◌-ℤ◌, ltb_ℤ, leb_ℤ}
use east_api.Store.{World, Result, ok, err}
use east_api.Billing.Funding.{
  WalletFunding, SubscriptionFunding, Funding, wallet, subscription, Source, source,
}
use east_api.Billing.Session.{
  RelayInfo, BillingSession, ErrorCode, Checked, fine, failed, new_session, should_trust,
  pre_consume,
}
use east_api.Billing.Session.Opened.{
  trust_fields, IfFine, Opened, Follows, pre_consume-Opened, should_trust-subscription,
}
use east_api.Billing.Factory.{
  get_user_quota, Tried, with_info, wallet_attempt, try_wallet, sub_consume, try_subscription,
}

-- A wallet is trusted where nothing is forced to be reserved, the bound of trust is positive, and the
-- user, and the token if it is limited, have more than that bound.
abbrev pub Trusted : Bool × Bool × ℤ × ℤ × ℤ → Type 0
Trusted (forced, unlimited, bound, token_quota, user_quota) =
    (forced ≡ false)
    × (ltb_ℤ (pos 0) bound ≡ true)
    × ((unlimited ≡ true) ⊎ (ltb_ℤ bound token_quota ≡ true))
    × (ltb_ℤ bound user_quota ≡ true)

-- What the source of an open session says, by kind: nothing is taken from a wallet that is trusted, and
-- just then, and the whole amount from any other.
abbrev pub Pays : ℕ → ℤ → ℤ → RelayInfo → Funding → Type 0
Pays uid quota q info (wallet f) =
    (f.user_id ≡ uid)
    × (((q ≡ pos 0) × Trusted (trust_fields info)) ⊎ ((q ≡ quota) × ¬ Trusted (trust_fields info)))
Pays uid quota q info (subscription f) =
    (f.user_id ≡ uid) × (f.amount ≡ q) × (q ≡ sub_consume quota)

-- An open session: nothing is settled or given back, the amount in the relay info is the amount that
-- the session will settle against, and the source in the relay info is the one that pays.
pub record IsOpen (uid : ℕ) (quota : ℤ) (s : BillingSession) : Type 0 where
  pub not_settled : s.settled ≡ false
  pub not_paid : s.funding_settled ≡ false
  pub not_refunded : s.refunded ≡ false
  pub same_amount : s.relay_info.final_pre_consumed_quota ≡ s.pre_consumed_quota
  pub same_source : s.relay_info.billing_source ≡ source s.funding
  pub same_id : s.relay_info.user_id ≡ uid
  pub pays : Pays uid quota s.pre_consumed_quota s.relay_info s.funding

-- What the factory hands out: a session with the property, or an error and the relay info of the
-- same user.
abbrev pub Handed : ℕ → (BillingSession → Type 0) → Tried → Type 0
Handed uid Q (fine s, info, w) = Q s
Handed uid Q (failed e, info, w) = info.user_id ≡ uid

abbrev pub FromWallet : ℕ → ℤ → BillingSession → Type 0
FromWallet uid quota s = IsOpen uid quota s × (source s.funding ≡ Source.from_wallet)

abbrev pub FromSubscription : ℕ → ℤ → BillingSession → Type 0
FromSubscription uid quota s = IsOpen uid quota s × (source s.funding ≡ Source.from_subscription)

abbrev Takes : ℤ → Bool × Bool × ℤ × ℤ × ℤ → ℤ → Type 0
Takes quota fields q = ((q ≡ pos 0) × Trusted fields) ⊎ ((q ≡ quota) × ¬ Trusted fields)

abbrev TakesOf : ℤ → RelayInfo → ℤ → Type 0
TakesOf quota info q = Takes quota (trust_fields info) q

should_trust-Trusted :
    (info : RelayInfo) (f : WalletFunding)
    → should_trust (new_session info (wallet f)) ≡ true
    → Trusted (trust_fields info)
unfolding should_trust
should_trust-Trusted info f h = ground arith

should_trust-untrusted :
    (info : RelayInfo) (f : WalletFunding)
    → should_trust (new_session info (wallet f)) ≡ false
    → ¬ Trusted (trust_fields info)
unfolding should_trust
should_trust-untrusted info f h = λ t. ground arith

takes :
    (quota : ℤ) (info : RelayInfo) (f : WalletFunding)
    → TakesOf quota info (if should_trust (new_session info (wallet f)) then pos 0 else quota)
takes quota info f =
    if_cases (TakesOf quota info) (should_trust (new_session info (wallet f)))
      (λ h. inl (refl, should_trust-Trusted info f h))
      λ h. inr (refl, should_trust-untrusted info f h)

wallet-Opened :
    (uid : ℕ) (quota q : ℤ) (info : RelayInfo) (f : WalletFunding) (s : BillingSession)
    → f.user_id ≡ uid
    → info.user_id ≡ uid
    → TakesOf quota info q
    → Opened (wallet f) info q s
    → FromWallet uid quota s
unfolding Follows
wallet-Opened uid quota q info f s ef ei eq o = (
  record {
    not_settled = o.not_settled;
    not_paid = o.not_paid;
    not_refunded = o.not_refunded;
    same_amount = o.same_amount ∙ sym o.amount;
    same_source = o.same_source;
    same_id = o.same_id ∙ ei;
    pays = (go s.funding o.follows).0;
  },
  (go s.funding o.follows).1,
)
  where
    go :
        (g : Funding)
        → Follows (wallet f) g
        → Pays uid quota s.pre_consumed_quota s.relay_info g × (source g ≡ Source.from_wallet)
    go (wallet g) h = (
      (
        h ∙ ef,
        subst (λ v. Takes quota v s.pre_consumed_quota) (sym o.same_trust)
            (subst (Takes quota (trust_fields info)) (sym o.amount) eq),
      ),
      refl,
    )
    go (subscription g) h = absurd h

subscription-Opened :
    (uid : ℕ) (quota : ℤ) (info : RelayInfo) (f : SubscriptionFunding) (s : BillingSession)
    → f.user_id ≡ uid
    → info.user_id ≡ uid
    → f.amount ≡ sub_consume quota
    → Opened (subscription f) info (sub_consume quota) s
    → FromSubscription uid quota s
unfolding Follows
subscription-Opened uid quota info f s ef ei ea o = (
  record {
    not_settled = o.not_settled;
    not_paid = o.not_paid;
    not_refunded = o.not_refunded;
    same_amount = o.same_amount ∙ sym o.amount;
    same_source = o.same_source;
    same_id = o.same_id ∙ ei;
    pays = (go s.funding o.follows).0;
  },
  (go s.funding o.follows).1,
)
  where
    go :
        (g : Funding)
        → Follows (subscription f) g
        → Pays uid quota s.pre_consumed_quota s.relay_info g × (source g ≡ Source.from_subscription)
    go (subscription g) (hu, ha) = ((hu ∙ ef, ha ∙ ea ∙ sym o.amount, o.amount), refl)
    go (wallet g) h = absurd h

handed :
    (uid : ℕ) (P Q : BillingSession → Type 0) (info : RelayInfo)
    (x : Checked BillingSession × World)
    → info.user_id ≡ uid
    → ((s : BillingSession) → P s → Q s)
    → IfFine P x
    → Handed uid Q (with_info info x)
handed uid P Q info (fine s, w) e k h = k s h
handed uid P Q info (failed c, w) e k h = e

pub try_wallet-Handed :
    (uid : ℕ) (info : RelayInfo) (quota : ℤ) (w : World)
    → info.user_id ≡ uid
    → Handed uid (FromWallet uid quota) (try_wallet info quota w)
unfolding try_wallet wallet_attempt
try_wallet-Handed uid info quota w e = go (get_user_quota info.user_id w)
  where
    attempt :
        (user_quota : ℤ) (w' : World)
        → Handed uid (FromWallet uid quota) (wallet_attempt info quota user_quota w')
    attempt user_quota w' =
        let info' = record info { user_quota = user_quota } in
        let f : WalletFunding = record { user_id = info.user_id; consumed = pos 0 } in
        if_both (Handed uid (FromWallet uid quota)) (leb_ℤ user_quota (pos 0)) e (
          if_both (Handed uid (FromWallet uid quota)) (ltb_ℤ (user_quota -ℤ quota) (pos 0)) e (
            handed uid _ _ info' (pre_consume quota (new_session info' (wallet f)) w') e
              (λ s. wallet-Opened uid quota _ info' f s e e (takes quota info' f))
              (pre_consume-Opened quota info' (wallet f) w')))

    go :
        (x : Result ℤ × World)
        → Handed uid (FromWallet uid quota) (elim x.0 [
          | err e' ↦ (failed ErrorCode.query_data_error, info, x.1)
          | ok user_quota ↦ wallet_attempt info quota user_quota x.1
        ])
    go (ok user_quota, w') = attempt user_quota w'
    go (err e', w') = e

subscription_for : RelayInfo → ℤ → SubscriptionFunding
subscription_for info quota = record {
  request_id = info.request_id;
  user_id = info.user_id;
  amount = sub_consume quota;
  subscription_id = 0;
  pre_consumed = pos 0;
  amount_total = pos 0;
  amount_used_after = pos 0;
}

pub try_subscription-Handed :
    (uid : ℕ) (info : RelayInfo) (quota : ℤ) (w : World)
    → info.user_id ≡ uid
    → Handed uid (FromSubscription uid quota) (try_subscription info quota w)
unfolding try_subscription subscription_for
try_subscription-Handed uid info quota w e =
    let f = subscription_for info quota in
    handed uid _ _ info (pre_consume (sub_consume quota) (new_session info (subscription f)) w) e
      (λ s. subscription-Opened uid quota info f s e e refl)
      (subst
        (λ q.
          IfFine (Opened (subscription f) info q)
            (pre_consume (sub_consume quota) (new_session info (subscription f)) w))
        (if_false (should_trust (new_session info (subscription f))) (pos 0) (sub_consume quota)
          (should_trust-subscription f info))
        (pre_consume-Opened (sub_consume quota) info (subscription f) w))
