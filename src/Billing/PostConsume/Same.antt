-- ===== src/Billing/PostConsume/Same.antt =====
-- Both ways to settle a request on the wallet come to the same.
use east_api.Prelude.{◌≡◌, refl, ap, sym, true, false≢true, if_cases, arith, []}
use east_api.Prelude.Int.{ℤ, pos, ◌+ℤ◌, ◌-ℤ◌, neg, ltb_ℤ, eqb_ℤ, int_laws}
use east_api.Store.{World, Result, ok, err}
use east_api.Quota.Effective.{effective_user, effective_token, has_user, has_token}
use east_api.Billing.Funding.{Source}
use east_api.Billing.Session.{RelayInfo, settle, settle_token}
use east_api.Billing.Session.Balance.{Moved, decrease_user_quota-Moved, increase_user_quota-Moved}
use east_api.Billing.Session.Wallet.{share, opened, Here, Holds-to}
use east_api.Billing.Session.Settle.{
  Settled, settle-Settled, settle_token-Moved, neg_fits, share_split, split_cost, same_when,
}
use east_api.Billing.PostConsume.{
  Relay, billed, unbilled, settle_billing, post_consume_quota, post_consume_source,
  finish_post_consume, noted,
}

-- The request without a session, after it has reserved `q` on the wallet
abbrev pub plain : RelayInfo → ℤ → RelayInfo
plain info q = record info { final_pre_consumed_quota = q; billing_source = Source.from_wallet }

-- The request has returned with these balances.
abbrev Ends : RelayInfo → ℤ → ℤ → Result (Unit {0}) × Relay × World → Type 0
Ends info u t (ok r, relay, w) = Here true info u t w
Ends info u t (err e, relay, w) = ⊥

module _ (info : RelayInfo) (u t q actual : ℤ) (w : World)
    (h : Here true info (u +ℤ neg q) (t +ℤ neg (share info q)) w) where
  billed-Ends :
      Ends info
        (u +ℤ neg actual)
        (t +ℤ neg (share info actual))
        (settle_billing actual (billed (opened info q)) w)
  unfolding settle_billing
  billed-Ends = read (settle actual (opened info q) w) (settle-Settled true info u t q actual w h)
    where
      read :
          (x : east_api.Billing.Session.Outcome)
          → Settled true info u t q actual x
          → Ends info (u +ℤ neg actual) (t +ℤ neg (share info actual)) (x.0, billed x.1, x.2)
      read (ok r, s, w') g = g.1
      read (err e, s, w') g = absurd (false≢true (sym g.0))

  source-Moved :
      (delta : ℤ)
      → Moved true info.user_id info.token_id
          (u +ℤ neg q)
          (t +ℤ neg (share info q))
          (u +ℤ neg q +ℤ neg delta)
          (t +ℤ neg (share info q))
          (post_consume_source (plain info q) delta w)
  unfolding post_consume_source
  source-Moved delta =
      if_cases P (ltb_ℤ (pos 0) delta)
        (λ up.
          decrease_user_quota-Moved true info.user_id info.token_id (u +ℤ neg q)
            (t +ℤ neg (share info q)) delta w h (ground arith))
        (λ down.
          increase_user_quota-Moved true info.user_id info.token_id (u +ℤ neg q)
            (t +ℤ neg (share info q)) (neg delta) w h (neg_fits delta down))
    where
      P : (World → Result (Unit {0}) × World) → Type 0
      P m =
          Moved true info.user_id info.token_id (u +ℤ neg q) (t +ℤ neg (share info q))
            (u +ℤ neg q +ℤ neg delta) (t +ℤ neg (share info q)) (m w)

  unbilled-Ends :
      Ends info
        (u +ℤ neg actual)
        (t +ℤ neg (share info actual))
        (settle_billing actual (unbilled (plain info q)) w)
  unfolding settle_billing post_consume_quota finish_post_consume
  unbilled-Ends =
      if_cases (Ends info (u +ℤ neg actual) (t +ℤ neg (share info actual)))
        (eqb_ℤ (actual -ℤ q) (pos 0))
        (λ even.
          let same : actual ≡ q = same_when actual q even in
          Holds-to true info.user_id info.token_id _ _ _ _ w h (ap (λ z. u +ℤ neg z) (sym same))
            (ap (λ z. t +ℤ neg (share info z)) (sym same)))
        λ _.
          from_source (post_consume_source (plain info q) (actual -ℤ q) w)
            (source-Moved (actual -ℤ q))
    where
      from_token :
          (x : Result (Unit {0}) × World)
          → Moved true info.user_id info.token_id
              (u +ℤ neg actual)
              (t +ℤ neg (share info q))
              (u +ℤ neg actual)
              (t +ℤ neg (share info q) +ℤ neg (share info (actual -ℤ q)))
              x
          → Ends info
              (u +ℤ neg actual)
              (t +ℤ neg (share info actual))
              (x.0, unbilled (noted (actual -ℤ q) (plain info q)), x.1)
      from_token (ok r, w') now =
          Holds-to true info.user_id info.token_id _ _ _ _ w' now refl (share_split info t q actual)
      from_token (err e, w') now = absurd (false≢true (sym now.1))

      from_source :
          (x : Result (Unit {0}) × World)
          → Moved true info.user_id info.token_id
              (u +ℤ neg q)
              (t +ℤ neg (share info q))
              (u +ℤ neg q +ℤ neg (actual -ℤ q))
              (t +ℤ neg (share info q))
              x
          → (let y = finish_post_consume (plain info q) (actual -ℤ q) x in
              Ends info (u +ℤ neg actual) (t +ℤ neg (share info actual)) (y.0, unbilled y.1, y.2))
      from_source (ok r, w') now = from_token (settle_token (plain info q) (actual -ℤ q) w') (
          settle_token-Moved (actual -ℤ q) w' true (plain info q) (u +ℤ neg actual)
            (t +ℤ neg (share info q))
            (Holds-to true info.user_id info.token_id _ _ _ _ w' now (split_cost u q actual) refl))
      from_source (err e, w') now = absurd (false≢true (sym now.1))

-- The request has returned, and the user and the token bear the difference between what was reserved
-- and the cost; in the playground the token bears nothing.
abbrev pub Charged : RelayInfo → ℤ → ℤ → World → Result (Unit {0}) × Relay × World → Type 0
Charged info q actual w (ok r, relay, w') =
    (effective_user info.user_id w' ≡ effective_user info.user_id w +ℤ q +ℤ neg actual)
    × (effective_token info.token_id w'
        ≡ effective_token info.token_id w +ℤ share info q +ℤ neg (share info actual))
Charged info q actual w (err e, relay, w') = ⊥

taken_back : (u q : ℤ) → u ≡ u +ℤ q +ℤ neg q
taken_back u q = omega int_laws

-- Where no statement fails and the user and the token are in the tables, SettleBilling of a request that has reserved `q` on the wallet
-- charges the difference to the cost to the user and the token, and it comes to the same whether the request has a session or not.
pub settle_billing-Charged :
    (info : RelayInfo) (q actual : ℤ) (w : World)
    → w.faults ≡ []
    → has_user info.user_id w.db.users ≡ true
    → has_token info.token_id w.db.tokens ≡ true
    → Charged info q actual w (settle_billing actual (billed (opened info q)) w)
      × Charged info q actual w (settle_billing actual (unbilled (plain info q)) w)
settle_billing-Charged info q actual w quiet user token = (
  read (settle_billing actual (billed (opened info q)) w) (billed-Ends info u t q actual w here),
  read (settle_billing actual (unbilled (plain info q)) w) (unbilled-Ends info u t q actual w here),
)
  where
    u : ℤ
    u = effective_user info.user_id w +ℤ q

    t : ℤ
    t = effective_token info.token_id w +ℤ share info q

    here : Here true info (u +ℤ neg q) (t +ℤ neg (share info q)) w
    here = record {
      user_there = user;
      token_there = token;
      user_is = taken_back (effective_user info.user_id w) q;
      token_is = taken_back (effective_token info.token_id w) (share info q);
      no_faults = λ e. quiet;
    }

    read :
        (x : Result (Unit {0}) × Relay × World)
        → Ends info (u +ℤ neg actual) (t +ℤ neg (share info actual)) x
        → Charged info q actual w x
    read (ok r, relay, w') h = (h.user_is, h.token_is)
    read (err e, relay, w') h = h
