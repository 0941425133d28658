-- ===== src/Billing/Session/Lifecycle.antt =====
-- The life of a session that the wallet pays: what preConsume, Settle and Refund together do to the
-- balances of the user and of the token.
use east_api.Prelude.{
  ◌≡◌, refl, ap, sym, subst, ◌∙◌, inl, inr, Bool, true, false, not, ◌&&◌, ◌||◌, if_both, if_cases,
  false≢true,
}
use east_api.Prelude.Int.{ℤ, pos, ◌+ℤ◌, neg, ltb_ℤ, leb_ℤ}
use east_api.Store.{World, Result, ok, err}
use east_api.Quota.{increase_user_quota, increase_token_quota}
use east_api.Billing.Funding.{funding_refund}
use east_api.Billing.Session.{
  RelayInfo, BillingSession, Checked, fine, failed, effective_quota, pre_consume, settle, refund,
  refund_work, needs_refund, should_trust,
}
use east_api.Billing.Session.Balance.{
  Holds, Moved, increase_user_quota-Moved, increase_token_quota-Moved,
}
use east_api.Billing.Session.Wallet.{
  share, opened, Here, Holds-to, less_zero, share-false, share_zero, zero_of, not_above,
}
use east_api.Billing.Session.Settle.{Settled, settle-Settled, put_back}
use east_api.Billing.Session.Reserve.{
  Unspent, Reserved, fresh, pre_consume-Reserved, nothing_shared, and_not,
}

not_or : (a : Bool) → not (a || false) ≡ true → a ≡ false
not_or true h = absurd (false≢true h)
not_or false h = refl

-- `Refund` of a session that has reserved `q`, when no statement fails.
module _ (info : RelayInfo) (u t q : ℤ) (fits : ltb_ℤ q (pos 0) ≡ false) where
  refund_funding-Here :
      (w : World)
      → Here true info (u +ℤ neg q) (t +ℤ neg (share info q)) w
      → Here true info u (t +ℤ neg (share info q)) (funding_refund (opened info q).funding w).1
  unfolding funding_refund
  refund_funding-Here w h =
      if_cases P (leb_ℤ q (pos 0))
        (λ none_at_all.
          Holds-to true info.user_id info.token_id _ _ _ _ w h
            (ap (λ z. u +ℤ neg z) (not_above q fits none_at_all) ∙ sym (less_zero u)) refl)
        λ _. returned (increase_user_quota info.user_id q false w) (
          increase_user_quota-Moved true info.user_id info.token_id (u +ℤ neg q)
            (t +ℤ neg (share info q)) q w h fits)
    where
      P : (World → Result (Unit {0}) × World) → Type 0
      P m = Here true info u (t +ℤ neg (share info q)) (m w).1

      returned :
          (x : Result (Unit {0}) × World)
          → Moved true info.user_id info.token_id
              (u +ℤ neg q)
              (t +ℤ neg (share info q))
              (u +ℤ neg q +ℤ q)
              (t +ℤ neg (share info q))
              x
          → Here true info u (t +ℤ neg (share info q)) x.1
      returned (ok r, w') now =
          Holds-to true info.user_id info.token_id _ _ _ _ w' now (put_back u q) refl
      returned (err e, w') (now, loud) = absurd (false≢true (sym loud))

  refund_work-Here :
      (w : World)
      → Here true info (u +ℤ neg q) (t +ℤ neg (share info q)) w
      → Here true info u t (refund_work (opened info q) w)
  unfolding refund_work
  refund_work-Here w h =
      let w1 = (funding_refund (opened info q).funding w).1 in
      let h1 = refund_funding-Here w h in
      if_cases (Here true info u t) (ltb_ℤ (pos 0) q && not info.is_playground)
        (λ both. returned (and_not _ _ both) (increase_token_quota info.token_id q w1) (
          increase_token_quota-Moved true info.user_id info.token_id u (t +ℤ neg (share info q)) q
            w1 h1 fits))
        λ idle.
          Holds-to true info.user_id info.token_id _ _ _ _ w1 h1 refl
            (ap (λ z. t +ℤ neg z) (nothing_shared info q fits idle) ∙ sym (less_zero t))
    where
      returned :
          info.is_playground ≡ false
          → (x : Result (Unit {0}) × World)
          → Moved true info.user_id info.token_id u
              (t +ℤ neg (share info q))
              u
              (t +ℤ neg (share info q) +ℤ q)
              x
          → Here true info u t x.1
      returned work (ok r, w') now =
          Holds-to true info.user_id info.token_id _ _ _ _ w' now refl
            (rw (share-false info q work) (put_back t q))
      returned work (err e, w') (now, loud) = absurd (false≢true (sym loud))

  refund-Here :
      (w : World)
      → Here true info (u +ℤ neg q) (t +ℤ neg (share info q)) w
      → Here true info u t (refund (opened info q) w).1
  unfolding refund needs_refund
  refund-Here w h =
      if_cases (λ (x : BillingSession × World). Here true info u t x.1)
        (not (ltb_ℤ (pos 0) q || false))
        (λ idle.
          let none_at_all : q ≡ pos 0 = zero_of q fits (not_or _ idle) in
          Holds-to true info.user_id info.token_id _ _ _ _ w h
            (ap (λ z. u +ℤ neg z) none_at_all ∙ sym (less_zero u))
            (ap (λ z. t +ℤ neg z) (ap (share info) none_at_all ∙ share_zero info)
              ∙ sym (less_zero t)))
        λ _. refund_work-Here w h

-- What becomes of a request that asks for `q` and in the end costs `actual`.
abbrev pub Charged : Bool → RelayInfo → ℤ → ℤ → ℤ → ℤ → Checked BillingSession × World → Type 0
Charged calm info u t q actual (failed e, w) = Unspent calm info u t q w
Charged calm info u t q actual (fine s, w) = Settled calm info u t q actual (settle actual s w)

-- What becomes of a request that is refused, or is opened and then refunded.
abbrev pub Restored : RelayInfo → ℤ → ℤ → Checked BillingSession × World → Type 0
Restored info u t (failed e, w) = Holds true info.user_id info.token_id u t w
Restored info u t (fine s, w) = Holds true info.user_id info.token_id u t (refund s w).1

reserved_fits :
    (info : RelayInfo) (quota : ℤ)
    → ltb_ℤ quota (pos 0) ≡ false
    → ltb_ℤ (effective_quota (fresh info) quota) (pos 0) ≡ false
reserved_fits info quota fits =
    if_both (λ z. ltb_ℤ z (pos 0) ≡ false) (should_trust (fresh info)) refl fits

-- A request that the wallet pays, for an amount that is not negative, and whose user and token
-- exist. If preConsume refuses it, the user has lost nothing, and the token at most the amount that
-- a failing statement kept from being given back. If not, Settle for the actual cost leaves the user
-- and, outside the playground, the token charged exactly that cost, whatever was reserved and
-- whether or not the trust test had the reservation left out. Where a statement of Settle fails,
-- either nothing has changed since preConsume, or the user is charged exactly the cost, the token
-- what was reserved, and the session is settled.
pub wallet_charge :
    (calm : Bool) (info : RelayInfo) (u t quota actual : ℤ) (w : World)
    → ltb_ℤ quota (pos 0) ≡ false
    → Holds calm info.user_id info.token_id u t w
    → Charged calm info u t
        (effective_quota (fresh info) quota)
        actual
        (pre_consume quota (fresh info) w)
wallet_charge calm info u t quota actual w fits h =
    go (pre_consume quota (fresh info) w) (pre_consume-Reserved calm info u t quota w fits h)
  where
    q : ℤ
    q = effective_quota (fresh info) quota

    go :
        (x : Checked BillingSession × World)
        → Reserved calm info u t q x
        → Charged calm info u t q actual x
    go (failed e, w') h' = h'
    go (fine s, w') (same, now) =
        subst (λ z. Settled calm info u t q actual (settle actual z w')) (sym same)
          (settle-Settled calm info u t q actual w' now)

-- Under the same conditions, when no statement fails: a request that is refused, or that is opened
-- and then refunded, leaves the quotas of the user and of the token as they were.
pub wallet_refund :
    (info : RelayInfo) (u t quota : ℤ) (w : World)
    → ltb_ℤ quota (pos 0) ≡ false
    → Holds true info.user_id info.token_id u t w
    → Restored info u t (pre_consume quota (fresh info) w)
wallet_refund info u t quota w fits h =
    go (pre_consume quota (fresh info) w) (pre_consume-Reserved true info u t quota w fits h)
  where
    q : ℤ
    q = effective_quota (fresh info) quota

    kept : (w' : World) → Unspent true info u t q w' → Holds true info.user_id info.token_id u t w'
    kept w' h' = elim h'.lost [
      | inl all ↦ Holds-to true info.user_id info.token_id _ _ _ _ w' h'.now refl all
      | inr (_, loud) ↦ absurd (false≢true (sym loud))
    ]

    go : (x : Checked BillingSession × World) → Reserved true info u t q x → Restored info u t x
    go (failed e, w') h' = kept w' h'
    go (fine s, w') (same, now) =
        subst (λ z. Holds true info.user_id info.token_id u t (refund z w').1) (sym same)
          (refund-Here info u t q (reserved_fits info quota fits) w' now)
