-- ===== src/Billing/Session/Wallet.antt =====
-- Reserving for a wallet session: the token's part and the source's part of preConsume, as triples
-- about the balances of the user and of the token.
use east_api.Prelude.{
  arith, ℕ, ◌≡◌, refl, ap, sym, subst, ◌∙◌, Bool, true, false, not, ◌&&◌, if◌then◌else◌, if_both,
  if_true, if_false, false≢true, Option,
}
use east_api.Prelude.Int.{ℤ, pos, negsuc, ◌+ℤ◌, neg, ltb_ℤ, leb_ℤ, int_laws}
use east_api.Prelude.Tables.{find}
use east_api.Store.{
  World, Error, Result, ok, err, spent, later, raise_if, statement, gets, or_raise, Action,
}
use east_api.Store.Triples.{
  After, Triple, Triple-pure, Triple-if, Triple-gets, Triple-or_raise, Triple-raise_if,
  Triple-statement, Triple-bind,
}
use east_api.Store.Rows.{Token}
use east_api.Quota.{token_has_key, decrease_user_quota, decrease_token_quota}
use east_api.Billing.Funding.{wallet, Source, funding_pre_consume}
use east_api.Billing.Session.{RelayInfo, BillingSession, pre_consume_token_quota, take_token}
use east_api.Billing.Session.Balance.{
  Holds, Moved, decrease_user_quota-Moved, decrease_token_quota-Moved,
}

-- The part of an amount that the token bears: nothing in the playground.
abbrev pub share : RelayInfo → ℤ → ℤ
share info q = if info.is_playground then pos 0 else q

-- The session that `preConsume` opens on the wallet for the amount `q`.
abbrev pub opened : RelayInfo → ℤ → BillingSession
opened info q = record {
  relay_info = record info {
    final_pre_consumed_quota = q;
    billing_source = Source.from_wallet;
    subscription_id = 0;
    subscription_pre_consumed = pos 0;
  };
  funding = wallet (record { user_id = info.user_id; consumed = q });
  pre_consumed_quota = q;
  token_consumed = q;
  funding_settled = false;
  settled = false;
  refunded = false;
}

pub Holds-to :
    (calm : Bool) (uid tid : ℕ) (u t u' t' : ℤ) (w : World)
    → Holds calm uid tid u t w
    → u ≡ u'
    → t ≡ t'
    → Holds calm uid tid u' t' w
Holds-to calm uid tid u t u' t' w h eu et = record {
  user_there = h.user_there;
  token_there = h.token_there;
  user_is = h.user_is ∙ eu;
  token_is = h.token_is ∙ et;
  no_faults = h.no_faults;
}

Holds-spent :
    (calm : Bool) (uid tid : ℕ) (u t : ℤ) (w : World)
    → Holds calm uid tid u t w
    → Holds calm uid tid u t (spent w)
Holds-spent calm uid tid u t w h = record {
  user_there = h.user_there;
  token_there = h.token_there;
  user_is = h.user_is;
  token_is = h.token_is;
  no_faults = λ c. ap later (h.no_faults c);
}

pub less_zero : (t : ℤ) → t ≡ t +ℤ neg (pos 0)
less_zero t = omega int_laws

pub zero_of : (q : ℤ) → ltb_ℤ q (pos 0) ≡ false → ltb_ℤ (pos 0) q ≡ false → q ≡ pos 0
zero_of (pos n) a b = ground arith
zero_of (negsuc n) a b = ground arith

pub not_above : (q : ℤ) → ltb_ℤ q (pos 0) ≡ false → leb_ℤ q (pos 0) ≡ true → q ≡ pos 0
not_above (pos n) a b = ground arith
not_above (negsuc n) a b = ground arith

pub share-true : (info : RelayInfo) (q : ℤ) → info.is_playground ≡ true → share info q ≡ pos 0
share-true info q e = if_true info.is_playground (pos 0) q e

pub share-false : (info : RelayInfo) (q : ℤ) → info.is_playground ≡ false → share info q ≡ q
share-false info q e = if_false info.is_playground (pos 0) q e

pub share_zero : (info : RelayInfo) → share info (pos 0) ≡ pos 0
share_zero info = if_both (λ z. z ≡ pos 0) info.is_playground refl refl

abbrev pub Here : Bool → RelayInfo → ℤ → ℤ → World → Type 0
Here calm info = Holds calm info.user_id info.token_id

module _ (calm : Bool) (info : RelayInfo) (u t : ℤ) where
  stay : (w : World) → Here calm info u t w → Here calm info u t w
  stay w h = h

  Moved-Triple :
      (m : Action (Unit {0})) (u' t' : ℤ)
      → ((w : World) → Here calm info u t w → Moved calm info.user_id info.token_id u t u' t' (m w))
      → Triple (Here calm info u t) (λ _. Here calm info u' t') (Here calm info u t) m
  Moved-Triple m u' t' h = record { at = λ w now. weaker (m w) (h w now) }
    where
      weaker :
          (x : Result (Unit {0}) × World)
          → Moved calm info.user_id info.token_id u t u' t' x
          → After (λ _. Here calm info u' t') (Here calm info u t) x
      weaker (ok r, w) k = k
      weaker (err e, w) k = k.0

  pre_consume_token_quota-Triple :
      (q : ℤ)
      → ltb_ℤ q (pos 0) ≡ false
      → Triple
          (Here calm info u t)
          (λ _. Here calm info u (t +ℤ neg (share info q)))
          (Here calm info u t)
          (pre_consume_token_quota info q)
  unfolding pre_consume_token_quota
  pre_consume_token_quota-Triple q fits =
      Triple-if (ltb_ℤ q (pos 0)) _ _ (λ bad. absurd (false≢true (sym fits ∙ bad)))
        λ _.
          Triple-if info.is_playground _ _
            (λ play. Triple-pure tt λ w h.
              Holds-to calm info.user_id info.token_id u t u _ w h refl
                (less_zero t ∙ ap (λ z. t +ℤ neg z) (sym (share-true info q play))))
            λ work.
              Triple-bind statement _
                (Triple-statement stay (Holds-spent calm info.user_id info.token_id u t))
                λ _.
                  Triple-bind {A = Option Token}
                    (gets (λ w. find (token_has_key info.token_key) w.db.tokens)) _
                    (Triple-gets stay (λ w. find (token_has_key info.token_key) w.db.tokens))
                    λ o.
                      Triple-bind {A = Token} (or_raise o Error.record_not_found) _
                        (Triple-or_raise stay o Error.record_not_found)
                        λ token.
                          Triple-bind
                            (raise_if (not info.token_unlimited && ltb_ℤ token.remain_quota q)
                              Error.token_insufficient)
                            _
                            (Triple-raise_if stay
                              (not info.token_unlimited && ltb_ℤ token.remain_quota q)
                              Error.token_insufficient)
                            λ _. Moved-Triple (decrease_token_quota info.token_id q) u _ λ w h.
                              subst
                                (λ z.
                                  Moved calm info.user_id info.token_id u t u (t +ℤ neg z)
                                    (decrease_token_quota info.token_id q w))
                                (sym (share-false info q work))
                                (decrease_token_quota-Moved calm info.user_id info.token_id u t q w
                                  h fits)

  pub take_token-Triple :
      (q : ℤ)
      → ltb_ℤ q (pos 0) ≡ false
      → Triple
          (Here calm info u t)
          (λ taken w. (taken ≡ q) × Here calm info u (t +ℤ neg (share info q)) w)
          (Here calm info u t)
          (take_token info q)
  unfolding take_token
  take_token-Triple q fits =
      Triple-if (ltb_ℤ (pos 0) q) _ _
        (λ _.
          Triple-bind (pre_consume_token_quota info q) _ (pre_consume_token_quota-Triple q fits)
            λ _. Triple-pure q λ w h. (refl, h))
        λ nothing. Triple-pure (pos 0) λ w h.
          let none_at_all : q ≡ pos 0 = zero_of q fits nothing in
          (
            sym none_at_all,
            Holds-to calm info.user_id info.token_id u t u _ w h refl (
                less_zero t
                ∙ ap (λ z. t +ℤ neg z) (sym (ap (share info) none_at_all ∙ share_zero info))),
          )

  pub funding_pre_consume-Triple :
      (q : ℤ)
      → ltb_ℤ q (pos 0) ≡ false
      → Triple
          (Here calm info u t)
          (λ f w'.
            (f ≡ wallet (record { user_id = info.user_id; consumed = q }))
            × Here calm info (u +ℤ neg q) t w')
          (λ w'. Here calm info u t w' × (calm ≡ false))
          (funding_pre_consume (wallet (record { user_id = info.user_id; consumed = pos 0 })) q)
  unfolding funding_pre_consume
  funding_pre_consume-Triple q fits =
      Triple-if (leb_ℤ q (pos 0)) _ _
        (λ nothing. Triple-pure _ λ w h.
          let none_at_all : q ≡ pos 0 = not_above q fits nothing in
          (
            ap (λ z. wallet (record { user_id = info.user_id; consumed = z })) (sym none_at_all),
            Holds-to calm info.user_id info.token_id u t _ t w h
                (less_zero u ∙ ap (λ z. u +ℤ neg z) (sym none_at_all)) refl,
          ))
        λ _.
          Triple-bind (decrease_user_quota info.user_id q false) _
            (record {
              at = λ w h. decrease_user_quota-Moved calm info.user_id info.token_id u t q w h fits;
            })
            λ _. Triple-pure _ λ w h. (refl, h)
