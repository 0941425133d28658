-- ===== src/Billing/Session/Reserve.antt =====
-- preConsume on the wallet: the balances after a success, and after a failure and its rollback.
use east_api.Prelude.{
  ◌≡◌, refl, ap, sym, subst, ◌∙◌, ◌⊎◌, inl, inr, Bool, true, false, not, ◌&&◌, if_both, if_cases,
  Bool-cases, arith,
}
use east_api.Prelude.Int.{ℤ, pos, ◌+ℤ◌, neg, ltb_ℤ, int_laws}
use east_api.Store.{World, Result, ok, err}
use east_api.Store.Triples.{After}
use east_api.Quota.{increase_token_quota}
use east_api.Billing.Funding.{Funding, wallet, funding_pre_consume}
use east_api.Billing.Session.{
  RelayInfo, BillingSession, ErrorCode, Checked, fine, failed, new_session, effective_quota,
  take_token, give_back, reserve, pre_consume, should_trust, sync_relay_info, code_of,
}
use east_api.Billing.Session.Balance.{Moved, increase_token_quota-Moved}
use east_api.Billing.Session.Wallet.{
  share, opened, Here, Holds-to, less_zero, zero_of, share-true, share-false, share_zero,
  take_token-Triple, funding_pre_consume-Triple,
}

-- The session that `tryWallet` starts from.
abbrev pub fresh : RelayInfo → BillingSession
fresh info = new_session info (wallet (record { user_id = info.user_id; consumed = pos 0 }))

pub and_not : (a b : Bool) → (a && not b) ≡ true → b ≡ false
and_not a b h = ground arith

and_true : (a : Bool) → (a && true) ≡ a
and_true true = refl
and_true false = refl

pub nothing_shared :
    (info : RelayInfo) (q : ℤ)
    → ltb_ℤ q (pos 0) ≡ false
    → (ltb_ℤ (pos 0) q && not info.is_playground) ≡ false
    → share info q ≡ pos 0
nothing_shared info q fits idle = elim (Bool-cases info.is_playground) [
  | inl play ↦ share-true info q play
  | inr work ↦
      ap (share info) (
        zero_of q fits
          (sym (and_true (ltb_ℤ (pos 0) q)) ∙ ap (λ b. ltb_ℤ (pos 0) q && not b) (sym work) ∙ idle))
      ∙ share_zero info
]

module _ (calm : Bool) (info : RelayInfo) (u t : ℤ) where
  -- What a failed `preConsume` leaves: the user has lost nothing, and the token at most the amount
  -- that could not be given back, which needs a statement that fails.
  pub record Unspent (q : ℤ) (w : World) : Type 0 where
    pub rest : ℤ
    pub now : Here calm info u rest w
    pub lost : (rest ≡ t) ⊎ ((rest ≡ t +ℤ neg (share info q)) × (calm ≡ false))

  -- What `preConsume` leaves for the amount `q`.
  abbrev pub Reserved : ℤ → Checked BillingSession × World → Type 0
  Reserved q (failed e, w) = Unspent q w
  Reserved q (fine s, w) =
      (s ≡ opened info q) × Here calm info (u +ℤ neg q) (t +ℤ neg (share info q)) w

  put_back : (q : ℤ) → t +ℤ neg q +ℤ q ≡ t
  put_back q = omega int_laws

  given_back :
      (q : ℤ) (x : Result (Unit {0}) × World)
      → info.is_playground ≡ false
      → Moved calm info.user_id info.token_id u
          (t +ℤ neg (share info q))
          u
          (t +ℤ neg (share info q) +ℤ q)
          x
      → Unspent q x.1
  given_back q (ok r, w) e h = record {
    rest = t;
    now =
        Holds-to calm info.user_id info.token_id u _ u t w h refl
          (rw (share-false info q e) (put_back q));
    lost = inl refl;
  }
  given_back q (err e', w) e h = record {
    rest = t +ℤ neg (share info q);
    now = h.0;
    lost = inr (refl, h.1);
  }

  give_back-Unspent :
      (q : ℤ) (w : World)
      → ltb_ℤ q (pos 0) ≡ false
      → Here calm info u (t +ℤ neg (share info q)) w
      → Unspent q (give_back info q w)
  unfolding give_back
  give_back-Unspent q w fits h =
      if_cases (Unspent q) (ltb_ℤ (pos 0) q && not info.is_playground)
        (λ both. given_back q (increase_token_quota info.token_id q w) (and_not _ _ both) (
          increase_token_quota-Moved calm info.user_id info.token_id u (t +ℤ neg (share info q)) q w
            h fits))
        λ idle. record {
          rest = t;
          now =
              Holds-to calm info.user_id info.token_id u _ u t w h refl
                (ap (λ z. t +ℤ neg z) (nothing_shared info q fits idle) ∙ sym (less_zero t));
          lost = inl refl;
        }

  reserve-Reserved :
      (q taken : ℤ) (w : World)
      → ltb_ℤ q (pos 0) ≡ false
      → taken ≡ q
      → Here calm info u (t +ℤ neg (share info q)) w
      → Reserved q (reserve q taken (fresh info) w)
  unfolding reserve
  reserve-Reserved q taken w fits e h =
      from_funding
        (funding_pre_consume (wallet (record { user_id = info.user_id; consumed = pos 0 })) q w)
        ((funding_pre_consume-Triple calm info u (t +ℤ neg (share info q)) q fits).at w h)
    where
      from_funding :
          (x : Result Funding × World)
          → After
              (λ f w'.
                (f ≡ wallet (record { user_id = info.user_id; consumed = q }))
                × Here calm info (u +ℤ neg q) (t +ℤ neg (share info q)) w')
              (λ w'. Here calm info u (t +ℤ neg (share info q)) w' × (calm ≡ false))
              x
          → Reserved q (elim x.0 [
            | err e' ↦ (failed (code_of e'), give_back info taken x.1)
            | ok f ↦ (
              fine (record {
                funding = f;
                token_consumed = taken;
                pre_consumed_quota = q;
                relay_info = sync_relay_info f q info;
                funding_settled = false;
                settled = false;
                refunded = false;
              }),
              x.1,
            )
          ])
      from_funding (ok f, w') (same, now) = (rw (same, e) refl, now)
      from_funding (err e', w') (now, loud) =
          subst (λ z. Unspent q (give_back info z w')) (sym e) (give_back-Unspent q w' fits now)

  pub pre_consume-Reserved :
      (quota : ℤ) (w : World)
      → ltb_ℤ quota (pos 0) ≡ false
      → Here calm info u t w
      → Reserved (effective_quota (fresh info) quota) (pre_consume quota (fresh info) w)
  unfolding pre_consume
  pre_consume-Reserved quota w fits h =
      from_token (take_token info q w) ((take_token-Triple calm info u t q q_fits).at w h)
    where
      q : ℤ
      q = effective_quota (fresh info) quota

      q_fits : ltb_ℤ q (pos 0) ≡ false
      q_fits = if_both (λ z. ltb_ℤ z (pos 0) ≡ false) (should_trust (fresh info)) refl fits

      from_token :
          (x : Result ℤ × World)
          → After
              (λ taken w'. (taken ≡ q) × Here calm info u (t +ℤ neg (share info q)) w')
              (λ w'. Here calm info u t w')
              x
          → Reserved q (elim x.0 [
            | err e ↦ (failed ErrorCode.pre_consume_token_quota_failed, x.1)
            | ok taken ↦ reserve q taken (fresh info) x.1
          ])
      from_token (ok taken, w') (same, now) = reserve-Reserved q taken w' q_fits same now
      from_token (err e, w') now = record { rest = t; now = now; lost = inl refl }
