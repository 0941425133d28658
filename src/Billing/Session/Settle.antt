-- ===== src/Billing/Session/Settle.antt =====
-- Settle on the wallet: the balances on every path.
use east_api.Prelude.{
  ℕ, ◌≡◌, refl, ap, sym, ◌∙◌, ◌⊎◌, inl, inr, Bool, true, false, if_cases, Bool-cases, arith,
}
use east_api.Prelude.Int.{ℤ, pos, negsuc, ◌+ℤ◌, ◌-ℤ◌, neg, ltb_ℤ, eqb_ℤ, int_laws}
use east_api.Store.{World, Result, ok, err}
use east_api.Quota.{increase_token_quota, decrease_token_quota}
use east_api.Billing.Funding.{wallet, funding_settle}
use east_api.Billing.Session.{
  RelayInfo, Outcome, settle, settle_delta, finish_settle, settle_token, note_delta,
}
use east_api.Billing.Session.Balance.{
  Moved, decrease_user_quota-Moved, increase_user_quota-Moved, decrease_token_quota-Moved,
  increase_token_quota-Moved,
}
use east_api.Billing.Session.Wallet.{
  share, opened, Here, Holds-to, less_zero, share-true, share-false,
}

pub zero_when : (q : ℤ) → eqb_ℤ q (pos 0) ≡ true → q ≡ pos 0
zero_when (pos n) h = ground arith
zero_when (negsuc n) h = ground arith

pub neg_fits : (q : ℤ) → ltb_ℤ (pos 0) q ≡ false → ltb_ℤ (neg q) (pos 0) ≡ false
unfolding ◌-ℤ◌
neg_fits (pos n) h = ground arith
neg_fits (negsuc n) h = ground arith

share-neg :
    (info : RelayInfo) (b q : ℤ) → info.is_playground ≡ false → b +ℤ neg q ≡ b +ℤ neg (share info q)
share-neg info b q work = ap (λ z. b +ℤ neg z) (sym (share-false info q work))

whole : (a b : ℤ) → a -ℤ b +ℤ b ≡ a
whole a b = omega int_laws

from_zero : (b : ℤ) → pos 0 +ℤ b ≡ b
from_zero b = omega int_laws

zero_diff : (a b : ℤ) → a -ℤ b ≡ pos 0 → a ≡ b
zero_diff a b h = sym (whole a b) ∙ ap (λ z. z +ℤ b) h ∙ from_zero b

pub same_when : (a b : ℤ) → eqb_ℤ (a -ℤ b) (pos 0) ≡ true → a ≡ b
same_when a b h = zero_diff a b (zero_when (a -ℤ b) h)

pub put_back : (t q : ℤ) → t +ℤ neg q +ℤ q ≡ t
put_back t q = omega int_laws

-- Another account of the same outcome.
Moved-to :
    (calm : Bool) (uid tid : ℕ) (u t u1 t1 u2 t2 : ℤ) (x : Result (Unit {0}) × World)
    → Moved calm uid tid u t u1 t1 x
    → u1 ≡ u2
    → t1 ≡ t2
    → Moved calm uid tid u t u2 t2 x
Moved-to calm uid tid u t u1 t1 u2 t2 (ok r, w) h eu et =
    Holds-to calm uid tid u1 t1 u2 t2 w h eu et
Moved-to calm uid tid u t u1 t1 u2 t2 (err e, w) h eu et = h

module _ (delta : ℤ) (w : World) (calm : Bool) (info : RelayInfo) (a b : ℤ)
    (h : Here calm info a b w) where
  funding_settle-Moved :
      (q : ℤ)
      → Moved calm info.user_id info.token_id a b
          (a +ℤ neg delta)
          b
          (funding_settle (wallet (record { user_id = info.user_id; consumed = q })) delta w)
  unfolding funding_settle
  funding_settle-Moved q =
      if_cases P (eqb_ℤ delta (pos 0))
        (λ none_at_all.
          Holds-to calm info.user_id info.token_id a b _ b w h
            (less_zero a ∙ ap (λ z. a +ℤ neg z) (sym (zero_when delta none_at_all))) refl)
        λ some_delta.
          if_cases P (ltb_ℤ (pos 0) delta)
            (λ up.
              decrease_user_quota-Moved calm info.user_id info.token_id a b delta w h
                (ground arith))
            λ down.
              increase_user_quota-Moved calm info.user_id info.token_id a b (neg delta) w h
                (neg_fits delta down)
    where
      P : (World → Result (Unit {0}) × World) → Type 0
      P m = Moved calm info.user_id info.token_id a b (a +ℤ neg delta) b (m w)

  pub settle_token-Moved :
      Moved calm info.user_id info.token_id a b a
        (b +ℤ neg (share info delta))
        (settle_token info delta w)
  unfolding settle_token
  settle_token-Moved =
      if_cases P info.is_playground
        (λ play.
          Holds-to calm info.user_id info.token_id a b a _ w h refl
            (less_zero b ∙ ap (λ z. b +ℤ neg z) (sym (share-true info delta play))))
        λ work.
          if_cases P (ltb_ℤ (pos 0) delta)
            (λ up.
              Moved-to calm info.user_id info.token_id a b a _ a _
                (decrease_token_quota info.token_id delta w)
                (decrease_token_quota-Moved calm info.user_id info.token_id a b delta w h
                  (ground arith))
                refl (share-neg info b delta work))
            λ down.
              Moved-to calm info.user_id info.token_id a b a _ a _
                (increase_token_quota info.token_id (neg delta) w)
                (increase_token_quota-Moved calm info.user_id info.token_id a b (neg delta) w h
                  (neg_fits delta down))
                refl (share-neg info b delta work)
    where
      P : (World → Result (Unit {0}) × World) → Type 0
      P m = Moved calm info.user_id info.token_id a b a (b +ℤ neg (share info delta)) (m w)

pub split_cost : (t q actual : ℤ) → t +ℤ neg q +ℤ neg (actual -ℤ q) ≡ t +ℤ neg actual
split_cost t q actual = omega int_laws

-- What the token bears of a reservation and of the rest.
pub share_split :
    (info : RelayInfo) (t q actual : ℤ)
    → t +ℤ neg (share info q) +ℤ neg (share info (actual -ℤ q)) ≡ t +ℤ neg (share info actual)
share_split info t q actual = elim (Bool-cases info.is_playground) [
  | inl play ↦
      rw (share-true info q play, share-true info (actual -ℤ q) play, share-true info actual play)
        (sym (less_zero _))
  | inr work ↦
      rw
        (share-false info q work, share-false info (actual -ℤ q) work, share-false info actual work)
        (split_cost t q actual)
]

module _ (calm : Bool) (info : RelayInfo) (u t q actual : ℤ) where
  -- What `Settle(actual)` leaves of a session that has reserved `q`: the whole cost is paid; or the
  -- source failed, and all is as before; or the source has paid and the token's update failed, when
  -- the session is settled all the same.
  abbrev pub Settled : Outcome → Type 0
  Settled (ok r, s, w) =
      (s.settled ≡ true) × Here calm info (u +ℤ neg actual) (t +ℤ neg (share info actual)) w
  Settled (err e, s, w) =
      (calm ≡ false)
      × (((s ≡ opened info q) × Here calm info (u +ℤ neg q) (t +ℤ neg (share info q)) w)
          ⊎ ((s.settled ≡ true) × Here calm info (u +ℤ neg actual) (t +ℤ neg (share info q)) w))

  finish_settle-Settled :
      (w : World)
      → Here calm info (u +ℤ neg actual) (t +ℤ neg (share info q)) w
      → Settled (finish_settle (actual -ℤ q) (opened info q) w)
  unfolding finish_settle
  finish_settle-Settled w h =
      from_token (settle_token info (actual -ℤ q) w)
        (settle_token-Moved (actual -ℤ q) w calm info (u +ℤ neg actual) (t +ℤ neg (share info q)) h)
    where
      from_token :
          (x : Result (Unit {0}) × World)
          → Moved calm info.user_id info.token_id
              (u +ℤ neg actual)
              (t +ℤ neg (share info q))
              (u +ℤ neg actual)
              (t +ℤ neg (share info q) +ℤ neg (share info (actual -ℤ q)))
              x
          → Settled (
            x.0,
            record (opened info q) {
              funding_settled = true;
              settled = true;
              relay_info =
                  note_delta (opened info q).funding (actual -ℤ q) (opened info q).relay_info;
            },
            x.1,
          )
      from_token (ok r, w') now = (
        refl,
        Holds-to calm info.user_id info.token_id _ _ _ _ w' now refl (share_split info t q actual),
      )
      from_token (err e, w') (now, loud) = (loud, inr (refl, now))

  pub settle-Settled :
      (w : World)
      → Here calm info (u +ℤ neg q) (t +ℤ neg (share info q)) w
      → Settled (settle actual (opened info q) w)
  unfolding settle settle_delta
  settle-Settled w h =
      if_cases Settled (eqb_ℤ (actual -ℤ q) (pos 0))
        (λ even.
          let same : actual ≡ q = same_when actual q even in
          (
            refl,
            Holds-to calm info.user_id info.token_id _ _ _ _ w h (ap (λ z. u +ℤ neg z) (sym same))
                (ap (λ z. t +ℤ neg (share info z)) (sym same)),
          ))
        λ _. from_source (funding_settle (opened info q).funding (actual -ℤ q) w) (
          funding_settle-Moved (actual -ℤ q) w calm info (u +ℤ neg q) (t +ℤ neg (share info q)) h q)
    where
      from_source :
          (x : Result (Unit {0}) × World)
          → Moved calm info.user_id info.token_id
              (u +ℤ neg q)
              (t +ℤ neg (share info q))
              (u +ℤ neg q +ℤ neg (actual -ℤ q))
              (t +ℤ neg (share info q))
              x
          → Settled (elim x.0 [
            | err e ↦ (err e, opened info q, x.1)
            | ok _ ↦ finish_settle (actual -ℤ q) (opened info q) x.1
          ])
      from_source (ok r, w') now =
          finish_settle-Settled w'
            (Holds-to calm info.user_id info.token_id _ _ _ _ w' now (split_cost u q actual) refl)
      from_source (err e, w') (now, loud) = (loud, inl (refl, now))
