-- ===== src/Topup/Paid.antt =====
-- Where the database does not fail, a pending order is completed.
use east_api.Prelude.{
  ◌≡◌, ap, sym, subst, ◌∙◌, String, Bool, true, false, not, some, List, [], str_eq,
}
use east_api.Prelude.Int.{ℤ, leb_ℤ, pos}
use east_api.Prelude.Tables.{find, update_where}
use east_api.Prelude.Text.{is_empty_text}
use east_api.Store.{
  World, Error, Action, Result, ok, err, gets, or_raise, statement, spent, transaction, ◌>>◌,
}
use east_api.Store.Triples.{
  After, Triple, Triple-pure, Triple-get, Triple-bind, Triple-on_error, Triple-if,
}
use east_api.Store.Calm.{
  Calm, Never, spent-Calm, statement-returns, write-returns, guard-returns, or_raise-returns,
  After-returns, transaction-returns,
}
use east_api.Store.Rows.{TopUp, User}
use east_api.Quota.{user_has_id, add_user_quota}
use east_api.Subscription.Orders.{topup_has_trade, is_success, is_pending}
use east_api.Topup.{
  Rates, Way, locked, completed, save_topup, update_user, stripe_pay, fills_email, creem_fields,
  creem_pay, pay_once, waffo_pay, manual_pay, pay_by, complete_topup, recharge, recharge_creem,
  recharge_waffo, manual_complete, for_provider,
}
use east_api.Topup.Credit.{worth, Suits, manual_units, worth-manual, found_order, Settled}
use east_api.Topup.Once.{complete_topup-Settled}

-- The order is one that the call accepts.
abbrev pub Accepts : Rates → Way → TopUp → List User → Type 0
Accepts rates Way.stripe t users = str_eq t.payment_method "stripe" ≡ true
Accepts rates Way.waffo t users =
    (str_eq t.payment_method "waffo" ≡ true) × (leb_ℤ (rates.amount_units t.amount) (pos 0) ≡ false)
Accepts rates Way.manual t users =
    Suits rates Way.manual t × (leb_ℤ (worth rates t) (pos 0) ≡ false)
Accepts rates (Way.creem email) t users =
    (str_eq t.payment_method "creem" ≡ true)
    × ((u : User) × (find (user_has_id t.user_id) users ≡ some u))

module _ (t : TopUp) where
  -- The user that the order names is there.
  abbrev HasUser : World → Type 0
  HasUser w = Calm w × ((u : User) × (find (user_has_id t.user_id) w.db.users ≡ some u))

  save_topup-returns :
      {P : World → Type 0} (trade_no : String)
      → ((w : World) → P w → Calm w)
      → ((w : World) (f : List TopUp → List TopUp)
          → P w
          → P (record (spent w) { db = record w.db { topups = f w.db.topups } }))
      → Triple P (λ _. P) Never (save_topup trade_no)
  unfolding save_topup
  save_topup-returns trade_no calm keep = Triple-bind (gets (λ w. w.now)) _ (Triple-get _) λ now.
      record {
        at = λ w h.
            (write-returns calm
                (λ d. record d {
                  topups = update_where (topup_has_trade trade_no) (completed now) d.topups;
                })
                (λ w h. keep w (update_where (topup_has_trade trade_no) (completed now)) h)).at
              w h.0;
      }

  update_user-returns : (f : User → User) → Triple Calm (λ _. Calm) Never (update_user t.user_id f)
  unfolding update_user
  update_user-returns f = write-returns (λ w h. h) _ spent-Calm

  first_of :
      {A : Type 0} (Q : A → Type 0) (x : Result A × World)
      → After (λ a w. Calm w × Q a) Never x
      → After (λ _. Calm) Never x
  first_of Q (ok a, w) h = h.0
  first_of Q (err e, w) h = h

  fills_email-returns :
      (email : String) → Triple HasUser (λ _. Calm) Never (fills_email email t.user_id)
  unfolding fills_email
  fills_email-returns email =
      Triple-if (is_empty_text email) _ _ (λ _. Triple-pure _ λ w h. h.0)
        (λ _.
          Triple-bind statement _ (statement-returns (λ w h. h.0) (λ w h. (spent-Calm w h.0, h.1)))
            λ _.
              Triple-bind (gets (λ w. find (user_has_id t.user_id) w.db.users)) _ (Triple-get _)
                λ found.
                  Triple-bind {G = λ u. Calm} (or_raise found _) _
                    (record {
                      at = λ w h. first_of _ (or_raise found Error.record_not_found w) (
                          (or_raise-returns {P = Calm} found h.0.1.0 Error.record_not_found
                              (sym h.1 ∙ h.0.1.1)).at
                            w h.0.0);
                    })
                    λ user. Triple-pure _ λ w h. h)

  credit-returns :
      (trade_no : String) (q : ℤ)
      → Triple Calm
          (λ _. Calm)
          Never
          (save_topup trade_no >> update_user t.user_id (add_user_quota q))
  credit-returns trade_no q =
      Triple-bind (save_topup trade_no) _
        (save_topup-returns trade_no (λ w h. h) (λ w f h. spent-Calm w h))
        λ _. update_user-returns (add_user_quota q)

  not_of : (b : Bool) → b ≡ true → not b ≡ false
  not_of b h = ap not h

  pay_once-returns :
      (trade_no : String) (q : ℤ)
      → is_pending t.status ≡ true
      → leb_ℤ q (pos 0) ≡ false
      → Triple Calm (λ _. Calm) Never (pay_once trade_no q t)
  unfolding pay_once
  pay_once-returns trade_no q pending worth =
      Triple-if (is_success t.status) _ _ (λ s. Triple-pure _ λ w h. h)
        (λ _.
          guard-returns (not (is_pending t.status)) _ _ (not_of _ pending)
            (guard-returns (leb_ℤ q (pos 0)) _ _ worth (credit-returns trade_no q)))

  pay_by-returns :
      (rates : Rates) (way : Way) (trade_no : String)
      → is_pending t.status ≡ true
      → Triple
          (λ w. Calm w × Accepts rates way t w.db.users)
          (λ _. Calm)
          Never
          (pay_by rates way trade_no t)
  unfolding stripe_pay creem_pay waffo_pay manual_pay
  pay_by-returns rates Way.stripe trade_no pending = record {
    at = λ w h.
        (guard-returns _ _ _ (not_of _ h.1) (
            guard-returns _ _ _ (not_of _ pending)
              (credit-returns trade_no (rates.money_quota t.money)))).at
          w h.0;
  }
  pay_by-returns rates Way.waffo trade_no pending = record {
    at = λ w h.
        (guard-returns _ _ _ (not_of _ h.1.0)
            (pay_once-returns trade_no (rates.amount_units t.amount) pending h.1.1)).at
          w h.0;
  }
  pay_by-returns rates Way.manual trade_no pending = record {
    at = λ w h.
        (pay_once-returns trade_no (manual_units rates t) pending
            (subst (λ q. leb_ℤ q (pos 0) ≡ false) (worth-manual rates t h.1.0) h.1.1)).at
          w h.0;
  }
  pay_by-returns rates (Way.creem email) trade_no pending = record {
    at = λ w h.
        (guard-returns _ _ _ (not_of _ h.1.0) (
            guard-returns _ _ _ (not_of _ pending) (
              Triple-bind (save_topup trade_no) _
                (save_topup-returns {P = HasUser} trade_no (λ w h. h.0)
                  (λ w f h. (spent-Calm w h.0, h.1)))
                λ _.
                  Triple-bind (fills_email email t.user_id) _ (fills_email-returns email)
                    λ fills. update_user-returns (creem_fields email t.amount fills)))).at
          w (h.0, h.1.1);
  }

module _ (rates : Rates) (way : Way) (trade_no : String) (t : TopUp) where
  abbrev Payable : World → Type 0
  Payable w = Calm w × Accepts rates way t w.db.users × (found_order trade_no w ≡ some t)

  locked-returns :
      is_pending t.status ≡ true
      → Triple Payable (λ _. Calm) Never (locked trade_no (pay_by rates way trade_no))
  unfolding locked
  locked-returns pending =
      Triple-on_error {B = Never} statement _ _
        (statement-returns (λ w h. h.0) (λ w h. (spent-Calm w h.0, h.1, h.2)))
        (λ _. record { at = λ w n. absurd n })
        λ _. Triple-bind (gets (found_order trade_no)) _ (Triple-get _) λ found.
          Triple-bind {G = λ t' w. Payable w × (t ≡ t')} (or_raise found Error.order_not_found) _
            (record {
              at = λ w h.
                  (or_raise-returns found t Error.order_not_found (sym h.1 ∙ h.0.2)).at w h.0;
            })
            λ t'. record {
              at = λ w h.
                  subst (λ x. After (λ _. Calm) Never (pay_by rates way trade_no x w)) h.1
                    ((pay_by-returns t rates way trade_no pending).at w (h.0.0, h.0.1));
            }

  provider-returns :
      (body : Action Unit)
      → is_empty_text trade_no ≡ false
      → Triple Payable (λ _. Calm) Never (transaction body)
      → Triple Payable (λ _. Calm) Never (for_provider trade_no body)
  unfolding for_provider
  provider-returns body named h = guard-returns _ _ _ named (
      Triple-on_error (transaction body) _ _ h (λ _. record { at = λ w n. absurd n })
        λ u. Triple-pure u λ w p. p)

complete_topup-returns :
    (rates : Rates) (way : Way) (trade_no : String) (t : TopUp)
    → is_pending t.status ≡ true
    → is_empty_text trade_no ≡ false
    → Triple (Payable rates way trade_no t) (λ _. Calm) Never (complete_topup rates way trade_no)
unfolding complete_topup recharge recharge_creem recharge_waffo manual_complete
complete_topup-returns rates way trade_no t pending named =
    let done : Triple (Payable rates way trade_no t) (λ _. Calm) Never
        (transaction (locked trade_no (pay_by rates way trade_no))) =
      transaction-returns (locked trade_no (pay_by rates way trade_no))
        (locked-returns rates way trade_no t pending) (λ _ _ h. h) (λ _. spent-Calm) in
    by_way way done
  where
    by_way :
        (way : Way)
        → Triple
            (Payable rates way trade_no t)
            (λ _. Calm)
            Never
            (transaction (locked trade_no (pay_by rates way trade_no)))
        → Triple
            (Payable rates way trade_no t)
            (λ _. Calm)
            Never
            (complete_topup rates way trade_no)
    by_way Way.stripe h = provider-returns rates Way.stripe trade_no t _ named h
    by_way Way.waffo h = provider-returns rates Way.waffo trade_no t _ named h
    by_way Way.manual h = guard-returns _ _ _ named h
    by_way (Way.creem email) h = provider-returns rates (Way.creem email) trade_no t _ named h

-- Where no statement fails, the trade number is not empty, and the pending order is one that the call accepts, the call
-- returns: the order is completed and exactly the user that it names has as much more quota as it is
-- worth by its own payment method. A manual completion is to be of an order that is worth something
-- and is not one of creem, and of an order of stripe the two roundings of its money are to agree.
pub complete_topup-Paid :
    (rates : Rates) (way : Way) (trade_no : String) (w : World) (t : TopUp)
    → w.faults ≡ []
    → is_empty_text trade_no ≡ false
    → found_order trade_no w ≡ some t
    → is_pending t.status ≡ true
    → Accepts rates way t w.db.users
    → After
        (λ _ w'. Settled trade_no t.user_id (worth rates t) w.db.users w')
        Never
        (complete_topup rates way trade_no w)
complete_topup-Paid rates way trade_no w t calm named here pending accepts =
    After-returns _ _ _ (complete_topup rates way trade_no w)
      (complete_topup-Settled rates way trade_no w t here pending (suits way accepts))
      ((complete_topup-returns rates way trade_no t pending named).at w (calm, accepts, here))
  where
    suits : (way : Way) → Accepts rates way t w.db.users → Suits rates way t
    suits Way.stripe h = tt
    suits Way.waffo h = tt
    suits (Way.creem email) h = tt
    suits Way.manual h = h.0
