-- ===== src/Topup/Once.antt =====
-- Whichever of the four calls completes an order, it is credited once.
use east_api.Prelude.{
  ◌≡◌, refl, ap, sym, subst, ◌∙◌, String, Bool, true, false, not, Option, none, some, false≢true,
  str_eq, Bool-cases, inl, inr,
}
use east_api.Prelude.Tables.{find}
use east_api.Prelude.Text.{is_empty_text}
use east_api.Store.{
  World, Db, Error, Action, Result, ok, err, gets, or_raise, raise_if, statement, spent,
  transaction, ◌>>◌,
}
use east_api.Store.Triples.{
  After, Triple, Anything, Triple-pure, Triple-raise, Triple-get, Triple-or_some, Triple-statement,
  Triple-guard, Triple-bind, Triple-on_error, Triple-if, transaction-After,
}
use east_api.Store.Rows.{TopUp}
use east_api.Subscription.Orders.{topup_has_trade, is_success, is_pending}
use east_api.Topup.{
  Rates, Way, locked, stripe_pay, creem_pay, pay_once, waffo_pay, manual_pay, pay_by,
  complete_topup, recharge, recharge_creem, recharge_waffo, manual_complete, for_provider,
}
use east_api.Topup.Credit.{
  worth, Suits, by_call, by_call-worth, found_order, paid_row, Ready, Settled, pay_by-Triple, apart,
}

-- What holds of the body with the row that it finds holds of the whole of it.
locked-Triple :
    {P : World → Type 0} {G : Unit {0} → World → Type 0} (trade_no : String)
    (k : TopUp → Action Unit)
    → ((w : World) → P w → P (spent w))
    → ((t : TopUp) → Triple (λ w. P w × (found_order trade_no w ≡ some t)) G Anything (k t))
    → Triple P G Anything (locked trade_no k)
unfolding locked
locked-Triple trade_no k keep hk =
    Triple-on_error statement _ _ (Triple-statement (λ _ _. tt) keep)
      (λ _. Triple-raise _ λ _ _. tt)
      λ _. Triple-bind (gets (found_order trade_no)) _ (Triple-get _) λ found.
        Triple-bind (or_raise found Error.order_not_found) _ (Triple-or_some found _ (λ _ _. tt))
          λ t. record { at = λ w h. (hk t).at w (h.0.0, h.0.1 ∙ h.1) }

open_of : (b : Bool) → not b ≡ false → b ≡ true
open_of true h = refl
open_of false h = absurd (false≢true (sym h))

refused :
    {P : World → Type 0} (trade_no : String) (t : TopUp) (k : Action Unit)
    → is_pending t.status ≡ false
    → Triple P (λ _ _. ⊥) Anything (raise_if (not (is_pending t.status)) Error.order_status >> k)
refused trade_no t k shut =
    Triple-guard (not (is_pending t.status)) _ k (λ _ _. tt)
      λ open'. absurd (false≢true (sym shut ∙ open_of (is_pending t.status) open'))

-- An order that is neither pending nor completed cannot be completed.
pay_refused :
    {P : World → Type 0} (trade_no : String) (t : TopUp) (rates : Rates) (way : Way)
    → is_pending t.status ≡ false
    → is_success t.status ≡ false
    → Triple P (λ _ _. ⊥) Anything (pay_by rates way trade_no t)
unfolding stripe_pay creem_pay waffo_pay manual_pay pay_once
pay_refused trade_no t rates Way.stripe shut unpaid =
    Triple-guard (not (str_eq t.payment_method "stripe")) _ _ (λ _ _. tt)
      λ _. refused trade_no t _ shut
pay_refused trade_no t rates Way.waffo shut unpaid =
    Triple-guard (not (str_eq t.payment_method "waffo")) _ _ (λ _ _. tt)
      λ _.
        Triple-if (is_success t.status) _ _ (λ e. absurd (false≢true (sym unpaid ∙ e)))
          (λ _. refused trade_no t _ shut)
pay_refused trade_no t rates Way.manual shut unpaid =
    Triple-if (is_success t.status) _ _ (λ e. absurd (false≢true (sym unpaid ∙ e)))
      (λ _. refused trade_no t _ shut)
pay_refused trade_no t rates (Way.creem email) shut unpaid =
    Triple-guard (not (str_eq t.payment_method "creem")) _ _ (λ _ _. tt)
      λ _. refused trade_no t _ shut

-- An order that is completed stays as it is, and so does everything else.
pay_again :
    (d : Db) (trade_no : String) (t : TopUp) (rates : Rates) (way : Way)
    → is_success t.status ≡ true
    → Triple (λ w. w.db ≡ d) (λ _ w. w.db ≡ d) Anything (pay_by rates way trade_no t)
unfolding stripe_pay creem_pay waffo_pay manual_pay pay_once
pay_again d trade_no t rates Way.stripe done =
    Triple-guard (not (str_eq t.payment_method "stripe")) _ _ (λ _ _. tt)
      λ _.
        Triple-guard (not (is_pending t.status)) _ _ (λ _ _. tt)
          λ open'. absurd (apart t.status (open_of (is_pending t.status) open') done)
pay_again d trade_no t rates Way.waffo done =
    Triple-guard (not (str_eq t.payment_method "waffo")) _ _ (λ _ _. tt)
      λ _.
        Triple-if (is_success t.status) _ _ (λ _. Triple-pure _ λ w h. h)
          (λ e. absurd (false≢true (sym e ∙ done)))
pay_again d trade_no t rates Way.manual done =
    Triple-if (is_success t.status) _ _ (λ _. Triple-pure _ λ w h. h)
      (λ e. absurd (false≢true (sym e ∙ done)))
pay_again d trade_no t rates (Way.creem email) done =
    Triple-guard (not (str_eq t.payment_method "creem")) _ _ (λ _ _. tt)
      λ _.
        Triple-guard (not (is_pending t.status)) _ _ (λ _ _. tt)
          λ open'. absurd (apart t.status (open_of (is_pending t.status) open') done)

-- A transaction behind the guards of the calls.
manual-After :
    (trade_no : String) (body : Action Unit) (w : World) (G : Unit {0} → World → Type 0)
    → After G (λ w'. w'.db ≡ w.db) (transaction body w)
    → After G
        (λ w'. w'.db ≡ w.db)
        ((raise_if (is_empty_text trade_no) Error.order_missing >> transaction body) w)
manual-After trade_no body w G h =
    (Triple-guard {P = λ w'. w' ≡ w} (is_empty_text trade_no) Error.order_missing _
        (λ w' e. ap (λ (v : World). v.db) e)
        λ _. record {
          at = λ w' e. subst (λ v. After G (λ w''. w''.db ≡ w.db) (transaction body v)) (sym e) h;
        }).at
      w refl

provider-After :
    (trade_no : String) (body : Action Unit) (w : World) (G : Unit {0} → World → Type 0)
    → After G (λ w'. w'.db ≡ w.db) (transaction body w)
    → After G (λ w'. w'.db ≡ w.db) (for_provider trade_no body w)
unfolding for_provider
provider-After trade_no body w G h =
    (Triple-guard {P = λ w'. w' ≡ w} (is_empty_text trade_no) Error.order_missing _
        (λ w' e. ap (λ (v : World). v.db) e)
        λ _.
          Triple-on_error {P = λ w'. w' ≡ w} {G = G} (transaction body) _ _
            (record {
              at = λ w' e.
                  subst (λ v. After G (λ w''. w''.db ≡ w.db) (transaction body v)) (sym e) h;
            })
            (λ _. Triple-raise Error.topup_failed λ w' e. e) λ q. Triple-pure q λ w' g. g).at
      w refl

complete-After :
    (rates : Rates) (way : Way) (trade_no : String) (w : World) (G : Unit {0} → World → Type 0)
    → After G (λ w'. w'.db ≡ w.db) (transaction (locked trade_no (pay_by rates way trade_no)) w)
    → After G (λ w'. w'.db ≡ w.db) (complete_topup rates way trade_no w)
unfolding complete_topup recharge recharge_creem recharge_waffo manual_complete
complete-After rates Way.stripe trade_no w G h = provider-After trade_no _ w G h
complete-After rates Way.waffo trade_no w G h = provider-After trade_no _ w G h
complete-After rates Way.manual trade_no w G h = manual-After trade_no _ w G h
complete-After rates (Way.creem email) trade_no w G h = provider-After trade_no _ w G h

module _ (G H : Unit {0} → World → Type 0) (B : World → Type 0) where
  After-post :
      (x : Result (Unit {0}) × World)
      → ((u : Unit {0}) (w : World) → G u w → H u w)
      → After G B x
      → After H B x
  After-post (ok u, w) f h = f u w h
  After-post (err e, w) f h = h

-- Whether the order is there and paid
abbrev pub is_paid : String → World → Bool
is_paid trade_no w = paid_row (found_order trade_no w)

pay_by-completed :
    (trade_no : String) (t : TopUp) (rates : Rates) (way : Way)
    → Triple
        (λ w. found_order trade_no w ≡ some t)
        (λ _ w. is_paid trade_no w ≡ true)
        Anything
        (pay_by rates way trade_no t)
pay_by-completed trade_no t rates way = elim (Bool-cases (is_pending t.status)) [
  | inl pending ↦ record {
    at = λ w h.
        After-post _ _ Anything (pay_by rates way trade_no t w) (λ u w' g. g.0)
          ((pay_by-Triple trade_no t w.db.users rates way pending).at w (h, refl));
  }
  | inr shut ↦ elim (Bool-cases (is_success t.status)) [
    | inl done ↦ record {
      at = λ w h.
          After-post _ _ Anything (pay_by rates way trade_no t w)
            (λ u w' g.
              ap paid_row (ap (λ d. find (topup_has_trade trade_no) d.topups) g ∙ h) ∙ done)
            ((pay_again w.db trade_no t rates way done).at w refl);
    }
    | inr unpaid ↦ record {
      at = λ w h.
          After-post _ _ Anything (pay_by rates way trade_no t w) (λ u w' g. absurd g)
            ((pay_refused {P = λ w'. found_order trade_no w' ≡ some t} trade_no t rates way shut
                unpaid).at
              w h);
    }
  ]
]

first-Triple :
    (rates : Rates) (way : Way) (trade_no : String)
    → Triple Anything
        (λ _ w. is_paid trade_no w ≡ true)
        Anything
        (locked trade_no (pay_by rates way trade_no))
first-Triple rates way trade_no =
    locked-Triple trade_no (pay_by rates way trade_no) (λ w h. tt)
      λ t. record { at = λ w h. (pay_by-completed trade_no t rates way).at w h.1 }

again-Triple :
    (d : Db) (rates : Rates) (way : Way) (trade_no : String)
    → Triple
        (λ w. (is_paid trade_no w ≡ true) × (w.db ≡ d))
        (λ _ w. w.db ≡ d)
        Anything
        (locked trade_no (pay_by rates way trade_no))
again-Triple d rates way trade_no =
    locked-Triple trade_no (pay_by rates way trade_no) (λ w h. h)
      λ t. record {
        at = λ w h. (pay_again d trade_no t rates way (sym (ap paid_row h.1) ∙ h.0.0)).at w h.0.1;
      }

-- When one of the four calls has completed a top-up, every later call for the same order, of whichever
-- of them, changes no table, whether it returns or fails. A call that fails, at whatever statement, has changed no table: the user does
-- not have the quota and the order is not marked.
pub complete_topup-once :
    (rates : Rates) (first second : Way) (trade_no : String) (w : World)
    → After
        (λ _ w'.
          After
            (λ _ w''. w''.db ≡ w'.db)
            (λ w''. w''.db ≡ w'.db)
            (complete_topup rates second trade_no w'))
        (λ w'. w'.db ≡ w.db)
        (complete_topup rates first trade_no w)
complete_topup-once rates first second trade_no w =
    complete-After rates first trade_no w
      (λ _ w'.
        After (λ _ w''. w''.db ≡ w'.db) (λ w''. w''.db ≡ w'.db)
          (complete_topup rates second trade_no w'))
      (After-post _ _ (λ w'. w'.db ≡ w.db)
        (transaction (locked trade_no (pay_by rates first trade_no)) w)
        (λ u w' done.
          complete-After rates second trade_no w' (λ _ w''. w''.db ≡ w'.db)
            (transaction-After (locked trade_no (pay_by rates second trade_no))
              (again-Triple w'.db rates second trade_no) (λ _ _ h. h) w' (done, refl)))
        (transaction-After (locked trade_no (pay_by rates first trade_no))
          (first-Triple rates first trade_no) (λ _ _ h. h) w tt))

abbrev row_or : TopUp → Option TopUp → TopUp
row_or t none = t
row_or t (some t') = t'

-- When one of the four calls returns for a pending order, the order is completed, and the user that it
-- names has as much more quota as the order is worth by its own payment method, and no other user has
-- another quota. When the call fails it has changed no table. For a manual completion the order is not
-- one of creem, and of an order of stripe the two roundings of its money agree.
pub complete_topup-Settled :
    (rates : Rates) (way : Way) (trade_no : String) (w : World) (t : TopUp)
    → found_order trade_no w ≡ some t
    → is_pending t.status ≡ true
    → Suits rates way t
    → After
        (λ _ w'. Settled trade_no t.user_id (worth rates t) w.db.users w')
        (λ w'. w'.db ≡ w.db)
        (complete_topup rates way trade_no w)
complete_topup-Settled rates way trade_no w t here pending suits =
    complete-After rates way trade_no w _ (
      transaction-After (locked trade_no (pay_by rates way trade_no))
        (locked-Triple {P = Ready trade_no t w.db.users} trade_no (pay_by rates way trade_no)
          (λ w h. h)
          λ t'. record {
            at = λ w' h.
                subst
                  (λ x.
                    After (λ _. Settled trade_no t.user_id (worth rates t) w.db.users) Anything
                      (pay_by rates way trade_no x w'))
                  (ap (row_or t) (sym h.0.0 ∙ h.1))
                  (settled _ ((pay_by-Triple trade_no t w.db.users rates way pending).at w' h.0));
          })
        (λ _ _ h. h) w (here, refl))
  where
    settled :
        (x : Result (Unit {0}) × World)
        → After (λ _. Settled trade_no t.user_id (by_call rates way t) w.db.users) Anything x
        → After (λ _. Settled trade_no t.user_id (worth rates t) w.db.users) Anything x
    settled x =
        subst (λ q. After (λ _. Settled trade_no t.user_id q w.db.users) Anything x)
          (by_call-worth rates way t suits)
