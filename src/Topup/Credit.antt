-- ===== src/Topup/Credit.antt =====
-- What a completion credits, and to whom.
use mathlib.Core.Option
use text.Mathlib.TextEquality.{eq_iff}
use east_api.Prelude.{
  ℕ, ◌≡◌, refl, ap, sym, subst, ◌∙◌, String, Bool, true, false, not, Option, none, some, false≢true,
  ◌==◌, List, [], ◌∷◌, if◌then◌else◌, arith, str_eq, ◌⊎◌, inl, inr,
}
use east_api.Prelude.Int.{ℤ, ◌+ℤ◌, leb_ℤ, pos}
use east_api.Prelude.Tables.{find, find-update_where, update_where}
use east_api.Prelude.Text.{is_empty_text}
use east_api.Store.{World, Action, gets, or_raise, statement, ◌>>◌}
use east_api.Store.Triples.{
  Triple, Anything, Triple-pure, Triple-gets, Triple-statement, Triple-write, Triple-guard,
  Triple-bind, Triple-if, Triple-or_raise,
}
use east_api.Store.Rows.{TopUp, User, OrderStatus}
use east_api.Quota.{user_has_id, add_user_quota}
use east_api.Subscription.Orders.{topup_has_trade, is_success, is_pending}
use east_api.Topup.{
  Rates, Way, completed, save_topup, update_user, stripe_pay, fills_email, creem_fields, creem_pay,
  pay_once, waffo_pay, manual_pay, pay_by,
}

-- The quota that an order is worth, by the way it was to be paid: an order of creem has its quota as
-- its amount, one of stripe is worth the quota of its money, and any other the units of its amount.
abbrev pub worth : Rates → TopUp → ℤ
worth rates t =
    if str_eq t.payment_method "creem"
    then t.amount
    else if str_eq t.payment_method "stripe"
    then rates.money_quota t.money
    else rates.amount_units t.amount

-- The call does not take the order for one of another kind: a manual completion knows no orders of
-- creem, and for one of stripe it rounds the product of floats as the database does.
abbrev pub Suits : Rates → Way → TopUp → Type 0
Suits rates Way.stripe t = Unit
Suits rates Way.waffo t = Unit
Suits rates (Way.creem email) t = Unit
Suits rates Way.manual t =
    (str_eq t.payment_method "creem" ≡ false)
    × ((str_eq t.payment_method "stripe" ≡ false)
        ⊎ (rates.money_units t.money ≡ rates.money_quota t.money))

abbrev pub manual_units : Rates → TopUp → ℤ
manual_units rates t =
    if str_eq t.payment_method "stripe"
    then rates.money_units t.money
    else rates.amount_units t.amount

method_of : (s m : String) → not (str_eq s m) ≡ false → s ≡ m
method_of s m h = (eq_iff s m).0 (ground arith)

worth-stripe :
    (rates : Rates) (t : TopUp)
    → not (str_eq t.payment_method "stripe") ≡ false
    → worth rates t ≡ rates.money_quota t.money
worth-stripe rates t h = rw (method_of t.payment_method "stripe" h) refl

worth-waffo :
    (rates : Rates) (t : TopUp)
    → not (str_eq t.payment_method "waffo") ≡ false
    → worth rates t ≡ rates.amount_units t.amount
worth-waffo rates t h = rw (method_of t.payment_method "waffo" h) refl

worth-creem :
    (rates : Rates) (t : TopUp)
    → not (str_eq t.payment_method "creem") ≡ false
    → worth rates t ≡ t.amount
worth-creem rates t h = rw (method_of t.payment_method "creem" h) refl

pub worth-manual :
    (rates : Rates) (t : TopUp) → Suits rates Way.manual t → worth rates t ≡ manual_units rates t
worth-manual rates t (other, inl plain) = rw (other, plain) refl
worth-manual rates t (other, inr same) = rw (other, same) refl

-- What a completion credits: the worth of the order, or what a manual completion takes for it
abbrev pub by_call : Rates → Way → TopUp → ℤ
by_call rates Way.stripe t = worth rates t
by_call rates Way.waffo t = worth rates t
by_call rates Way.manual t = manual_units rates t
by_call rates (Way.creem email) t = worth rates t

pub by_call-worth :
    (rates : Rates) (way : Way) (t : TopUp)
    → Suits rates way t
    → by_call rates way t ≡ worth rates t
by_call-worth rates Way.stripe t suits = refl
by_call-worth rates Way.waffo t suits = refl
by_call-worth rates Way.manual t suits = sym (worth-manual rates t suits)
by_call-worth rates (Way.creem email) t suits = refl

abbrev quota_of : User → ℤ
quota_of u = u.quota

-- A user's quota, which goes up by `q` if it is the user `id`.
abbrev raised : ℕ → ℤ → User → ℤ
raised id q u = if u.id == id then u.quota +ℤ q else u.quota

-- Every user's quota is as it was among `before`, save that the user `id` has `q` more.
abbrev pub Credited : ℕ → ℤ → List User → List User → Type 0
Credited id q before after =
    (other : ℕ)
    → Option.map quota_of (find (user_has_id other) after)
      ≡ Option.map (raised id q) (find (user_has_id other) before)

update-Credited :
    (id : ℕ) (q : ℤ) (f : User → User) (users : List User)
    → ((u : User) → (f u).id ≡ u.id)
    → ((u : User) → (f u).quota ≡ u.quota +ℤ q)
    → Credited id q users (update_where (user_has_id id) f users)
update-Credited id q f [] same more other = refl
update-Credited id q f (u ∷ users) same more other =
    ground (arith, same u, more u, update-Credited id q f users same more other)

abbrev pub found_order : String → World → Option TopUp
found_order trade_no w = find (topup_has_trade trade_no) w.db.topups

abbrev pub paid_row : Option TopUp → Bool
paid_row none = false
paid_row (some t) = is_success t.status

-- The order is there as `t`, and the users are `users`.
abbrev pub Ready : String → TopUp → List User → World → Type 0
Ready trade_no t users w = (found_order trade_no w ≡ some t) × (w.db.users ≡ users)

abbrev pub Settled : String → ℕ → ℤ → List User → World → Type 0
Settled trade_no id q users w =
    (paid_row (found_order trade_no w) ≡ true) × Credited id q users w.db.users

pub apart : (s : OrderStatus) → is_pending s ≡ true → is_success s ≡ true → ⊥
apart OrderStatus.pending p s = false≢true s
apart OrderStatus.success p s = false≢true p
apart OrderStatus.failed p s = false≢true p
apart OrderStatus.expired p s = false≢true p

module _ (trade_no : String) (t : TopUp) (users : List User) where
  abbrev Saved : World → Type 0
  Saved w = (paid_row (found_order trade_no w) ≡ true) × (w.db.users ≡ users)

  save_topup-Triple : Triple (Ready trade_no t users) (λ _. Saved) Anything (save_topup trade_no)
  unfolding save_topup
  save_topup-Triple =
      Triple-bind (gets (λ w. w.now)) _ (Triple-gets (λ _ _. tt) (λ w. w.now)) λ now.
        Triple-write _ (λ _ _. tt)
          λ w h. (
            ap paid_row (
                find-update_where (topup_has_trade trade_no) (completed now) (λ t'. refl)
                  w.db.topups
                ∙ ap (Option.map (completed now)) h.0),
            h.1,
          )

  update_user-Triple :
      (q : ℤ) (f : User → User)
      → ((u : User) → (f u).id ≡ u.id)
      → ((u : User) → (f u).quota ≡ u.quota +ℤ q)
      → Triple Saved (λ _. Settled trade_no t.user_id q users) Anything (update_user t.user_id f)
  unfolding update_user
  update_user-Triple q f same more =
      Triple-write _ (λ _ _. tt)
        λ w h. (
          h.0,
          subst (λ us. Credited t.user_id q users (update_where (user_has_id t.user_id) f us))
              (sym h.1) (update-Credited t.user_id q f users same more),
        )

  credit-Triple :
      (q : ℤ)
      → Triple
          (Ready trade_no t users)
          (λ _. Settled trade_no t.user_id q users)
          Anything
          (save_topup trade_no >> update_user t.user_id (add_user_quota q))
  credit-Triple q =
      Triple-bind (save_topup trade_no) _ save_topup-Triple
        λ _. update_user-Triple q (add_user_quota q) (λ u. refl) (λ u. refl)

  fills_email-Triple :
      (email : String) → Triple Saved (λ _. Saved) Anything (fills_email email t.user_id)
  unfolding fills_email
  fills_email-Triple email =
      Triple-if (is_empty_text email) _ _ (λ _. Triple-pure _ λ w h. h)
        (λ _. Triple-bind statement _ (Triple-statement (λ _ _. tt) (λ w h. h)) λ _.
          Triple-bind (gets _) _ (Triple-gets (λ _ _. tt) _) λ found.
            Triple-bind (or_raise found _) _ (Triple-or_raise (λ _ _. tt) found _)
              λ user. Triple-pure _ λ w h. h)

  pay_once-Triple :
      (q : ℤ)
      → is_pending t.status ≡ true
      → Triple
          (Ready trade_no t users)
          (λ _. Settled trade_no t.user_id q users)
          Anything
          (pay_once trade_no q t)
  unfolding pay_once
  pay_once-Triple q pending =
      Triple-if (is_success t.status) _ _ (λ s. absurd (apart t.status pending s))
        (λ _.
          Triple-guard (not (is_pending t.status)) _ _ (λ _ _. tt)
            λ _. Triple-guard (leb_ℤ q (pos 0)) _ _ (λ _ _. tt) λ _. credit-Triple q)

  abbrev Pays : ℤ → Action Unit → Type 0
  Pays q = Triple (Ready trade_no t users) (λ _. Settled trade_no t.user_id q users) Anything

  valued : {q q' : ℤ} (m : Action Unit) → q' ≡ q → Pays q m → Pays q' m
  valued m e = subst (λ q. Pays q m) (sym e)

  -- Every way to complete a pending order
  pub pay_by-Triple :
      (rates : Rates) (way : Way)
      → is_pending t.status ≡ true
      → Pays (by_call rates way t) (pay_by rates way trade_no t)
  unfolding stripe_pay creem_pay waffo_pay manual_pay
  pay_by-Triple rates Way.stripe pending =
      Triple-guard (not (str_eq t.payment_method "stripe")) _ _ (λ _ _. tt)
        λ own. valued _ (worth-stripe rates t own) (
          Triple-guard (not (is_pending t.status)) _ _ (λ _ _. tt)
            λ _. credit-Triple (rates.money_quota t.money))
  pay_by-Triple rates Way.waffo pending =
      Triple-guard (not (str_eq t.payment_method "waffo")) _ _ (λ _ _. tt)
        λ own.
          valued _ (worth-waffo rates t own) (pay_once-Triple (rates.amount_units t.amount) pending)
  pay_by-Triple rates Way.manual pending = pay_once-Triple (manual_units rates t) pending
  pay_by-Triple rates (Way.creem email) pending =
      Triple-guard (not (str_eq t.payment_method "creem")) _ _ (λ _ _. tt)
        λ own. valued _ (worth-creem rates t own) (
          Triple-guard (not (is_pending t.status)) _ _ (λ _ _. tt)
            λ _. Triple-bind (save_topup trade_no) _ save_topup-Triple λ _.
              Triple-bind (fills_email email t.user_id) _ (fills_email-Triple email) λ fills.
                update_user-Triple t.amount (creem_fields email t.amount fills) (λ u. refl)
                  (λ u. refl))
