-- ===== src/Subscription/Orders/Completed.antt =====
-- An order is completed once: what a call of CompleteSubscriptionOrder leaves, and what later calls
-- for the same order do.
use mathlib.Core.Option
use east_api.Prelude.{
  ℕ, ◌≡◌, refl, ap, sym, subst, ◌∙◌, String, Bool, true, false, not, Option, none, some,
  if◌then◌else◌, false≢true, List, str_eq,
}
use east_api.Prelude.Tables.{find, find-update_where}
use east_api.Prelude.Text.{is_empty_text}
use east_api.Store.{
  World, Db, Error, Result, ok, err, Action, pure, raise, gets, or_raise, raise_if, statement,
  on_error, transaction, ◌>>=◌, ◌>>◌,
}
use east_api.Store.Ensures.{Ensures, Post, Any}
use east_api.Store.Triples.{
  After, Triple, Anything, Triple-pure, Triple-raise, Triple-if, Triple-gets, Triple-get,
  Triple-or_some, Triple-statement, Triple-write, Triple-guard, Triple-bind, Triple-Anything,
  Triple-on_error, transaction-After,
}
use east_api.Store.Rows.{SubscriptionOrder, OrderStatus}
use east_api.Subscription.Orders.{
  order_has_trade, is_success, is_pending, closed, create_from_plan, upsert_topup, save_order,
  fulfil, complete_body, complete_order, expire_body, expire_order,
}
use east_api.Subscription.Consume.{get_plan}
use east_api.Subscription.Orders.Untouched.{
  Same, get_plan-Same, create_from_plan-Same, upsert_topup-Same,
}

from-Ensures :
    {A : Type 0} (P : Db → Type 0) (m : Action A)
    → Ensures P Any m
    → Triple (λ w. P w.db) (λ _ w. P w.db) Anything m
from-Ensures {A = A} P m h = record { at = λ w p. go (m w) (h.at w p) }
  where
    go : (x : Result A × World) → Post P Any x → After (λ _ w. P w.db) Anything x
    go (ok a, w) q = q.0
    go (err e, w) q = tt

abbrev pub paid_row : Option SubscriptionOrder → Bool
paid_row none = false
paid_row (some o) = is_success o.status

-- Whether the order is there and paid.
abbrev pub paid : String → World → Bool
paid trade_no w = paid_row (find (order_has_trade trade_no) w.db.orders)

-- The order is the one that is found.
abbrev Found : String → SubscriptionOrder → List SubscriptionOrder → Type 0
Found trade_no o os = find (order_has_trade trade_no) os ≡ some o

save_order-Triple :
    (trade_no : String) (o : SubscriptionOrder) (f : SubscriptionOrder → SubscriptionOrder)
    → ((r : SubscriptionOrder) → (f r).trade_no ≡ r.trade_no)
    → ((r : SubscriptionOrder) → is_success (f r).status ≡ true)
    → Triple
        (λ w. Found trade_no o w.db.orders)
        (λ _ w. paid trade_no w ≡ true)
        Anything
        (save_order trade_no f)
unfolding save_order
save_order-Triple trade_no o f keep good =
    Triple-write _ (λ _ _. tt)
      λ w h.
        ap paid_row (
          find-update_where (order_has_trade trade_no) f (λ r. ap (λ t. str_eq t trade_no) (keep r))
            w.db.orders
          ∙ ap (Option.map f) h)
        ∙ good o

fulfil-Triple :
    (trade_no payload : String) (o : SubscriptionOrder)
    → Triple
        (λ w. Found trade_no o w.db.orders)
        (λ _ w. paid trade_no w ≡ true)
        Anything
        (fulfil trade_no payload o)
unfolding fulfil Same
fulfil-Triple trade_no payload o =
    Triple-bind (get_plan o.plan_id) _
      (from-Ensures _ _ (get_plan-Same (Found trade_no o) o.plan_id))
      λ plan.
        Triple-bind (create_from_plan o.user_id plan) _
          (from-Ensures _ _ (create_from_plan-Same (Found trade_no o) o.user_id plan))
          λ _.
            Triple-bind (upsert_topup o) _
              (from-Ensures _ _ (upsert_topup-Same (Found trade_no o) o))
              λ _.
                Triple-bind {A = ℕ} (gets (λ w. w.now)) _ (Triple-gets (λ _ _. tt) (λ w. w.now))
                  λ now.
                    save_order-Triple trade_no o
                      (λ r. record (closed OrderStatus.success now r) {
                        provider_payload =
                            if is_empty_text payload then r.provider_payload else payload;
                      })
                      (λ r. refl) (λ r. refl)

after :
    {A : Type 0} {P P' B : World → Type 0} {G : A → World → Type 0} {m : Action A}
    → ((w : World) → P' w → P w)
    → Triple P G B m
    → Triple P' G B m
after weaker h = record { at = λ w p. h.at w (weaker w p) }

complete_body-Triple :
    (trade_no payload : String)
    → Triple Anything (λ _ w. paid trade_no w ≡ true) Anything (complete_body trade_no payload)
unfolding complete_body
complete_body-Triple trade_no payload =
    Triple-on_error statement _ _ (Triple-Anything statement) (λ _. Triple-raise _ λ _ _. tt)
      λ _.
        Triple-bind (gets (λ w. find (order_has_trade trade_no) w.db.orders)) _ (Triple-get _)
          λ found.
            Triple-bind (or_raise found Error.order_not_found) _
              (Triple-or_some found _ (λ _ _. tt))
              λ o.
                Triple-if (is_success o.status) _ _
                  (λ done. Triple-pure tt λ w h. ap paid_row (h.0.1 ∙ h.1) ∙ done)
                  λ _.
                    Triple-guard (not (is_pending o.status)) Error.order_status _ (λ _ _. tt)
                      λ _. after (λ w h. h.0.1 ∙ h.1) (fulfil-Triple trade_no payload o)

-- Later calls, where the order is paid and the tables are `d`.
module _ (trade_no : String) (d : Db) where
  Rest : World → Type 0
  Rest w = (paid trade_no w ≡ true) × (w.db ≡ d)

  was_paid :
      (w : World) (found : Option SubscriptionOrder) (o : SubscriptionOrder)
      → paid trade_no w ≡ true
      → find (order_has_trade trade_no) w.db.orders ≡ found
      → found ≡ some o
      → is_success o.status ≡ true
  was_paid w found o h e e' = ap paid_row (sym (e ∙ e')) ∙ h

  not_pending : (s : OrderStatus) → is_success s ≡ true → is_pending s ≡ false
  not_pending OrderStatus.success h = refl
  not_pending OrderStatus.pending h = absurd (false≢true h)
  not_pending OrderStatus.failed h = refl
  not_pending OrderStatus.expired h = refl

  look_up :
      (k : SubscriptionOrder → Action (Unit {0}))
      → ((o : SubscriptionOrder)
          → is_success o.status ≡ true
          → Triple (λ w. w.db ≡ d) (λ _ w. w.db ≡ d) (λ w. w.db ≡ d) (k o))
      → Triple Rest
          (λ _ w. w.db ≡ d)
          (λ w. w.db ≡ d)
          (on_error statement
            (λ _. raise Error.order_not_found)
            λ _. do
              o ←
                  or_raise
                    (← gets (λ w. find (order_has_trade trade_no) w.db.orders))
                    Error.order_not_found
              k o)
  unfolding Rest
  look_up k hk =
      Triple-on_error statement _ _ (Triple-statement (λ w h. h.1) (λ w h. h))
        (λ _. Triple-raise _ λ w h. h)
        λ _.
          Triple-bind (gets (λ w. find (order_has_trade trade_no) w.db.orders)) _ (Triple-get _)
            λ found.
              Triple-bind (or_raise found Error.order_not_found) _
                (Triple-or_some found _ (λ w h. h.0.1))
                λ o. record {
                  at = λ w h. (hk o (was_paid w found o h.0.0.0 h.0.1 h.1)).at w h.0.0.1;
                }

  idle : {A : Type 0} (a : A) → Triple (λ w. w.db ≡ d) (λ _ w. w.db ≡ d) (λ w. w.db ≡ d) (pure a)
  idle a = Triple-pure a λ w h. h

  complete_body_again :
      (payload : String)
      → Triple Rest (λ _ w. w.db ≡ d) (λ w. w.db ≡ d) (complete_body trade_no payload)
  unfolding complete_body
  complete_body_again payload = look_up _ λ o done.
      Triple-if (is_success o.status) _ _ (λ _. idle tt)
        λ open'. absurd (false≢true (sym open' ∙ done))

  expire_body_again : Triple Rest (λ _ w. w.db ≡ d) (λ w. w.db ≡ d) (expire_body trade_no)
  unfolding expire_body
  expire_body_again = look_up _ λ o done.
      Triple-bind {A = ℕ} (gets (λ w. w.now)) _ (Triple-gets (λ w h. h) (λ w. w.now)) λ now.
        Triple-if (is_pending o.status) _ _
          (λ wait. absurd (false≢true (sym (not_pending o.status done) ∙ wait))) λ _. idle tt

same_tables :
    {A : Type 0} (d : Db) (x : Result A × World)
    → After (λ _ w. w.db ≡ d) (λ w. w.db ≡ d) x
    → x.1.db ≡ d
same_tables d (ok a, w) h = h
same_tables d (err e, w) h = h

unclaimed :
    {A : Type 0} {P B : World → Type 0} {G : A → World → Type 0} {m : Action A}
    → Triple P G B m
    → Triple P G Anything m
unclaimed {A} {P} {B} {G} {m} h = record { at = λ w p. go (m w) (h.at w p) }
  where
    go : (x : Result A × World) → After G B x → After G Anything x
    go (ok a, w) q = q
    go (err e, w) q = tt

again :
    (trade_no : String) (m : Action (Unit {0})) (w : World)
    → ((d : Db) → Triple (Rest trade_no d) (λ _ w'. w'.db ≡ d) (λ w'. w'.db ≡ d) m)
    → paid trade_no w ≡ true
    → ((raise_if (is_empty_text trade_no) Error.order_missing >> transaction m) w).1.db ≡ w.db
unfolding Rest
again trade_no m w h p =
    same_tables w.db ((raise_if (is_empty_text trade_no) Error.order_missing >> transaction m) w) (
      (Triple-guard {P = λ w'. w' ≡ w} (is_empty_text trade_no) Error.order_missing (transaction m)
          (λ w' e. ap (λ (v : World). v.db) e)
          λ _. record {
            at = λ w' e.
                subst (λ v. After (λ _ w''. w''.db ≡ w.db) (λ w''. w''.db ≡ w.db) (transaction m v))
                  (sym e) (transaction-After m (unclaimed (h w.db)) (λ a v q. q) w (p, refl));
          }).at
        w refl)

-- What holds after a completion: any other one, whatever its payload, and any expiry of the same
-- order changes no table.
abbrev pub Closed : String → String → World → Type 0
Closed trade_no payload w =
    ((complete_order trade_no payload w).1.db ≡ w.db) × ((expire_order trade_no w).1.db ≡ w.db)

-- When CompleteSubscriptionOrder returns without an error, every later completion of the same order,
-- whatever its payload, and every later expiry of it changes no table: the subscription is created
-- once and the group is raised once. When it fails, at whatever statement, it has changed no table.
pub complete_order-once :
    (trade_no payload payload' : String) (w : World)
    → After
        (λ _ w'. Closed trade_no payload' w')
        (λ w'. w'.db ≡ w.db)
        (complete_order trade_no payload w)
unfolding complete_order expire_order
complete_order-once trade_no payload payload' w =
    (Triple-guard {P = λ w'. w' ≡ w} (is_empty_text trade_no) Error.order_missing
        (transaction (complete_body trade_no payload)) (λ w' e. ap (λ (v : World). v.db) e)
        λ _. record {
          at = λ w' e.
              subst
                (λ v.
                  After (λ _ w''. Closed trade_no payload' w'') (λ w''. w''.db ≡ w.db)
                    (transaction (complete_body trade_no payload) v))
                (sym e)
                (closes (transaction (complete_body trade_no payload) w) (
                  transaction-After (complete_body trade_no payload)
                    (complete_body-Triple trade_no payload) (λ a v q. q) w tt));
        }).at
      w refl
  where
    closes :
        (x : Result (Unit {0}) × World)
        → After (λ _ w'. paid trade_no w' ≡ true) (λ w'. w'.db ≡ w.db) x
        → After (λ _ w'. Closed trade_no payload' w') (λ w'. w'.db ≡ w.db) x
    closes (ok r, w') p = (
      again trade_no (complete_body trade_no payload') w'
          (λ d. complete_body_again trade_no d payload') p,
      again trade_no (expire_body trade_no) w' (λ d. expire_body_again trade_no d) p,
    )
    closes (err e, w') p = p
