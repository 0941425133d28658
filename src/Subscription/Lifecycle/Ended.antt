-- ===== src/Subscription/Lifecycle/Ended.antt =====
-- What is left of a subscription that an administrator has ended.
use east_api.Prelude.{
  ℕ, ◌≡◌, refl, ap, sym, subst, ◌∙◌, String, Bool, false, not, ◌&&◌, ◌||◌, List, [], ◌∷◌, ◌==◌,
  str_eq, Bool-cases, inl, inr, All,
}
use east_api.Prelude.Tables.{find, update_where}
use east_api.Prelude.Text.{trim_text, is_empty_text}
use east_api.Store.{
  World, Error, Action, Result, ok, err, gets, raise_if, statement, write, transaction, ◌>>=◌, ◌>>◌,
}
use east_api.Store.Triples.{
  After, Triple, Anything, Triple-pure, Triple-gets, Triple-get, Triple-or_raise, Triple-statement,
  Triple-write, Triple-guard, Triple-bind, Triple-on_error, Triple-if, transaction-After,
}
use east_api.Store.Rows.{UserSubscription}
use east_api.Subscription.Reset.{subscription_has_id}
use east_api.Subscription.Orders.{get_user_group, set_group}
use east_api.Subscription.Consume.{is_active}
use east_api.Subscription.Lifecycle.{
  upgrades, exists_row, go_back, downgrade_user_group, find_subscription, cancelled,
  invalidate_body, admin_invalidate, without, delete_body, admin_delete,
}

-- The subscriptions are `ss`.
abbrev Rows : List UserSubscription → World → Type 0
Rows ss w = w.db.subscriptions ≡ ss

exists_row-Rows :
    (ss : List UserSubscription) (test : UserSubscription → Bool)
    → Triple (Rows ss) (λ _. Rows ss) Anything (exists_row test)
unfolding exists_row
exists_row-Rows ss test =
    Triple-on_error {B = Rows ss} statement _ _ (Triple-statement (λ w h. h) (λ w h. h))
      (λ _. Triple-pure _ λ w h. h) λ _. Triple-gets (λ _ _. tt) _

-- The fall back of the group leaves the subscriptions alone.
downgrade-Rows :
    (ss : List UserSubscription) (sub : UserSubscription) (now : ℕ)
    → Triple (Rows ss) (λ _. Rows ss) Anything (downgrade_user_group sub now)
unfolding downgrade_user_group go_back get_user_group set_group
downgrade-Rows ss sub now =
    Triple-if (is_empty_text (trim_text sub.upgrade_group)) _ _ (λ _. Triple-pure _ λ w h. h)
      λ _.
        Triple-bind (get_user_group sub.user_id) _
          (Triple-guard (sub.user_id == 0) _ _ (λ _ _. tt)
            λ _.
              Triple-bind statement _ (Triple-statement (λ _ _. tt) (λ w h. h))
                λ _. Triple-gets (λ _ _. tt) _)
          λ current.
            Triple-if (not (str_eq current (trim_text sub.upgrade_group))) _ _
              (λ _. Triple-pure _ λ w h. h)
              λ _.
                Triple-bind (exists_row (upgrades sub.user_id now sub.id)) _
                  (exists_row-Rows ss (upgrades sub.user_id now sub.id))
                  λ kept.
                    Triple-if kept _ _ (λ _. Triple-pure _ λ w h. h)
                      λ _.
                        Triple-if
                          (is_empty_text (trim_text sub.prev_user_group)
                            || str_eq (trim_text sub.prev_user_group) current)
                          _ _ (λ _. Triple-pure _ λ w h. h)
                          λ _.
                            Triple-bind (write _) _ (Triple-write _ (λ _ _. tt) (λ w h. h))
                              λ _. Triple-pure _ λ w h. h

find_subscription-Rows :
    (ss : List UserSubscription) (id : ℕ)
    → Triple (Rows ss) (λ _. Rows ss) Anything (find_subscription id)
unfolding find_subscription
find_subscription-Rows ss id =
    Triple-bind statement _ (Triple-statement (λ _ _. tt) (λ w h. h)) λ _.
      Triple-bind (gets (λ w. find (subscription_has_id id) w.db.subscriptions)) _
        (Triple-gets (λ _ _. tt) _) λ found. Triple-or_raise (λ _ _. tt) found _

-- No subscription with the id is active any more, and the others are as before.
abbrev pub Gone : ℕ → List UserSubscription → List UserSubscription → Type 0
Gone id before after =
    All (λ s. (subscription_has_id id s && is_active s.status) ≡ false) after
    × (without id after ≡ without id before)

cancelled-Gone :
    (id now : ℕ) (ss : List UserSubscription)
    → Gone id ss (update_where (subscription_has_id id) (cancelled now) ss)
cancelled-Gone id now [] = (tt, refl)
cancelled-Gone id now (s ∷ ss) = elim (Bool-cases (subscription_has_id id s)) [
  | inl hit ↦ let rest = cancelled-Gone id now ss in rw hit ((rw hit refl, rest.0), rw hit rest.1)
  | inr miss ↦
      let rest = cancelled-Gone id now ss in
      rw miss ((rw miss refl, rest.0), rw miss (ap (λ ts. s ∷ ts) rest.1))
]

without-Gone : (id : ℕ) (ss : List UserSubscription) → Gone id ss (without id ss)
without-Gone id [] = (tt, refl)
without-Gone id (s ∷ ss) = elim (Bool-cases (subscription_has_id id s)) [
  | inl hit ↦ rw hit (without-Gone id ss)
  | inr miss ↦
      let rest = without-Gone id ss in
      rw miss ((rw miss refl, rest.0), rw miss (ap (λ ts. s ∷ ts) rest.1))
]

module _ (id now : ℕ) (ss : List UserSubscription) where
  invalidate_body-Rows :
      Triple
        (Rows ss)
        (λ _. Rows (update_where (subscription_has_id id) (cancelled now) ss))
        Anything
        (invalidate_body id now)
  unfolding invalidate_body
  invalidate_body-Rows = Triple-bind (find_subscription id) _ (find_subscription-Rows ss id) λ sub.
      Triple-bind (write _) _
        (Triple-write {Q = Rows (update_where (subscription_has_id id) (cancelled now) ss)} _
          (λ _ _. tt) λ w h. ap (λ ts. update_where (subscription_has_id id) (cancelled now) ts) h)
        λ _.
          downgrade-Rows (update_where (subscription_has_id id) (cancelled now) ss)
            (cancelled now sub) now

  delete_body-Rows : Triple (Rows ss) (λ _. Rows (without id ss)) Anything (delete_body id now)
  unfolding delete_body
  delete_body-Rows = Triple-bind (find_subscription id) _ (find_subscription-Rows ss id) λ sub.
      Triple-bind (downgrade_user_group sub now) _ (downgrade-Rows ss sub now) λ target.
        Triple-bind (write _) _
          (Triple-write {Q = Rows (without id ss)} _ (λ _ _. tt) λ w h. ap (λ ts. without id ts) h)
          λ _. Triple-pure target λ w h. h

-- The guard of the two calls, and their transaction
guarded-After :
    (id : ℕ) (body : ℕ → Action String) (ss : List UserSubscription) (w : World)
    → Triple (Rows w.db.subscriptions) (λ _. Rows ss) Anything (body w.now)
    → Gone id w.db.subscriptions ss
    → After
        (λ _ w'. Gone id w.db.subscriptions w'.db.subscriptions)
        (λ w'. w'.db ≡ w.db)
        ((raise_if (id == 0) Error.invalid_subscription
            >> (gets (λ w. w.now) >>= λ now. transaction (body now)))
          w)
guarded-After id body ss w h gone =
    (Triple-guard {P = λ w'. w' ≡ w} {G = λ _ w'. Gone id w.db.subscriptions w'.db.subscriptions}
        (id == 0) Error.invalid_subscription _ (λ w' e. ap (λ (v : World). v.db) e)
        λ _. Triple-bind (gets (λ w. w.now)) _ (Triple-get _) λ now. record {
          at = λ w' e.
              subst
                (λ v.
                  After (λ _ w'. Gone id w.db.subscriptions w'.db.subscriptions)
                    (λ w'. w'.db ≡ w.db) (transaction (body now) v))
                (sym e.0)
                (subst
                  (λ t.
                    After (λ _ w'. Gone id w.db.subscriptions w'.db.subscriptions)
                      (λ w'. w'.db ≡ w.db) (transaction (body t) w))
                  (sym (sym e.1 ∙ ap (λ (v : World). v.now) e.0))
                  (read (transaction (body w.now) w)
                    (transaction-After (body w.now) h (λ _ _ k. k) w refl)));
        }).at
      w refl
  where
    read :
        (x : Result String × World)
        → After (λ _. Rows ss) (λ w'. w'.db ≡ w.db) x
        → After (λ _ w'. Gone id w.db.subscriptions w'.db.subscriptions) (λ w'. w'.db ≡ w.db) x
    read (ok t, w') k = subst (λ ts. Gone id w.db.subscriptions ts) (sym k) gone
    read (err e, w') k = k

-- When an administrator has invalidated or deleted a subscription, none with its id is active any
-- more, and every other subscription is as it was. When the call fails, at whatever statement, it has changed no table, so that no group has
-- fallen back either.
pub admin_invalidate-Gone :
    (id : ℕ) (w : World)
    → After
        (λ _ w'. Gone id w.db.subscriptions w'.db.subscriptions)
        (λ w'. w'.db ≡ w.db)
        (admin_invalidate id w)
      × After
          (λ _ w'. Gone id w.db.subscriptions w'.db.subscriptions)
          (λ w'. w'.db ≡ w.db)
          (admin_delete id w)
unfolding admin_invalidate admin_delete
admin_invalidate-Gone id w = (
  guarded-After id (invalidate_body id) _ w (invalidate_body-Rows id w.now w.db.subscriptions)
      (cancelled-Gone id w.now w.db.subscriptions),
  guarded-After id (delete_body id) _ w (delete_body-Rows id w.now w.db.subscriptions)
      (without-Gone id w.db.subscriptions),
)
