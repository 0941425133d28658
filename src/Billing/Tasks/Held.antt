-- ===== src/Billing/Tasks/Held.antt =====
-- What a call that moves quota leaves to the user and to the token, as triples.
use east_api.Prelude.{ℕ, false≢true, ◌≡◌, ap, sym, ◌∙◌, subst, Bool, false, arith, ◌||◌, ◌==◌}
use east_api.Prelude.Int.{ℤ, pos, ◌+ℤ◌, neg, ltb_ℤ, eqb_ℤ}
use east_api.Prelude.Text.{is_empty_text}
use east_api.Prelude.Tables.{find}
use east_api.Store.{World, Result, ok, err, Action, spent, later, statement, gets}
use east_api.Store.Triples.{
  After, Triple, Triple-pure, Triple-if, Triple-gets, Triple-or_raise, Triple-statement,
  Triple-bind, Triple-on_error,
}
use east_api.Store.Calm.{Never}
use east_api.Quota.{
  token_has_id, decrease_user_quota, increase_user_quota, decrease_token_quota,
  increase_token_quota,
}
use east_api.Billing.Session.Balance.{
  Holds, Moved, decrease_user_quota-Moved, increase_user_quota-Moved, decrease_token_quota-Moved,
  increase_token_quota-Moved,
}
use east_api.Billing.Session.Settle.{neg_fits}
use east_api.Billing.Tasks.{
  Task, task_is_subscription, task_adjust_funding, resolve_token_key, adjust_token,
  task_adjust_token_quota,
}

module _ (calm : Bool) (uid tid : ℕ) where
  -- The user has the effective quota `u`, and the token some.
  abbrev pub Has : ℤ → World → Type 0
  Has u w = (k : ℤ) × Holds calm uid tid u k w

  Has-spent : (u : ℤ) (w : World) → Has u w → Has u (spent w)
  Has-spent u w (k, h) = (
    k,
    record {
      user_there = h.user_there;
      token_there = h.token_there;
      user_is = h.user_is;
      token_is = h.token_is;
      no_faults = λ c. ap later (h.no_faults c);
    },
  )

  pub Has-to : (u u' : ℤ) (w : World) → u ≡ u' → Has u w → Has u' w
  Has-to u u' w e h = subst (λ v. Has v w) e h

  -- A call that moves the user's quota to `u'`, as a triple
  Has-user :
      (m : Action (Unit {0})) (u u' : ℤ)
      → ((k : ℤ) (w : World) → Holds calm uid tid u k w → Moved calm uid tid u k u' k (m w))
      → Triple (Has u) (λ _. Has u') (λ w. Has u w × (calm ≡ false)) m
  Has-user m u u' h = record { at = λ w now. read now.0 (m w) (h now.0 w now.1) }
    where
      read :
          (k : ℤ) (x : Result (Unit {0}) × World)
          → Moved calm uid tid u k u' k x
          → After (λ _. Has u') (λ w. Has u w × (calm ≡ false)) x
      read k (ok r, w) g = (k, g)
      read k (err e, w) g = ((k, g.0), g.1)

  Has-token :
      (m : Action (Unit {0})) (u q : ℤ)
      → ((k : ℤ) (w : World) → Holds calm uid tid u k w → Moved calm uid tid u k u (k +ℤ q) (m w))
      → Triple (Has u) (λ _. Has u) (Has u) m
  Has-token m u q h = record { at = λ w now. read now.0 (m w) (h now.0 w now.1) }
    where
      read :
          (k : ℤ) (x : Result (Unit {0}) × World)
          → Moved calm uid tid u k u (k +ℤ q) x
          → After (λ _. Has u) (Has u) x
      read k (ok r, w) g = (k +ℤ q, g)
      read k (err e, w) g = (k, g.0)

  module _ (t : Task) (u : ℤ) (mine : t.user_id ≡ uid) (its : t.token_id ≡ tid) where
    pub task_adjust_funding-Triple :
        (delta : ℤ)
        → task_is_subscription t ≡ false
        → Triple
            (Has u)
            (λ _. Has (u +ℤ neg delta))
            (λ w. Has u w × (calm ≡ false))
            (task_adjust_funding t delta)
    unfolding task_adjust_funding
    task_adjust_funding-Triple delta wallet =
        Triple-if (task_is_subscription t) _ _ (λ e. absurd (false≢true (sym wallet ∙ e)))
          λ _.
            Triple-if (ltb_ℤ (pos 0) delta) _ _
              (λ up.
                Has-user (decrease_user_quota t.user_id delta false) u (u +ℤ neg delta) λ k w h.
                  subst
                    (λ i.
                      Moved calm uid tid u k (u +ℤ neg delta) k
                        (decrease_user_quota i delta false w))
                    (sym mine)
                    (decrease_user_quota-Moved calm uid tid u k delta w h (ground arith)))
              (λ down.
                Has-user (increase_user_quota t.user_id (neg delta) false) u (u +ℤ neg delta)
                  λ k w h.
                    subst
                      (λ i.
                        Moved calm uid tid u k (u +ℤ neg delta) k
                          (increase_user_quota i (neg delta) false w))
                      (sym mine)
                      (increase_user_quota-Moved calm uid tid u k (neg delta) w h
                        (neg_fits delta down)))

    adjust_token-Triple :
        (delta : ℤ) → Triple (Has u) (λ _. Has u) (Has u) (adjust_token t.token_id delta)
    unfolding adjust_token
    adjust_token-Triple delta =
        Triple-if (ltb_ℤ (pos 0) delta) _ _
          (λ up. Has-token (decrease_token_quota t.token_id delta) u (neg delta) λ k w h.
            subst (λ i. Moved calm uid tid u k u (k +ℤ neg delta) (decrease_token_quota i delta w))
              (sym its) (decrease_token_quota-Moved calm uid tid u k delta w h (ground arith)))
          (λ down. Has-token (increase_token_quota t.token_id (neg delta)) u (neg delta) λ k w h.
            subst
              (λ i.
                Moved calm uid tid u k u (k +ℤ neg delta) (increase_token_quota i (neg delta) w))
              (sym its)
              (increase_token_quota-Moved calm uid tid u k (neg delta) w h (neg_fits delta down)))

    resolve_token_key-Triple : Triple (Has u) (λ _. Has u) Never (resolve_token_key t.token_id)
    unfolding resolve_token_key
    resolve_token_key-Triple =
        Triple-on_error {B = Has u} statement _ _ (Triple-statement (λ w h. h) (Has-spent u))
          (λ _. Triple-pure _ λ w h. h)
          λ _.
            Triple-on_error {B = Has u} _ _ _
              (Triple-bind (gets (λ w. find (token_has_id t.token_id) w.db.tokens)) _
                (Triple-gets (λ w h. h) _) λ found. Triple-or_raise (λ w h. h) found _)
              (λ _. Triple-pure _ λ w h. h) λ row. Triple-pure _ λ w h. h

    pub task_adjust_token_quota-Triple :
        (delta : ℤ) → Triple (Has u) (λ _. Has u) Never (task_adjust_token_quota t delta)
    unfolding task_adjust_token_quota
    task_adjust_token_quota-Triple delta =
        Triple-if (t.token_id == 0 || eqb_ℤ delta (pos 0)) _ _ (λ _. Triple-pure _ λ w h. h)
          λ _. Triple-bind (resolve_token_key t.token_id) _ resolve_token_key-Triple λ key.
            Triple-if (is_empty_text key) _ _ (λ _. Triple-pure _ λ w h. h)
              λ _.
                Triple-on_error {B = Has u} (adjust_token t.token_id delta) _ _
                  (adjust_token-Triple delta) (λ _. Triple-pure _ λ w h. h)
                  (λ _. Triple-pure _ λ w h. h)
