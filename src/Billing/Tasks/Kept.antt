-- ===== src/Billing/Tasks/Kept.antt =====
-- The balance of the user through the settlements of a task that is paid from the wallet.
use east_api.Prelude.{ℕ, false≢true, ◌≡◌, refl, ap, sym, ◌∙◌, Bool, true, false, List, [], ◌∷◌}
use east_api.Prelude.Int.{ℤ, pos, ◌+ℤ◌, ◌-ℤ◌, neg, leb_ℤ, eqb_ℤ, int_laws, +ℤ_zero}
use east_api.Store.{World, Result, ok, err, Action, pure, ◌>>=◌}
use east_api.Store.Triples.{After, Triple, Triple-pure, Triple-if, Triple-bind, Triple-on_error}
use east_api.Store.Calm.{Never}
use east_api.Quota.Effective.{effective_user, effective_token, has_user, has_token}
use east_api.Billing.Session.Settle.{zero_when}
use east_api.Billing.Tasks.{
  Task, task_is_subscription, task_adjust_funding, task_adjust_token_quota, refund_task_quota,
  recalculate_task_quota,
}
use east_api.Billing.Tasks.Held.{
  Has, Has-to, task_adjust_funding-Triple, task_adjust_token_quota-Triple,
}

-- One settlement after another
unfoldable pub recalculate_all : List ℤ → Task → Action Task
unfolding recalculate_task_quota
recalculate_all [] t = pure t
recalculate_all (actual ∷ rest) t = recalculate_task_quota actual t >>= recalculate_all rest

moved_quota : (u q a : ℤ) → u +ℤ neg (a -ℤ q) +ℤ a ≡ u +ℤ q
moved_quota u q a = omega int_laws

back : (u q : ℤ) → u +ℤ neg (neg q) ≡ u +ℤ q
back u q = omega int_laws

no_quota : (u q : ℤ) → eqb_ℤ q (pos 0) ≡ true → u ≡ u +ℤ q
no_quota u q h = sym (+ℤ_zero u) ∙ ap (λ z. u +ℤ z) (sym (zero_when q h))

module _ (calm : Bool) (uid tid : ℕ) where
  -- The task is the user's and paid from the wallet, and the two quotas add up to `total`.
  abbrev Kept : ℤ → Task → World → Type 0
  Kept total t w =
      (t.user_id ≡ uid)
      × (t.token_id ≡ tid)
      × (task_is_subscription t ≡ false)
      × ((u : ℤ) × Has calm uid tid u w × (u +ℤ t.quota ≡ total))

  recalculate-Kept :
      (total actual : ℤ) (t : Task)
      → Triple (Kept total t) (Kept total) Never (recalculate_task_quota actual t)
  unfolding recalculate_task_quota
  recalculate-Kept total actual t = record {
    at = λ w h.
        (Triple-if {P = λ w'. Has calm uid tid h.3.0 w'} (leb_ℤ actual (pos 0)) (pure t) _
            (λ _. Triple-pure t λ w' k. (h.0, h.1, h.2, (h.3.0, k, h.3.2)))
            λ _.
              Triple-if (eqb_ℤ (actual -ℤ t.quota) (pos 0)) (pure t) _
                (λ _. Triple-pure t λ w' k. (h.0, h.1, h.2, (h.3.0, k, h.3.2)))
                λ _.
                  Triple-on_error (task_adjust_funding t (actual -ℤ t.quota)) _ _
                    (task_adjust_funding-Triple calm uid tid t h.3.0 h.0 h.1 (actual -ℤ t.quota)
                      h.2)
                    (λ _. Triple-pure t λ w' k. (h.0, h.1, h.2, (h.3.0, k.0, h.3.2)))
                    λ _.
                      Triple-bind (task_adjust_token_quota t (actual -ℤ t.quota)) _
                        (task_adjust_token_quota-Triple calm uid tid t
                          (h.3.0 +ℤ neg (actual -ℤ t.quota)) h.0 h.1 (actual -ℤ t.quota))
                        λ _. Triple-pure _ λ w' k. (
                          h.0,
                          h.1,
                          h.2,
                          (
                            h.3.0 +ℤ neg (actual -ℤ t.quota),
                            k,
                            moved_quota h.3.0 t.quota actual ∙ h.3.2,
                          ),
                        )).at
          w h.3.1;
  }

  recalculate_all-Kept :
      (total : ℤ) (actuals : List ℤ) (t : Task)
      → Triple (Kept total t) (Kept total) Never (recalculate_all actuals t)
  unfolding recalculate_all
  recalculate_all-Kept total [] t = Triple-pure t λ w h. h
  recalculate_all-Kept total (a ∷ rest) t =
      Triple-bind (recalculate_task_quota a t) _ (recalculate-Kept total a t)
        λ t'. recalculate_all-Kept total rest t'

refund-Kept :
    (uid tid : ℕ) (total : ℤ) (t : Task)
    → Triple (Kept true uid tid total t) (λ _. Has true uid tid total) Never (refund_task_quota t)
unfolding refund_task_quota
refund-Kept uid tid total t = record {
  at = λ w h.
      (Triple-if {P = λ w'. Has true uid tid h.3.0 w'} (eqb_ℤ t.quota (pos 0)) (pure tt) _
          (λ e.
            Triple-pure tt
              λ w' k. Has-to true uid tid h.3.0 total w' (no_quota h.3.0 t.quota e ∙ h.3.2) k)
          λ _.
            Triple-on_error (task_adjust_funding t (neg t.quota)) _ _
              (task_adjust_funding-Triple true uid tid t h.3.0 h.0 h.1 (neg t.quota) h.2)
              (λ _. record { at = λ w' k. absurd (false≢true (sym k.1)) })
              λ _. record {
                at = λ w' k.
                    (task_adjust_token_quota-Triple true uid tid t total h.0 h.1 (neg t.quota)).at
                      w' (Has-to true uid tid _ total w' (back h.3.0 t.quota ∙ h.3.2) k);
              }).at
        w h.3.1;
}

module _ (t : Task) (w : World) (user : has_user t.user_id w.db.users ≡ true)
    (token : has_token t.token_id w.db.tokens ≡ true)
    (wallet : task_is_subscription t ≡ false) where
  first-Kept :
      (calm : Bool)
      → (calm ≡ true → w.faults ≡ [])
      → Kept calm t.user_id t.token_id (effective_user t.user_id w +ℤ t.quota) t w
  first-Kept calm quiet = (
    refl,
    refl,
    wallet,
    (
      effective_user t.user_id w,
      (
        effective_token t.token_id w,
        record {
          user_there = user;
          token_there = token;
          user_is = refl;
          token_is = refl;
          no_faults = quiet;
        },
      ),
      refl,
    ),
  )

module _ (actuals : List ℤ) (t : Task) (w : World) (user : has_user t.user_id w.db.users ≡ true)
    (token : has_token t.token_id w.db.tokens ≡ true)
    (wallet : task_is_subscription t ≡ false) where
  -- Whatever statements fail, what a task that is paid from the wallet has taken and what the user has
  -- left add up to the same after every settlement of the task as before it, where the user and the token are in the tables.
  pub recalculate_all-effective_user :
      After
        (λ t' w'. effective_user t.user_id w' +ℤ t'.quota ≡ effective_user t.user_id w +ℤ t.quota)
        Never
        (recalculate_all actuals t w)
  recalculate_all-effective_user = read (recalculate_all actuals t w) (
      (recalculate_all-Kept false t.user_id t.token_id (effective_user t.user_id w +ℤ t.quota)
          actuals t).at
        w (first-Kept t w user token wallet false (λ e. absurd (false≢true e))))
    where
      read :
          (x : Result Task × World)
          → After (Kept false t.user_id t.token_id (effective_user t.user_id w +ℤ t.quota)) Never x
          → After
              (λ t' w'.
                effective_user t.user_id w' +ℤ t'.quota ≡ effective_user t.user_id w +ℤ t.quota)
              Never
              x
      read (ok t', w') h = ap (λ z. z +ℤ t'.quota) h.3.1.1.user_is ∙ h.3.2
      read (err e, w') h = h

-- Where no statement fails, the refund of a task that is paid from the wallet gives the user back the
-- quota of the task as its row has it, where the user and the token are in the tables.
pub refund_task_quota-effective_user :
    (t : Task) (w : World)
    → has_user t.user_id w.db.users ≡ true
    → has_token t.token_id w.db.tokens ≡ true
    → task_is_subscription t ≡ false
    → w.faults ≡ []
    → After
        (λ _ w'. effective_user t.user_id w' ≡ effective_user t.user_id w +ℤ t.quota)
        Never
        (refund_task_quota t w)
refund_task_quota-effective_user t w user token wallet quiet = read (refund_task_quota t w) (
    (refund-Kept t.user_id t.token_id (effective_user t.user_id w +ℤ t.quota) t).at w
      (first-Kept t w user token wallet true (λ _. quiet)))
  where
    read :
        (x : Result (Unit {0}) × World)
        → After (λ _. Has true t.user_id t.token_id (effective_user t.user_id w +ℤ t.quota)) Never x
        → After
            (λ _ w'. effective_user t.user_id w' ≡ effective_user t.user_id w +ℤ t.quota)
            Never
            x
    read (ok u, w') h = h.1.user_is
    read (err e, w') h = h
