-- ===== src/Quota/Frame.antt =====
-- What a quota operation does to one user and one token, in the form of equations: its own quota by
-- its amount if it succeeds, and the other kind not at all. Without faults it succeeds.
use east_api.Prelude.{
  ℕ, ◌≡◌, refl, ap, ◌∙◌, ◌≢◌, Bool, true, false, not, ◌&&◌, none, [], arith, ◌==◌, if◌then◌else◌,
  if_both, if_true, if_false, ==_iff,
}
use east_api.Prelude.Int.{ℤ, pos, ◌+ℤ◌, ◌-ℤ◌, neg, ltb_ℤ}
use east_api.Prelude.Tables.{find}
use east_api.Store.{World, Result, ok, err, next_fails, later}
use east_api.Quota.{
  user_has_id, token_has_id, increase_user_quota, decrease_user_quota, increase_token_quota,
  decrease_token_quota, add_user_quota, add_token_quota,
}
use east_api.Quota.Effective.{
  has_user, has_token, has_user-update, has_token-update, effective_user, effective_token, Moves,
  decrease_user_quota-Moves, increase_user_quota-Moves, decrease_token_quota-Moves,
  increase_token_quota-Moves,
}

abbrev pub is_ok : {A : Type 0} → Result A → Bool
is_ok (ok a) = true
is_ok (err e) = false

user_there :
    (id : ℕ) (w : World) → has_user id w.db.users ≡ true → find (user_has_id id) w.db.users ≢ none
user_there id w h = λ e. ground arith

token_there :
    (id : ℕ) (w : World)
    → has_token id w.db.tokens ≡ true
    → find (token_has_id id) w.db.tokens ≢ none
token_there id w h = λ e. ground arith

self_test : (id : ℕ) → (id == id) ≡ true
self_test id = (==_iff id id).1 refl

-- The move of one key, read off from `Moves`.
moved :
    (eff : ℕ → World → ℤ) (id : ℕ) (q : ℤ) (w : World) (x : Result (Unit {0}) × World)
    → Moves eff id q w x
    → eff id x.1 ≡ (if is_ok x.0 then eff id w +ℤ q else eff id w)
moved eff id q w (ok r, w') m = m id ∙ if_true (id == id) _ _ (self_test id)
moved eff id q w (err e, w') m = m id

module _ (id : ℕ) (q : ℤ) (w : World) where
  pub decrease_user_quota_moves :
      (db : Bool)
      → has_user id w.db.users ≡ true
      → let x = decrease_user_quota id q db w in
        effective_user id x.1
        ≡ (if is_ok x.0 then effective_user id w +ℤ neg q else effective_user id w)
  decrease_user_quota_moves db h =
      moved effective_user id (neg q) w (decrease_user_quota id q db w)
        (decrease_user_quota-Moves id q db w (user_there id w h))

  pub increase_user_quota_moves :
      (db : Bool)
      → has_user id w.db.users ≡ true
      → let x = increase_user_quota id q db w in
        effective_user id x.1
        ≡ (if is_ok x.0 then effective_user id w +ℤ q else effective_user id w)
  increase_user_quota_moves db h =
      moved effective_user id q w (increase_user_quota id q db w)
        (increase_user_quota-Moves id q db w (user_there id w h))

  pub decrease_token_quota_moves :
      has_token id w.db.tokens ≡ true
      → let x = decrease_token_quota id q w in
        effective_token id x.1
        ≡ (if is_ok x.0 then effective_token id w +ℤ neg q else effective_token id w)
  decrease_token_quota_moves h =
      moved effective_token id (neg q) w (decrease_token_quota id q w)
        (decrease_token_quota-Moves id q w (token_there id w h))

  pub increase_token_quota_moves :
      has_token id w.db.tokens ≡ true
      → let x = increase_token_quota id q w in
        effective_token id x.1
        ≡ (if is_ok x.0 then effective_token id w +ℤ q else effective_token id w)
  increase_token_quota_moves h =
      moved effective_token id q w (increase_token_quota id q w)
        (increase_token_quota-Moves id q w (token_there id w h))

-- What an operation on users leaves alone, and without faults does not spoil.
pub record UserFrame (w : World) (x : Result (Unit {0}) × World) : Type 0 where
  pub other_table : x.1.db.tokens ≡ w.db.tokens
  pub other_pending : x.1.pending_tokens ≡ w.pending_tokens
  pub same_rows : (id : ℕ) → has_user id x.1.db.users ≡ has_user id w.db.users
  pub stays_calm : w.faults ≡ [] → x.1.faults ≡ []

-- What an operation on tokens leaves alone.
pub record TokenFrame (w : World) (x : Result (Unit {0}) × World) : Type 0 where
  pub other_table : x.1.db.users ≡ w.db.users
  pub other_pending : x.1.pending_users ≡ w.pending_users
  pub same_rows : (id : ℕ) → has_token id x.1.db.tokens ≡ has_token id w.db.tokens
  pub stays_calm : w.faults ≡ [] → x.1.faults ≡ []

module _ (id : ℕ) (q : ℤ) (w : World) where
  pub increase_user_quota-UserFrame : UserFrame w (increase_user_quota id q false w)
  unfolding increase_user_quota
  increase_user_quota-UserFrame =
      if_both (UserFrame w) (ltb_ℤ q (pos 0))
        (record {
          other_table = refl;
          other_pending = refl;
          same_rows = λ j. refl;
          stays_calm = λ e. e;
        })
        (if_both (UserFrame w) (not false && w.batch_update_enabled)
          (record {
            other_table = refl;
            other_pending = refl;
            same_rows = λ j. refl;
            stays_calm = λ e. e;
          })
          (if_both (UserFrame w) (next_fails w.faults)
            (record {
              other_table = refl;
              other_pending = refl;
              same_rows = λ j. refl;
              stays_calm = λ e. ap later e;
            })
            (record {
              other_table = refl;
              other_pending = refl;
              same_rows = λ j. has_user-update id j (add_user_quota q) (λ u. refl) w.db.users;
              stays_calm = λ e. ap later e;
            })))

  pub decrease_user_quota-UserFrame : UserFrame w (decrease_user_quota id q false w)
  unfolding decrease_user_quota
  decrease_user_quota-UserFrame =
      if_both (UserFrame w) (ltb_ℤ q (pos 0))
        (record {
          other_table = refl;
          other_pending = refl;
          same_rows = λ j. refl;
          stays_calm = λ e. e;
        })
        (if_both (UserFrame w) (not false && w.batch_update_enabled)
          (record {
            other_table = refl;
            other_pending = refl;
            same_rows = λ j. refl;
            stays_calm = λ e. e;
          })
          (if_both (UserFrame w) (next_fails w.faults)
            (record {
              other_table = refl;
              other_pending = refl;
              same_rows = λ j. refl;
              stays_calm = λ e. ap later e;
            })
            (record {
              other_table = refl;
              other_pending = refl;
              same_rows = λ j.
                  has_user-update id j (λ u. record u { quota = u.quota -ℤ q }) (λ u. refl)
                    w.db.users;
              stays_calm = λ e. ap later e;
            })))

  pub increase_token_quota-TokenFrame : TokenFrame w (increase_token_quota id q w)
  unfolding increase_token_quota
  increase_token_quota-TokenFrame =
      if_both (TokenFrame w) (ltb_ℤ q (pos 0))
        (record {
          other_table = refl;
          other_pending = refl;
          same_rows = λ j. refl;
          stays_calm = λ e. e;
        })
        (if_both (TokenFrame w) w.batch_update_enabled
          (record {
            other_table = refl;
            other_pending = refl;
            same_rows = λ j. refl;
            stays_calm = λ e. e;
          })
          (if_both (TokenFrame w) (next_fails w.faults)
            (record {
              other_table = refl;
              other_pending = refl;
              same_rows = λ j. refl;
              stays_calm = λ e. ap later e;
            })
            (record {
              other_table = refl;
              other_pending = refl;
              same_rows = λ j. has_token-update id j (add_token_quota q) (λ t. refl) w.db.tokens;
              stays_calm = λ e. ap later e;
            })))

  pub decrease_token_quota-TokenFrame : TokenFrame w (decrease_token_quota id q w)
  unfolding decrease_token_quota
  decrease_token_quota-TokenFrame =
      if_both (TokenFrame w) (ltb_ℤ q (pos 0))
        (record {
          other_table = refl;
          other_pending = refl;
          same_rows = λ j. refl;
          stays_calm = λ e. e;
        })
        (if_both (TokenFrame w) w.batch_update_enabled
          (record {
            other_table = refl;
            other_pending = refl;
            same_rows = λ j. refl;
            stays_calm = λ e. e;
          })
          (if_both (TokenFrame w) (next_fails w.faults)
            (record {
              other_table = refl;
              other_pending = refl;
              same_rows = λ j. refl;
              stays_calm = λ e. ap later e;
            })
            (record {
              other_table = refl;
              other_pending = refl;
              same_rows = λ j.
                  has_token-update id j
                    (λ t. record t {
                      remain_quota = t.remain_quota -ℤ q;
                      used_quota = t.used_quota +ℤ q;
                    })
                    (λ t. refl) w.db.tokens;
              stays_calm = λ e. ap later e;
            })))

-- Without faults a call with an amount that is not negative succeeds.
module _ (id : ℕ) (q : ℤ) (w : World) (calm : w.faults ≡ []) (fits : ltb_ℤ q (pos 0) ≡ false) where
  pub increase_user_quota_ok : (increase_user_quota id q false w).0 ≡ ok tt
  unfolding increase_user_quota
  increase_user_quota_ok =
      ap (λ (x : Result (Unit {0}) × World). x.0) (if_false (ltb_ℤ q (pos 0)) _ _ fits)
      ∙ if_both (λ (x : Result (Unit {0}) × World). x.0 ≡ ok tt)
          (not false && w.batch_update_enabled) refl
          (ap (λ (x : Result (Unit {0}) × World). x.0)
            (if_false (next_fails w.faults) _ _ (ap next_fails calm)))

  pub decrease_user_quota_ok : (decrease_user_quota id q false w).0 ≡ ok tt
  unfolding decrease_user_quota
  decrease_user_quota_ok =
      ap (λ (x : Result (Unit {0}) × World). x.0) (if_false (ltb_ℤ q (pos 0)) _ _ fits)
      ∙ if_both (λ (x : Result (Unit {0}) × World). x.0 ≡ ok tt)
          (not false && w.batch_update_enabled) refl
          (ap (λ (x : Result (Unit {0}) × World). x.0)
            (if_false (next_fails w.faults) _ _ (ap next_fails calm)))

  pub increase_token_quota_ok : (increase_token_quota id q w).0 ≡ ok tt
  unfolding increase_token_quota
  increase_token_quota_ok =
      ap (λ (x : Result (Unit {0}) × World). x.0) (if_false (ltb_ℤ q (pos 0)) _ _ fits)
      ∙ if_both (λ (x : Result (Unit {0}) × World). x.0 ≡ ok tt) w.batch_update_enabled refl
          (ap (λ (x : Result (Unit {0}) × World). x.0)
            (if_false (next_fails w.faults) _ _ (ap next_fails calm)))

  pub decrease_token_quota_ok : (decrease_token_quota id q w).0 ≡ ok tt
  unfolding decrease_token_quota
  decrease_token_quota_ok =
      ap (λ (x : Result (Unit {0}) × World). x.0) (if_false (ltb_ℤ q (pos 0)) _ _ fits)
      ∙ if_both (λ (x : Result (Unit {0}) × World). x.0 ≡ ok tt) w.batch_update_enabled refl
          (ap (λ (x : Result (Unit {0}) × World). x.0)
            (if_false (next_fails w.faults) _ _ (ap next_fails calm)))
