-- ===== src/Billing/Session/Balance.antt =====
-- The balances of one user and one token through the quota operations, as rules about what a call
-- leaves when it returns and when it fails.
use east_api.Prelude.{
  ℕ, ◌≡◌, ap, ◌∙◌, Bool, true, false, [], if◌then◌else◌, false≢true, Bool-cases, inl, inr,
}
use east_api.Prelude.Int.{ℤ, pos, ◌+ℤ◌, neg, ltb_ℤ}
use east_api.Store.{World, Result, ok, err}
use east_api.Store.Triples.{After}
use east_api.Quota.{
  increase_user_quota, decrease_user_quota, increase_token_quota, decrease_token_quota,
}
use east_api.Quota.Effective.{has_user, has_token, effective_user, effective_token}
use east_api.Quota.Frame.{
  is_ok, UserFrame, TokenFrame, decrease_user_quota_moves, increase_user_quota_moves,
  decrease_token_quota_moves, increase_token_quota_moves, decrease_user_quota-UserFrame,
  increase_user_quota-UserFrame, decrease_token_quota-TokenFrame, increase_token_quota-TokenFrame,
  decrease_user_quota_ok, increase_user_quota_ok, decrease_token_quota_ok, increase_token_quota_ok,
}

-- The user and the token exist, their effective quotas are `u` and `t`, and where `calm` is true
-- no statement is going to fail.
pub record Holds (calm : Bool) (uid tid : ℕ) (u t : ℤ) (w : World) : Type 0 where
  pub user_there : has_user uid w.db.users ≡ true
  pub token_there : has_token tid w.db.tokens ≡ true
  pub user_is : effective_user uid w ≡ u
  pub token_is : effective_token tid w ≡ t
  pub no_faults : calm ≡ true → w.faults ≡ []

module _ (calm : Bool) (uid tid : ℕ) (u t : ℤ) where
  -- What an operation leaves that moves the balances to `u'` and `t'`: a failure moves neither, and
  -- there is none when it is calm.
  abbrev pub Moved : ℤ → ℤ → Result (Unit {0}) × World → Type 0
  Moved u' t' =
      After (λ _ w. Holds calm uid tid u' t' w) (λ w. Holds calm uid tid u t w × (calm ≡ false))

  user-Moved :
      (du : ℤ) (w : World) (x : Result (Unit {0}) × World)
      → Holds calm uid tid u t w
      → UserFrame w x
      → effective_user uid x.1
        ≡ (if is_ok x.0 then effective_user uid w +ℤ du else effective_user uid w)
      → (w.faults ≡ [] → x.0 ≡ ok tt)
      → Moved (u +ℤ du) t x
  user-Moved du w (ok r, w') h f m good = record {
    user_there = f.same_rows uid ∙ h.user_there;
    token_there = ap (has_token tid) f.other_table ∙ h.token_there;
    user_is = m ∙ ap (λ z. z +ℤ du) h.user_is;
    token_is = rw (f.other_table, f.other_pending) h.token_is;
    no_faults = λ c. f.stays_calm (h.no_faults c);
  }
  user-Moved du w (err e, w') h f m good = (
    record {
      user_there = f.same_rows uid ∙ h.user_there;
      token_there = ap (has_token tid) f.other_table ∙ h.token_there;
      user_is = m ∙ h.user_is;
      token_is = rw (f.other_table, f.other_pending) h.token_is;
      no_faults = λ c. f.stays_calm (h.no_faults c);
    },
    elim (Bool-cases calm) [
      | inl quiet ↦ absurd (false≢true (ap is_ok (good (h.no_faults quiet))))
      | inr loud ↦ loud
    ],
  )

  token-Moved :
      (dt : ℤ) (w : World) (x : Result (Unit {0}) × World)
      → Holds calm uid tid u t w
      → TokenFrame w x
      → effective_token tid x.1
        ≡ (if is_ok x.0 then effective_token tid w +ℤ dt else effective_token tid w)
      → (w.faults ≡ [] → x.0 ≡ ok tt)
      → Moved u (t +ℤ dt) x
  token-Moved dt w (ok r, w') h f m good = record {
    user_there = ap (has_user uid) f.other_table ∙ h.user_there;
    token_there = f.same_rows tid ∙ h.token_there;
    user_is = rw (f.other_table, f.other_pending) h.user_is;
    token_is = m ∙ ap (λ z. z +ℤ dt) h.token_is;
    no_faults = λ c. f.stays_calm (h.no_faults c);
  }
  token-Moved dt w (err e, w') h f m good = (
    record {
      user_there = ap (has_user uid) f.other_table ∙ h.user_there;
      token_there = f.same_rows tid ∙ h.token_there;
      user_is = rw (f.other_table, f.other_pending) h.user_is;
      token_is = m ∙ h.token_is;
      no_faults = λ c. f.stays_calm (h.no_faults c);
    },
    elim (Bool-cases calm) [
      | inl quiet ↦ absurd (false≢true (ap is_ok (good (h.no_faults quiet))))
      | inr loud ↦ loud
    ],
  )

  module _ (q : ℤ) (w : World) (h : Holds calm uid tid u t w) (fits : ltb_ℤ q (pos 0) ≡ false) where
    pub decrease_user_quota-Moved : Moved (u +ℤ neg q) t (decrease_user_quota uid q false w)
    decrease_user_quota-Moved =
        user-Moved (neg q) w (decrease_user_quota uid q false w) h
          (decrease_user_quota-UserFrame uid q w)
          (decrease_user_quota_moves uid q w false h.user_there)
          (λ calm'. decrease_user_quota_ok uid q w calm' fits)

    pub increase_user_quota-Moved : Moved (u +ℤ q) t (increase_user_quota uid q false w)
    increase_user_quota-Moved =
        user-Moved q w (increase_user_quota uid q false w) h (increase_user_quota-UserFrame uid q w)
          (increase_user_quota_moves uid q w false h.user_there)
          (λ calm'. increase_user_quota_ok uid q w calm' fits)

    pub decrease_token_quota-Moved : Moved u (t +ℤ neg q) (decrease_token_quota tid q w)
    decrease_token_quota-Moved =
        token-Moved (neg q) w (decrease_token_quota tid q w) h
          (decrease_token_quota-TokenFrame tid q w)
          (decrease_token_quota_moves tid q w h.token_there)
          (λ calm'. decrease_token_quota_ok tid q w calm' fits)

    pub increase_token_quota-Moved : Moved u (t +ℤ q) (increase_token_quota tid q w)
    increase_token_quota-Moved =
        token-Moved q w (increase_token_quota tid q w) h (increase_token_quota-TokenFrame tid q w)
          (increase_token_quota_moves tid q w h.token_there)
          (λ calm'. increase_token_quota_ok tid q w calm' fits)
