-- ===== src/Quota/Effective.antt =====
-- The effective quota of a user or token, what the table holds and what waits in the batch store:
-- the operations move it by their amount, whether batching is on or off.
use east_api.Prelude.{
  ℕ, ◌≡◌, refl, subst, ◌≢◌, Bool, true, false, not, ◌&&◌, none, some, List, [], ◌∷◌, arith, ◌==◌,
  if◌then◌else◌, Bool-cases, if_both, ==_iff, inl, inr,
}
use east_api.Prelude.Int.{ℤ, pos, ◌+ℤ◌, ◌-ℤ◌, neg, ltb_ℤ, int_laws}
use east_api.Prelude.Tables.{find, update_where}
use east_api.Store.{World, Result, ok, err, write, next_fails, ◌>>=◌}
use east_api.Store.Rows.{User, Token}
use east_api.Quota.{
  user_has_id, token_has_id, add_user_quota, add_token_quota, add_new_record, increase_user_quota,
  decrease_user_quota, increase_token_quota, decrease_token_quota,
}

-- What waits for a key; nothing is 0.
abbrev pub waiting : ℕ → List (ℕ × ℤ) → ℤ
waiting id [] = pos 0
waiting id ((k, v) ∷ store) = if k == id then v else waiting id store

pub waiting-add_new_record :
    (id j : ℕ) (value : ℤ) (store : List (ℕ × ℤ))
    → waiting j (add_new_record id value store)
      ≡ (if id == j then waiting j store +ℤ value else waiting j store)
unfolding add_new_record
waiting-add_new_record id j value [] = grind int_laws
waiting-add_new_record id j value ((k, v) ∷ store) =
    ground (arith, waiting-add_new_record id j value store)

-- The quota in the first row of a key, 0 where there is none, as `Find(&quota)` leaves it.
abbrev pub quota_at : ℕ → List User → ℤ
quota_at id us = elim (find (user_has_id id) us) [ none ↦ pos 0 | some u ↦ u.quota ]

abbrev pub remain_at : ℕ → List Token → ℤ
remain_at id ts = elim (find (token_has_id id) ts) [ none ↦ pos 0 | some t ↦ t.remain_quota ]

-- Whether the table has a row for the user, or the token.
abbrev pub has_user : ℕ → List User → Bool
has_user id us = elim (find (user_has_id id) us) [ none ↦ false | some u ↦ true ]

abbrev pub has_token : ℕ → List Token → Bool
has_token id ts = elim (find (token_has_id id) ts) [ none ↦ false | some t ↦ true ]

-- An update by key that keeps the keys keeps who is there.
pub has_user-update :
    (id j : ℕ) (f : User → User)
    → ((u : User) → (f u).id ≡ u.id)
    → (us : List User) → has_user j (update_where (user_has_id id) f us) ≡ has_user j us
has_user-update id j f keep [] = refl
has_user-update id j f keep (u ∷ us) = elim (Bool-cases (u.id == id)) [
  | inl hit ↦ rw hit (ground (arith, keep u, has_user-update id j f keep us))
  | inr miss ↦ rw miss (ground (arith, has_user-update id j f keep us))
]

pub has_token-update :
    (id j : ℕ) (f : Token → Token)
    → ((t : Token) → (f t).id ≡ t.id)
    → (ts : List Token) → has_token j (update_where (token_has_id id) f ts) ≡ has_token j ts
has_token-update id j f keep [] = refl
has_token-update id j f keep (t ∷ ts) = elim (Bool-cases (t.id == id)) [
  | inl hit ↦ rw hit (ground (arith, keep t, has_token-update id j f keep ts))
  | inr miss ↦ rw miss (ground (arith, has_token-update id j f keep ts))
]

module _ (id : ℕ) (q : ℤ) (f : User → User) (keep : (u : User) → (f u).id ≡ u.id)
    (add : (u : User) → (f u).quota ≡ u.quota +ℤ q) where
  quota_at-update_self :
      (us : List User)
      → find (user_has_id id) us ≢ none
      → quota_at id (update_where (user_has_id id) f us) ≡ quota_at id us +ℤ q
  quota_at-update_self [] h = absurd (h refl)
  quota_at-update_self (u ∷ us) h = elim (Bool-cases (u.id == id)) [
    | inl hit ↦ rw hit (ground (arith, keep u, add u))
    | inr miss ↦ rw miss (ground (arith, quota_at-update_self us))
  ]

  quota_at-update_other :
      (j : ℕ) (us : List User)
      → (id == j) ≡ false
      → quota_at j (update_where (user_has_id id) f us) ≡ quota_at j us
  quota_at-update_other j [] h = refl
  quota_at-update_other j (u ∷ us) h = elim (Bool-cases (u.id == id)) [
    | inl hit ↦ rw hit (ground (arith, keep u, quota_at-update_other j us h))
    | inr miss ↦ rw miss (ground (arith, quota_at-update_other j us h))
  ]

  -- An update by key moves the entry of that key and no other.
  pub quota_at-update :
      (j : ℕ) (us : List User)
      → find (user_has_id id) us ≢ none
      → quota_at j (update_where (user_has_id id) f us)
        ≡ (if id == j then quota_at j us +ℤ q else quota_at j us)
  quota_at-update j us h = elim (Bool-cases (id == j)) [
    | inl same ↦ rw same (
        subst (λ k. quota_at k (update_where (user_has_id id) f us) ≡ quota_at k us +ℤ q)
          ((==_iff id j).0 same) (quota_at-update_self us h))
    | inr apart ↦ rw apart (quota_at-update_other j us apart)
  ]

module _ (id : ℕ) (q : ℤ) (f : Token → Token) (keep : (t : Token) → (f t).id ≡ t.id)
    (add : (t : Token) → (f t).remain_quota ≡ t.remain_quota +ℤ q) where
  remain_at-update_self :
      (ts : List Token)
      → find (token_has_id id) ts ≢ none
      → remain_at id (update_where (token_has_id id) f ts) ≡ remain_at id ts +ℤ q
  remain_at-update_self [] h = absurd (h refl)
  remain_at-update_self (t ∷ ts) h = elim (Bool-cases (t.id == id)) [
    | inl hit ↦ rw hit (ground (arith, keep t, add t))
    | inr miss ↦ rw miss (ground (arith, remain_at-update_self ts))
  ]

  remain_at-update_other :
      (j : ℕ) (ts : List Token)
      → (id == j) ≡ false
      → remain_at j (update_where (token_has_id id) f ts) ≡ remain_at j ts
  remain_at-update_other j [] h = refl
  remain_at-update_other j (t ∷ ts) h = elim (Bool-cases (t.id == id)) [
    | inl hit ↦ rw hit (ground (arith, keep t, remain_at-update_other j ts h))
    | inr miss ↦ rw miss (ground (arith, remain_at-update_other j ts h))
  ]

  -- An update by key moves the entry of that key and no other.
  pub remain_at-update :
      (j : ℕ) (ts : List Token)
      → find (token_has_id id) ts ≢ none
      → remain_at j (update_where (token_has_id id) f ts)
        ≡ (if id == j then remain_at j ts +ℤ q else remain_at j ts)
  remain_at-update j ts h = elim (Bool-cases (id == j)) [
    | inl same ↦ rw same (
        subst (λ k. remain_at k (update_where (token_has_id id) f ts) ≡ remain_at k ts +ℤ q)
          ((==_iff id j).0 same) (remain_at-update_self ts h))
    | inr apart ↦ rw apart (remain_at-update_other j ts apart)
  ]

abbrev pub effective_user : ℕ → World → ℤ
effective_user id w = quota_at id w.db.users +ℤ waiting id w.pending_users

abbrev pub effective_token : ℕ → World → ℤ
effective_token id w = remain_at id w.db.tokens +ℤ waiting id w.pending_tokens

-- What a call that began at `w` has done to the quotas that `eff` reads: on success the quota of
-- `id` has moved by `q` and no other, on an error none has moved.
abbrev pub Moves : (ℕ → World → ℤ) → ℕ → ℤ → World → Result (Unit {0}) × World → Type 0
Moves eff id q w (ok r, w') = (j : ℕ) → eff j w' ≡ (if id == j then eff j w +ℤ q else eff j w)
Moves eff id q w (err e, w') = (j : ℕ) → eff j w' ≡ eff j w

-- Adding to the table's part or to the waiting part adds to the sum.
shift_left :
    (b : Bool) (x y q : ℤ) → (if b then x +ℤ q else x) +ℤ y ≡ (if b then x +ℤ y +ℤ q else x +ℤ y)
shift_left true x y q = omega int_laws
shift_left false x y q = refl

shift_right :
    (b : Bool) (x y q : ℤ) → x +ℤ (if b then y +ℤ q else y) ≡ (if b then x +ℤ y +ℤ q else x +ℤ y)
shift_right true x y q = omega int_laws
shift_right false x y q = refl

sub_eq_add_neg : (a b : ℤ) → a -ℤ b ≡ a +ℤ neg b
sub_eq_add_neg a b = omega int_laws

module _ (id : ℕ) (q : ℤ) where
  write_user-Moves :
      (f : User → User)
      → ((u : User) → (f u).id ≡ u.id)
      → ((u : User) → (f u).quota ≡ u.quota +ℤ q)
      → (w : World) → find (user_has_id id) w.db.users ≢ none
      → Moves effective_user id q w
          (write (λ d. record d { users = update_where (user_has_id id) f d.users }) w)
  unfolding ◌>>=◌
  write_user-Moves f keep add w h =
      if_both (Moves effective_user id q w) (next_fails w.faults) (λ j. refl)
        λ j.
          rw (quota_at-update id q f keep add j w.db.users h)
            (shift_left (id == j) (quota_at j w.db.users) (waiting j w.pending_users) q)

  record_user-Moves :
      (w : World)
      → Moves effective_user id q w
          (ok tt, record w { pending_users = add_new_record id q w.pending_users })
  record_user-Moves w j =
      rw (waiting-add_new_record id j q w.pending_users)
        (shift_right (id == j) (quota_at j w.db.users) (waiting j w.pending_users) q)

module _ (id : ℕ) (q : ℤ) where
  write_token-Moves :
      (f : Token → Token)
      → ((t : Token) → (f t).id ≡ t.id)
      → ((t : Token) → (f t).remain_quota ≡ t.remain_quota +ℤ q)
      → (w : World) → find (token_has_id id) w.db.tokens ≢ none
      → Moves effective_token id q w
          (write (λ d. record d { tokens = update_where (token_has_id id) f d.tokens }) w)
  unfolding ◌>>=◌
  write_token-Moves f keep add w h =
      if_both (Moves effective_token id q w) (next_fails w.faults) (λ j. refl)
        λ j.
          rw (remain_at-update id q f keep add j w.db.tokens h)
            (shift_left (id == j) (remain_at j w.db.tokens) (waiting j w.pending_tokens) q)

  record_token-Moves :
      (w : World)
      → Moves effective_token id q w
          (ok tt, record w { pending_tokens = add_new_record id q w.pending_tokens })
  record_token-Moves w j =
      rw (waiting-add_new_record id j q w.pending_tokens)
        (shift_right (id == j) (remain_at j w.db.tokens) (waiting j w.pending_tokens) q)

-- A wallet charge of `q` lowers the effective quota of the user by `q`, and of no other user,
-- whether it is written at once or waits for the batch updater; a call that fails moves nothing.
pub decrease_user_quota-Moves :
    (id : ℕ) (q : ℤ) (db : Bool) (w : World)
    → find (user_has_id id) w.db.users ≢ none
    → Moves effective_user id (neg q) w (decrease_user_quota id q db w)
unfolding decrease_user_quota
decrease_user_quota-Moves id q db w h =
    if_both (Moves effective_user id _ w) (ltb_ℤ q (pos 0)) (λ j. refl)
      (if_both (Moves effective_user id _ w) (not db && w.batch_update_enabled)
        (record_user-Moves id (neg q) w)
        (write_user-Moves id (neg q) (λ u. record u { quota = u.quota -ℤ q }) (λ u. refl)
          (λ u. sub_eq_add_neg u.quota q) w h))

-- A wallet refund of `q` raises the effective quota of the user by `q`, and of no other user,
-- whether it is written at once or waits for the batch updater; a call that fails moves nothing.
pub increase_user_quota-Moves :
    (id : ℕ) (q : ℤ) (db : Bool) (w : World)
    → find (user_has_id id) w.db.users ≢ none
    → Moves effective_user id q w (increase_user_quota id q db w)
unfolding increase_user_quota
increase_user_quota-Moves id q db w h =
    if_both (Moves effective_user id _ w) (ltb_ℤ q (pos 0)) (λ j. refl)
      (if_both (Moves effective_user id _ w) (not db && w.batch_update_enabled)
        (record_user-Moves id q w)
        (write_user-Moves id q (add_user_quota q) (λ u. refl) (λ u. refl) w h))

-- A token charge of `q` lowers the effective remainder of the token by `q`, and of no other token,
-- batched or not; a call that fails moves nothing.
pub decrease_token_quota-Moves :
    (id : ℕ) (q : ℤ) (w : World)
    → find (token_has_id id) w.db.tokens ≢ none
    → Moves effective_token id (neg q) w (decrease_token_quota id q w)
unfolding decrease_token_quota
decrease_token_quota-Moves id q w h =
    if_both (Moves effective_token id _ w) (ltb_ℤ q (pos 0)) (λ j. refl)
      (if_both (Moves effective_token id _ w) w.batch_update_enabled
        (record_token-Moves id (neg q) w)
        (write_token-Moves id (neg q)
          (λ t. record t { remain_quota = t.remain_quota -ℤ q; used_quota = t.used_quota +ℤ q })
          (λ t. refl) (λ t. sub_eq_add_neg t.remain_quota q) w h))

-- A token refund of `q` raises the effective remainder of the token by `q`, and of no other token,
-- batched or not; a call that fails moves nothing.
pub increase_token_quota-Moves :
    (id : ℕ) (q : ℤ) (w : World)
    → find (token_has_id id) w.db.tokens ≢ none
    → Moves effective_token id q w (increase_token_quota id q w)
unfolding increase_token_quota
increase_token_quota-Moves id q w h =
    if_both (Moves effective_token id _ w) (ltb_ℤ q (pos 0)) (λ j. refl)
      (if_both (Moves effective_token id _ w) w.batch_update_enabled (record_token-Moves id q w)
        (write_token-Moves id q (add_token_quota q) (λ t. refl) (λ t. refl) w h))

-- For a user and a token that exist: a charge of `q` lowers the effective quota of the user, or of
-- the token, by `q`, a refund raises it by `q`, and those of all others stay, whether the change is
-- written at once or waits for the batch updater; a call that fails moves nothing.
pub quota_calls-Moves :
    (user_id token_id : ℕ) (q : ℤ) (db : Bool) (w : World)
    → find (user_has_id user_id) w.db.users ≢ none
    → find (token_has_id token_id) w.db.tokens ≢ none
    → Moves effective_user user_id (neg q) w (decrease_user_quota user_id q db w)
      × Moves effective_user user_id q w (increase_user_quota user_id q db w)
      × Moves effective_token token_id (neg q) w (decrease_token_quota token_id q w)
      × Moves effective_token token_id q w (increase_token_quota token_id q w)
quota_calls-Moves user_id token_id q db w u t = (
  decrease_user_quota-Moves user_id q db w u,
  increase_user_quota-Moves user_id q db w u,
  decrease_token_quota-Moves token_id q w t,
  increase_token_quota-Moves token_id q w t,
)
