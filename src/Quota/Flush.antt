-- ===== src/Quota/Flush.antt =====
-- The batch updater: what each write adds to the tables, and what is lost where a statement fails.
use east_api.Prelude.{
  ℕ, ◌≡◌, refl, sym, subst, ap, ◌∙◌, ◌≢◌, Bool, true, false, none, List, [], ◌∷◌, arith, ◌==◌,
  if◌then◌else◌, Bool-cases, if_true, if_false, if_both, ==_iff, inl, inr,
}
use east_api.Prelude.Int.{ℤ, pos, ◌+ℤ◌, +ℤ_zero}
use east_api.Prelude.Tables.{find, update_where}
use east_api.Store.{World, Result, ok, spent, next_fails, later}
use east_api.Store.Rows.{User, Token}
use east_api.Quota.{
  user_has_id, token_has_id, add_user_quota, add_token_quota, increase_user_quota_db,
  increase_token_quota_db, flush_users, flush_tokens, batch_update,
}
use east_api.Quota.Effective.{
  has_user, has_user-update, has_token, has_token-update, waiting, quota_at, quota_at-update,
  remain_at, remain_at-update, effective_user, effective_token,
}

abbrev absent : ℕ → List (ℕ × ℤ) → Bool
absent id [] = true
absent id ((k, v) ∷ store) = if k == id then false else absent id store

-- No key waits twice, as in a Go map, and every key is in the table.
abbrev IsStoreOf : (ℕ → Bool) → List (ℕ × ℤ) → Type 0
IsStoreOf has [] = Unit
IsStoreOf has ((k, v) ∷ store) = (has k ≡ true) × (absent k store ≡ true) × IsStoreOf has store

abbrev pub IsStore : List User → List (ℕ × ℤ) → Type 0
IsStore us = IsStoreOf (λ id. has_user id us)

abbrev pub IsTokenStore : List Token → List (ℕ × ℤ) → Type 0
IsTokenStore ts = IsStoreOf (λ id. has_token id ts)

IsStoreOf-same :
    (has has' : ℕ → Bool)
    → ((id : ℕ) → has' id ≡ has id)
    → (store : List (ℕ × ℤ)) → IsStoreOf has store
    → IsStoreOf has' store
IsStoreOf-same has has' same [] h = tt
IsStoreOf-same has has' same ((k, v) ∷ store) h =
    (same k ∙ h.0, h.1, IsStoreOf-same has has' same store h.2)

-- The deltas whose write does not fail, by the schedule of the statements' outcomes
abbrev pub landed : List Bool → List (ℕ × ℤ) → List (ℕ × ℤ)
landed faults [] = []
landed faults ((k, v) ∷ store) =
    if next_fails faults then landed (later faults) store else (k, v) ∷ landed (later faults) store

-- The outcomes that are left once every delta of the store had its statement
abbrev pub unspent : List Bool → List (ℕ × ℤ) → List Bool
unspent faults [] = faults
unspent faults (d ∷ store) = unspent (later faults) store

landed_calm : (store : List (ℕ × ℤ)) → landed [] store ≡ store
landed_calm [] = refl
landed_calm ((k, v) ∷ store) = ap (λ s. (k, v) ∷ s) (landed_calm store)

unspent_calm : (store : List (ℕ × ℤ)) → unspent [] store ≡ []
unspent_calm [] = refl
unspent_calm (d ∷ store) = unspent_calm store

absent-landed :
    (id : ℕ) (faults : List Bool) (store : List (ℕ × ℤ))
    → absent id store ≡ true
    → absent id (landed faults store) ≡ true
absent-landed id faults [] h = refl
absent-landed id faults ((k, v) ∷ store) h = ground (arith, absent-landed id (later faults) store)

waiting-absent : (id : ℕ) (store : List (ℕ × ℤ)) → absent id store ≡ true → waiting id store ≡ pos 0
waiting-absent id [] h = refl
waiting-absent id ((k, v) ∷ store) h = ground (arith, waiting-absent id store)

-- What is left of a head and a tail of the store at one key.
waiting_split :
    (k j : ℕ) (v x : ℤ) (store : List (ℕ × ℤ))
    → absent k store ≡ true
    → (if k == j then x +ℤ v else x) +ℤ waiting j store
      ≡ x +ℤ (if k == j then v else waiting j store)
waiting_split k j v x store h = elim (Bool-cases (k == j)) [
  | inl same ↦
      rw (same, waiting-absent j store (subst (λ i. absent i store ≡ true) ((==_iff k j).0 same) h))
        (+ℤ_zero (x +ℤ v))
  | inr apart ↦ rw apart
]

-- The next worlds of a write that does not fail
wrote : ℕ → ℤ → World → World
wrote id q w = record (spent w) {
  db = record w.db { users = update_where (user_has_id id) (add_user_quota q) w.db.users };
}

wrote_token : ℕ → ℤ → World → World
wrote_token id q w = record (spent w) {
  db = record w.db { tokens = update_where (token_has_id id) (add_token_quota q) w.db.tokens };
}

present : (k : ℕ) (us : List User) → has_user k us ≡ true → find (user_has_id k) us ≢ none
present k us h = λ e. ground arith

present_token : (k : ℕ) (ts : List Token) → has_token k ts ≡ true → find (token_has_id k) ts ≢ none
present_token k ts h = λ e. ground arith

flush_users-quota_at :
    (store : List (ℕ × ℤ)) (w : World) (j : ℕ)
    → IsStore w.db.users store
    → quota_at j (flush_users store w).db.users
      ≡ quota_at j w.db.users +ℤ waiting j (landed w.faults store)
unfolding flush_users wrote increase_user_quota_db
flush_users-quota_at [] w j h = sym (+ℤ_zero _)
flush_users-quota_at ((k, v) ∷ store) w j h = elim (Bool-cases (next_fails w.faults)) [
  | inl fails ↦
      ap (λ (r : Result (Unit {0}) × World). quota_at j (flush_users store r.1).db.users)
        (if_true (next_fails w.faults) _ _ fails)
      ∙ flush_users-quota_at store (spent w) j h.2
      ∙ rw fails refl
  | inr writes ↦
      ap (λ (r : Result (Unit {0}) × World). quota_at j (flush_users store r.1).db.users)
        (if_false (next_fails w.faults) _ (ok tt, wrote k v w) writes)
      ∙ flush_users-quota_at store (wrote k v w) j (
          IsStoreOf-same _ _ (λ i. has_user-update k i (add_user_quota v) (λ u. refl) w.db.users)
            store h.2)
      ∙ rw
          (
            writes,
            quota_at-update k v (add_user_quota v) (λ u. refl) (λ u. refl) j w.db.users
                (present k w.db.users h.0),
          )
          (waiting_split k j v (quota_at j w.db.users) (landed (later w.faults) store)
            (absent-landed k (later w.faults) store h.1))
]

flush_tokens-remain_at :
    (store : List (ℕ × ℤ)) (w : World) (j : ℕ)
    → IsTokenStore w.db.tokens store
    → remain_at j (flush_tokens store w).db.tokens
      ≡ remain_at j w.db.tokens +ℤ waiting j (landed w.faults store)
unfolding flush_tokens wrote_token increase_token_quota_db
flush_tokens-remain_at [] w j h = sym (+ℤ_zero _)
flush_tokens-remain_at ((k, v) ∷ store) w j h = elim (Bool-cases (next_fails w.faults)) [
  | inl fails ↦
      ap (λ (r : Result (Unit {0}) × World). remain_at j (flush_tokens store r.1).db.tokens)
        (if_true (next_fails w.faults) _ _ fails)
      ∙ flush_tokens-remain_at store (spent w) j h.2
      ∙ rw fails refl
  | inr writes ↦
      ap (λ (r : Result (Unit {0}) × World). remain_at j (flush_tokens store r.1).db.tokens)
        (if_false (next_fails w.faults) _ (ok tt, wrote_token k v w) writes)
      ∙ flush_tokens-remain_at store (wrote_token k v w) j (
          IsStoreOf-same _ _ (λ i. has_token-update k i (add_token_quota v) (λ t. refl) w.db.tokens)
            store h.2)
      ∙ rw
          (
            writes,
            remain_at-update k v (add_token_quota v) (λ t. refl) (λ t. refl) j w.db.tokens
                (present_token k w.db.tokens h.0),
          )
          (waiting_split k j v (remain_at j w.db.tokens) (landed (later w.faults) store)
            (absent-landed k (later w.faults) store h.1))
]

-- What the writes of the users leave as it is
abbrev KeepsTokens : World → List Bool → World → Type 0
KeepsTokens w faults after =
    (after.pending_users ≡ w.pending_users)
    × (after.pending_tokens ≡ w.pending_tokens)
    × (after.db.tokens ≡ w.db.tokens)
    × (after.faults ≡ faults)

abbrev KeepsUsers : World → World → Type 0
KeepsUsers w after =
    (after.pending_users ≡ w.pending_users)
    × (after.pending_tokens ≡ w.pending_tokens)
    × (after.db.users ≡ w.db.users)

flush_users_keeps :
    (store : List (ℕ × ℤ)) (w : World)
    → KeepsTokens w (unspent w.faults store) (flush_users store w)
unfolding flush_users increase_user_quota_db wrote
flush_users_keeps [] w = (refl, refl, refl, refl)
flush_users_keeps ((k, v) ∷ store) w =
    if_both
      (λ (r : Result (Unit {0}) × World).
        KeepsTokens w (unspent (later w.faults) store) (flush_users store r.1))
      (next_fails w.faults) (flush_users_keeps store (spent w))
      (flush_users_keeps store (wrote k v w))

flush_tokens_keeps : (store : List (ℕ × ℤ)) (w : World) → KeepsUsers w (flush_tokens store w)
unfolding flush_tokens increase_token_quota_db wrote_token
flush_tokens_keeps [] w = (refl, refl, refl)
flush_tokens_keeps ((k, v) ∷ store) w =
    if_both (λ (r : Result (Unit {0}) × World). KeepsUsers w (flush_tokens store r.1))
      (next_fails w.faults) (flush_tokens_keeps store (spent w))
      (flush_tokens_keeps store (wrote_token k v w))

-- The batch updater, whatever statements fail: a user or a token whose delta is written gains it,
-- one whose write fails gains nothing, and nothing waits any more in either case, so that the delta
-- of a failed write is lost. The keys that wait differ and are in the tables.
pub batch_update_loses :
    (w : World)
    → IsStore w.db.users w.pending_users
    → IsTokenStore w.db.tokens w.pending_tokens
    → ((j : ℕ)
        → quota_at j (batch_update w).db.users
          ≡ quota_at j w.db.users +ℤ waiting j (landed w.faults w.pending_users))
      × ((j : ℕ)
          → remain_at j (batch_update w).db.tokens
            ≡ remain_at j w.db.tokens
              +ℤ waiting j (landed (unspent w.faults w.pending_users) w.pending_tokens))
      × ((batch_update w).pending_users ≡ [])
      × ((batch_update w).pending_tokens ≡ [])
unfolding batch_update
batch_update_loses w h g =
    let w0 = record w { pending_users = [] } in
    let w1 = flush_users w.pending_users w0 in
    let users = flush_users_keeps w.pending_users w0 in
    let w2 = record w1 { pending_tokens = [] } in
    let tokens = flush_tokens_keeps w1.pending_tokens w2 in
    let store : IsTokenStore w1.db.tokens w1.pending_tokens =
      subst (λ s. IsTokenStore w1.db.tokens s) (sym users.1)
        (subst (λ ts. IsTokenStore ts w.pending_tokens) (sym users.2) g) in
    (
      (λ j. ap (quota_at j) tokens.2 ∙ flush_users-quota_at w.pending_users w0 j h),
      (λ j.
          flush_tokens-remain_at w1.pending_tokens w2 j store
          ∙ ap (λ ts. remain_at j ts +ℤ waiting j (landed w1.faults w1.pending_tokens)) users.2
          ∙ ap (λ fs. remain_at j w.db.tokens +ℤ waiting j (landed fs w1.pending_tokens)) users.3
          ∙ ap
              (λ s.
                remain_at j w.db.tokens +ℤ waiting j (landed (unspent w.faults w.pending_users) s))
              users.1),
      tokens.0 ∙ users.0,
      tokens.1,
    )

-- The batch updater, when no statement fails, leaves the effective quota of every user and of every
-- token as it was, and nothing waits any more: all of it is in the tables. The keys that wait differ
-- and are in the tables.
pub batch_update-effective :
    (w : World)
    → w.faults ≡ []
    → IsStore w.db.users w.pending_users
    → IsTokenStore w.db.tokens w.pending_tokens
    → ((j : ℕ) → quota_at j (batch_update w).db.users ≡ effective_user j w)
      × ((j : ℕ) → remain_at j (batch_update w).db.tokens ≡ effective_token j w)
      × ((batch_update w).pending_users ≡ [])
      × ((batch_update w).pending_tokens ≡ [])
batch_update-effective w e h g =
    let all = batch_update_loses w h g in
    (
      (λ j.
          all.0 j
          ∙ ap (λ fs. quota_at j w.db.users +ℤ waiting j (landed fs w.pending_users)) e
          ∙ ap (λ s. quota_at j w.db.users +ℤ waiting j s) (landed_calm w.pending_users)),
      (λ j.
          all.1 j
          ∙ ap
              (λ fs.
                remain_at j w.db.tokens
                +ℤ waiting j (landed (unspent fs w.pending_users) w.pending_tokens))
              e
          ∙ ap (λ fs. remain_at j w.db.tokens +ℤ waiting j (landed fs w.pending_tokens))
              (unspent_calm w.pending_users)
          ∙ ap (λ s. remain_at j w.db.tokens +ℤ waiting j s) (landed_calm w.pending_tokens)),
      all.2,
      all.3,
    )
