-- ===== src/Quota.antt =====
-- The quota of users and tokens: IncreaseUserQuota, DecreaseUserQuota and DeltaUpdateUserQuota of
-- model/user.go, IncreaseTokenQuota and DecreaseTokenQuota of model/token.go, and the batch updater
-- of model/utils.go for these two kinds. The asynchronous updates of the Redis cache are left out.
pub mod Effective
pub mod Flush
pub mod Frame
use mathlib.Core.Path.{◌≡◌}
use east_api.Prelude.{ℕ, String, Bool, not, ◌&&◌, List, [], ◌∷◌, ◌==◌, str_eq, if◌then◌else◌}
use east_api.Prelude.Int.{ℤ, pos, ◌+ℤ◌, ◌-ℤ◌, neg, ltb_ℤ, eqb_ℤ}
use east_api.Prelude.Tables.{update_where}
use east_api.Store.{World, Db, Error, ok, Action, pure, raise, write, ◌>>=◌}
use east_api.Store.Rows.{User, Token}

abbrev pub user_has_id : ℕ → User → Bool
user_has_id id u = u.id == id

abbrev pub token_has_id : ℕ → Token → Bool
token_has_id id t = t.id == id

abbrev pub token_has_key : String → Token → Bool
token_has_key key t = str_eq t.key key

-- `quota = quota + ?`
abbrev pub add_user_quota : ℤ → User → User
add_user_quota q u = record u { quota = u.quota +ℤ q }

-- `remain_quota = remain_quota + ?, used_quota = used_quota - ?`
abbrev pub add_token_quota : ℤ → Token → Token
add_token_quota q t = record t {
  remain_quota = t.remain_quota +ℤ q;
  used_quota = t.used_quota -ℤ q;
}

-- `increaseUserQuota`
unfoldable pub increase_user_quota_db : ℕ → ℤ → Action Unit
unfolding ◌>>=◌
increase_user_quota_db id q =
    write λ d. record d { users = update_where (user_has_id id) (add_user_quota q) d.users }

-- `decreaseUserQuota`: `quota = quota - ?`
unfoldable pub decrease_user_quota_db : ℕ → ℤ → Action Unit
unfolding ◌>>=◌
decrease_user_quota_db id q = write λ d. record d {
  users = update_where (user_has_id id) (λ u. record u { quota = u.quota -ℤ q }) d.users;
}

-- `increaseTokenQuota`
unfoldable pub increase_token_quota_db : ℕ → ℤ → Action Unit
unfolding ◌>>=◌
increase_token_quota_db id q =
    write λ d. record d { tokens = update_where (token_has_id id) (add_token_quota q) d.tokens }

-- `decreaseTokenQuota`
unfoldable pub decrease_token_quota_db : ℕ → ℤ → Action Unit
unfolding ◌>>=◌
decrease_token_quota_db id q = write λ d. record d {
  tokens =
      update_where (token_has_id id)
        (λ t. record t { remain_quota = t.remain_quota -ℤ q; used_quota = t.used_quota +ℤ q })
        d.tokens;
}

-- `addNewRecord` on one of the stores: the delta is added to the one that waits, if any.
unfoldable pub add_new_record : ℕ → ℤ → List (ℕ × ℤ) → List (ℕ × ℤ)
add_new_record id value [] = (id, value) ∷ []
add_new_record id value ((k, v) ∷ store) =
    if k == id then (k, v +ℤ value) ∷ store else (k, v) ∷ add_new_record id value store

add_user_record : ℕ → ℤ → Action Unit
add_user_record id value w =
    (ok tt, record w { pending_users = add_new_record id value w.pending_users })

add_token_record : ℕ → ℤ → Action Unit
add_token_record id value w =
    (ok tt, record w { pending_tokens = add_new_record id value w.pending_tokens })

-- `IncreaseUserQuota(id, quota, db)`
unfoldable pub increase_user_quota : ℕ → ℤ → Bool → Action Unit
unfolding ◌>>=◌ increase_user_quota_db add_user_record
increase_user_quota id q db w =
    if ltb_ℤ q (pos 0)
    then raise Error.negative_quota w
    else if not db && w.batch_update_enabled
    then add_user_record id q w
    else increase_user_quota_db id q w

-- `DecreaseUserQuota(id, quota, db)`
unfoldable pub decrease_user_quota : ℕ → ℤ → Bool → Action Unit
unfolding ◌>>=◌ decrease_user_quota_db add_user_record
decrease_user_quota id q db w =
    if ltb_ℤ q (pos 0)
    then raise Error.negative_quota w
    else if not db && w.batch_update_enabled
    then add_user_record id (neg q) w
    else decrease_user_quota_db id q w

-- `DeltaUpdateUserQuota`
unfoldable pub delta_update_user_quota : ℕ → ℤ → Action Unit
unfolding ◌>>=◌ increase_user_quota decrease_user_quota
delta_update_user_quota id delta =
    if eqb_ℤ delta (pos 0)
    then pure tt
    else if ltb_ℤ (pos 0) delta
    then increase_user_quota id delta Bool.false
    else decrease_user_quota id (neg delta) Bool.false

-- `IncreaseTokenQuota(tokenId, key, quota)`; the key serves the cache only.
unfoldable pub increase_token_quota : ℕ → ℤ → Action Unit
unfolding ◌>>=◌ increase_token_quota_db add_token_record
increase_token_quota id q w =
    if ltb_ℤ q (pos 0)
    then raise Error.negative_quota w
    else if w.batch_update_enabled
    then add_token_record id q w
    else increase_token_quota_db id q w

-- `DecreaseTokenQuota(id, key, quota)`
unfoldable pub decrease_token_quota : ℕ → ℤ → Action Unit
unfolding ◌>>=◌ decrease_token_quota_db add_token_record
decrease_token_quota id q w =
    if ltb_ℤ q (pos 0)
    then raise Error.negative_quota w
    else if w.batch_update_enabled
    then add_token_record id (neg q) w
    else decrease_token_quota_db id q w

-- The loops of `batchUpdate` over the two stores: a failed update is logged and dropped.
unfoldable pub flush_users : List (ℕ × ℤ) → World → World
unfolding increase_user_quota_db
flush_users [] w = w
flush_users ((id, v) ∷ store) w = flush_users store (increase_user_quota_db id v w).1

unfoldable pub flush_tokens : List (ℕ × ℤ) → World → World
unfolding increase_token_quota_db
flush_tokens [] w = w
flush_tokens ((id, v) ∷ store) w = flush_tokens store (increase_token_quota_db id v w).1

-- `batchUpdate`: each store is emptied before its deltas are written.
unfoldable pub batch_update : World → World
unfolding flush_users flush_tokens
batch_update w =
    let w1 = flush_users w.pending_users (record w { pending_users = [] }) in
    flush_tokens w1.pending_tokens (record w1 { pending_tokens = [] })
