-- ===== src/Redemption.antt =====
-- Redemption codes: Redeem of model/redemption.go. The pause before the transaction is left out.
pub mod Once
use east_api.Prelude.{ℕ, String, Bool, true, false, not, ◌&&◌, ltb, ◌==◌, str_eq}
use east_api.Prelude.Int.{ℤ}
use east_api.Prelude.Tables.{find, update_where}
use east_api.Prelude.Text.{is_empty_text}
use east_api.Store.{
  Error, Action, pure, raise, gets, or_raise, raise_if, statement, write, on_error, transaction,
  ◌>>=◌, ◌>>◌,
}
use east_api.Store.Rows.{Redemption, RedemptionStatus}
use east_api.Quota.{user_has_id, add_user_quota}

abbrev pub code_has_key : String → Redemption → Bool
code_has_key key r = str_eq r.key key

abbrev pub is_enabled : RedemptionStatus → Bool
is_enabled RedemptionStatus.enabled = true
is_enabled _ = false

-- The code's row once it is used
abbrev pub redeemed : ℕ → ℕ → Redemption → Redemption
redeemed user_id now r = record r {
  redeemed_time = now;
  status = RedemptionStatus.used;
  used_user_id = user_id;
}

-- The credit and the mark
credit : String → ℕ → ℕ → Redemption → Action ℤ
credit key user_id now r = do
  write
      λ d. record d { users = update_where (user_has_id user_id) (add_user_quota r.quota) d.users }
  write λ d. record d {
    redemptions = update_where (code_has_key key) (redeemed user_id now) d.redemptions;
  }
  pure r.quota

redeem_body : String → ℕ → Action ℤ
unfolding credit
redeem_body key user_id =
    on_error statement (λ _. raise Error.code_invalid)
      λ _. do
        r ← or_raise (← gets (λ w. find (code_has_key key) w.db.redemptions)) Error.code_invalid
        raise_if (not (is_enabled r.status)) Error.code_used
        now ← gets (λ w. w.now)
        raise_if (not (r.expired_time == 0) && ltb r.expired_time now) Error.code_expired
        credit key user_id now r

-- `Redeem`: every error of the transaction is reported as one.
unfoldable pub redeem : String → ℕ → Action ℤ
unfolding redeem_body
redeem key user_id = do
  raise_if (is_empty_text key) Error.code_missing
  raise_if (user_id == 0) Error.invalid_user
  on_error (transaction (redeem_body key user_id)) (λ _. raise Error.redeem_failed) (λ q. pure q)
