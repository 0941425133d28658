-- ===== src/Topup.antt =====
-- The completion of top-ups, model/topup.go: Recharge, RechargeCreem, RechargeWaffo and
-- ManualCompleteTopUp. A row is saved by its `trade_no`, which is unique; the column
-- `stripe_customer` and the log are left out.
pub mod Credit
pub mod Once
pub mod Paid
use east_api.Prelude.{ℕ, String, Bool, true, false, not, ◌&&◌, ltb, ◌==◌, str_eq, if◌then◌else◌}
use east_api.Prelude.Int.{ℤ, pos, leb_ℤ}
use east_api.Prelude.Tables.{find, update_where}
use east_api.Prelude.Text.{is_empty_text}
use east_api.Store.{
  World, Error, Action, pure, raise, gets, or_raise, raise_if, statement, write, on_error,
  transaction, ◌>>=◌, ◌>>◌,
}
use east_api.Store.Rows.{User, TopUp, OrderStatus}
use east_api.Quota.{user_has_id, add_user_quota}
use east_api.Subscription.Orders.{topup_has_trade, is_success, is_pending}

-- What the arithmetic of `float64` and of the decimal package makes of the columns: the units of
-- `amount` and of `money` times `common.QuotaPerUnit`, and what the database adds for the float
-- product.
pub record Rates : Type 0 where
  pub amount_units : ℤ → ℤ
  pub money_units : ℕ → ℤ
  pub money_quota : ℕ → ℤ

-- `FOR UPDATE … First(topUp)`
locked : String → (TopUp → Action Unit) → Action Unit
locked trade_no k =
    on_error statement (λ _. raise Error.order_not_found)
      λ _. do
        t ←
            or_raise (← gets (λ w. find (topup_has_trade trade_no) w.db.topups))
              Error.order_not_found
        k t

abbrev pub completed : ℕ → TopUp → TopUp
completed now t = record t { complete_time = now; status = OrderStatus.success }

-- `tx.Save(topUp)`
save_topup : String → Action Unit
save_topup trade_no = do
  now ← gets (λ w. w.now)
  write λ d. record d { topups = update_where (topup_has_trade trade_no) (completed now) d.topups }

update_user : ℕ → (User → User) → Action Unit
update_user user_id f = write λ d. record d { users = update_where (user_has_id user_id) f d.users }

stripe_pay : Rates → String → TopUp → Action Unit
unfolding save_topup update_user
stripe_pay rates trade_no t = do
  raise_if (not (str_eq t.payment_method "stripe")) Error.payment_method_mismatch
  raise_if (not (is_pending t.status)) Error.order_status
  save_topup trade_no
  update_user t.user_id (add_user_quota (rates.money_quota t.money))

-- Whether the user's e-mail is to be filled in
fills_email : String → ℕ → Action Bool
fills_email email user_id = if is_empty_text email then pure false else do
  statement
  user ← or_raise (← gets (λ w. find (user_has_id user_id) w.db.users)) Error.record_not_found
  pure (is_empty_text user.email)

abbrev pub creem_fields : String → ℤ → Bool → User → User
creem_fields email quota fills u = record (add_user_quota quota u) {
  email = if fills then email else u.email;
}

creem_pay : String → String → TopUp → Action Unit
unfolding save_topup update_user fills_email
creem_pay email trade_no t = do
  raise_if (not (str_eq t.payment_method "creem")) Error.payment_method_mismatch
  raise_if (not (is_pending t.status)) Error.order_status
  save_topup trade_no
  fills ← fills_email email t.user_id
  update_user t.user_id (creem_fields email t.amount fills)

-- The order is returned from where it has been completed before.
pay_once : String → ℤ → TopUp → Action Unit
unfolding save_topup update_user
pay_once trade_no quota t =
    if is_success t.status
    then pure tt
    else raise_if (not (is_pending t.status)) Error.order_status
      >> (raise_if (leb_ℤ quota (pos 0)) Error.invalid_amount
          >> (save_topup trade_no >> update_user t.user_id (add_user_quota quota)))

waffo_pay : Rates → String → TopUp → Action Unit
unfolding pay_once
waffo_pay rates trade_no t = do
  raise_if (not (str_eq t.payment_method "waffo")) Error.payment_method_mismatch
  pay_once trade_no (rates.amount_units t.amount) t

manual_pay : Rates → String → TopUp → Action Unit
unfolding pay_once
manual_pay rates trade_no t =
    pay_once trade_no
      (if str_eq t.payment_method "stripe"
        then rates.money_units t.money
        else rates.amount_units t.amount)
      t

-- The providers' calls report every error of the transaction as one.
for_provider : String → Action Unit → Action Unit
for_provider trade_no body = do
  raise_if (is_empty_text trade_no) Error.order_missing
  on_error (transaction body) (λ _. raise Error.topup_failed) pure

-- `Recharge`
unfoldable pub recharge : Rates → String → Action Unit
unfolding locked stripe_pay for_provider
recharge rates trade_no = for_provider trade_no (locked trade_no (stripe_pay rates trade_no))

-- `RechargeCreem`
unfoldable pub recharge_creem : String → String → Action Unit
unfolding locked creem_pay for_provider
recharge_creem email trade_no = for_provider trade_no (locked trade_no (creem_pay email trade_no))

-- `RechargeWaffo`
unfoldable pub recharge_waffo : Rates → String → Action Unit
unfolding locked waffo_pay for_provider
recharge_waffo rates trade_no = for_provider trade_no (locked trade_no (waffo_pay rates trade_no))

-- `ManualCompleteTopUp`
unfoldable pub manual_complete : Rates → String → Action Unit
unfolding locked manual_pay
manual_complete rates trade_no = do
  raise_if (is_empty_text trade_no) Error.order_missing
  transaction (locked trade_no (manual_pay rates trade_no))

-- The ways in which an order can be completed
pub data Way : Type 0 where
  stripe waffo manual : Way
  creem : String → Way

abbrev pay_by : Rates → Way → String → TopUp → Action Unit
pay_by rates Way.stripe = stripe_pay rates
pay_by rates Way.waffo = waffo_pay rates
pay_by rates Way.manual = manual_pay rates
pay_by rates (Way.creem email) = creem_pay email

unfoldable pub complete_topup : Rates → Way → String → Action Unit
unfolding recharge recharge_creem recharge_waffo manual_complete
complete_topup rates Way.stripe = recharge rates
complete_topup rates Way.waffo = recharge_waffo rates
complete_topup rates Way.manual = manual_complete rates
complete_topup rates (Way.creem email) = recharge_creem email
