-- ===== src/Store/Rows.antt =====
-- The rows of the tables (structs of model/user.go, model/token.go, model/subscription.go,
-- model/topup.go and model/redemption.go), less the columns that no modelled code reads.
-- Identifiers and times are naturals; a status string is a constructor.
use east_api.Prelude.{ℕ, String}
use east_api.Prelude.Int.{ℤ}

pub record User : Type 0 where
  pub id : ℕ
  pub quota : ℤ
  pub group : String
  pub email : String

pub record Token : Type 0 where
  pub id : ℕ
  pub key : String
  pub remain_quota : ℤ
  pub used_quota : ℤ

-- `DurationUnit`; `unknown` stands for every other string.
pub data DurationUnit : Type 0 where
  year month day hour custom unknown : DurationUnit

-- `QuotaResetPeriod`, as `NormalizeResetPeriod` reads it: every other string is `never`.
pub data ResetPeriod : Type 0 where
  never daily weekly monthly custom : ResetPeriod

pub record SubscriptionPlan : Type 0 where
  pub id : ℕ
  pub title : String
  pub duration_unit : DurationUnit
  pub duration_value : ℤ
  pub custom_seconds : ℤ
  pub max_purchase_per_user : ℤ
  pub upgrade_group : String
  pub total_amount : ℤ
  pub quota_reset_period : ResetPeriod
  pub quota_reset_custom_seconds : ℤ

pub data SubscriptionStatus : Type 0 where
  active expired cancelled : SubscriptionStatus

pub record UserSubscription : Type 0 where
  pub id : ℕ
  pub user_id : ℕ
  pub plan_id : ℕ
  pub amount_total : ℤ
  pub amount_used : ℤ
  pub start_time : ℕ
  pub end_time : ℕ
  pub status : SubscriptionStatus
  pub last_reset_time : ℕ
  pub next_reset_time : ℕ
  pub upgrade_group : String
  pub prev_user_group : String

pub data RecordStatus : Type 0 where
  consumed refunded : RecordStatus

pub record PreConsumeRecord : Type 0 where
  pub request_id : String
  pub user_id : ℕ
  pub user_subscription_id : ℕ
  pub pre_consumed : ℤ
  pub status : RecordStatus
  pub updated_at : ℕ

pub data OrderStatus : Type 0 where
  pending success failed expired : OrderStatus

pub data RedemptionStatus : Type 0 where
  enabled disabled used : RedemptionStatus

pub record Redemption : Type 0 where
  pub key : String
  pub status : RedemptionStatus
  pub quota : ℤ
  pub expired_time : ℕ
  pub redeemed_time : ℕ
  pub used_user_id : ℕ

-- `money` is the bit pattern of the float64.
pub record TopUp : Type 0 where
  pub user_id : ℕ
  pub amount : ℤ
  pub money : ℕ
  pub trade_no : String
  pub payment_method : String
  pub create_time : ℕ
  pub complete_time : ℕ
  pub status : OrderStatus

pub record SubscriptionOrder : Type 0 where
  pub user_id : ℕ
  pub plan_id : ℕ
  pub money : ℕ
  pub trade_no : String
  pub payment_method : String
  pub status : OrderStatus
  pub create_time : ℕ
  pub complete_time : ℕ
  pub provider_payload : String
