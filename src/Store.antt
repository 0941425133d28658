-- ===== src/Store.antt =====
-- The database and the memory that the billing code works on, and the steps that touch it
-- (gorm behind model/main.go). Every SQL statement may fail, as the schedule `faults` says;
-- a transaction that fails leaves the tables as they were.
pub mod Rows
pub mod Ensures
pub mod Keeps
pub mod Triples
pub mod Calm
use east_api.Prelude.{
  ℕ, String, Bool, true, false, Option, none, some, List, [], ◌∷◌, if◌then◌else◌,
}
use east_api.Prelude.Int.{ℤ}
use Rows.{
  User, Token, SubscriptionPlan, UserSubscription, PreConsumeRecord, Redemption, TopUp,
  SubscriptionOrder,
}

-- The errors of the modelled code; `statement_failed` is any error of the database.
pub data Error : Type 0 where
  statement_failed record_not_found negative_quota invalid_user invalid_plan : Error
  empty_request amount_not_positive already_refunded no_active_subscription : Error
  subscription_insufficient subscription_exceeded invalid_subscription : Error
  token_insufficient invalid_duration purchase_limit subscription_id_missing : Error
  code_missing code_invalid code_used code_expired redeem_failed : Error
  order_missing order_not_found payment_method_mismatch order_status invalid_amount : Error
  topup_failed : Error

pub data Result {ℓ} (A : Type ℓ) : Type ℓ where
  ok : A → Result A
  err : Error → Result A

pub record Db : Type 0 where
  pub users : List User
  pub tokens : List Token
  pub plans : List SubscriptionPlan
  pub subscriptions : List UserSubscription
  pub records : List PreConsumeRecord
  pub redemptions : List Redemption
  pub topups : List TopUp
  pub orders : List SubscriptionOrder

-- `pending_users` and `pending_tokens` are `batchUpdateStores` of the two quota kinds,
-- `batch_update_enabled` the global switch, `now` the clock that the code reads.
-- `next_id` is the key that the database gives to the next row of `subscriptions`.
pub record World : Type 0 where
  pub db : Db
  pub pending_users : List (ℕ × ℤ)
  pub pending_tokens : List (ℕ × ℤ)
  pub batch_update_enabled : Bool
  pub now : ℕ
  pub next_id : ℕ
  pub faults : List Bool

abbrev pub Action : Type 0 → Type 0
Action A = World → Result A × World

-- The steps that actions are made of. They are shut, so that a proof about an action goes by rules;
-- a proof that opens `◌>>=◌` opens them all.
module _ {A : Type 0} where
  pub pure : A → Action A
  pure a w = (ok a, w)

  pub raise : Error → Action A
  raise e w = (err e, w)

  pub gets : (World → A) → Action A
  gets f w = (ok (f w), w)

  pub or_raise : Option A → Error → Action A
  unfolding pure raise
  or_raise none e = raise e
  or_raise (some a) e = pure a

pub raise_if : Bool → Error → Action (Unit {0})
raise_if true e w = (err e, w)
raise_if false e w = (ok tt, w)

-- Whether the next statement fails, and the outcomes of the later ones. A schedule that has run out
-- stands for a database that no longer fails.
abbrev pub next_fails : List Bool → Bool
next_fails [] = false
next_fails (f ∷ fs) = f

abbrev pub later : List Bool → List Bool
later [] = []
later (f ∷ fs) = fs

-- The state after a statement: its outcome is used up.
abbrev pub spent : World → World
spent w = record w { faults = later w.faults }

-- One SQL statement that reads.
pub statement : Action (Unit {0})
statement w =
    if next_fails w.faults then (err Error.statement_failed, spent w) else (ok tt, spent w)

-- One SQL statement that writes: it changes the tables if it does not fail.
unfoldable pub write : (Db → Db) → Action (Unit {0})
write f w =
    if next_fails w.faults
    then (err Error.statement_failed, spent w)
    else (ok tt, record (spent w) { db = f w.db })

infixl 5 ◌>>=◌ ◌>>◌
unfoldable pub ◌>>=◌ : {A B : Type 0} → Action A → (A → Action B) → Action B
unfolding pure raise gets or_raise raise_if statement write
◌>>=◌ m f w = let (r, w') = m w in elim r [ ok a ↦ f a w' | err e ↦ (err e, w') ]

abbrev pub ◌>>◌ : {A B : Type 0} → Action A → Action B → Action B
m >> k = m >>= λ _. k

-- A test for `nil`, and a test of the error that a call returns.
module _ {A B : Type 0} where
  unfoldable pub on_option : Option A → Action B → (A → Action B) → Action B
  on_option none m k = m
  on_option (some a) m k = k a

  unfoldable pub on_error : Action A → (Error → Action B) → (A → Action B) → Action B
  unfolding ◌>>=◌
  on_error m h k w = let (r, w') = m w in elim r [ ok a ↦ k a w' | err e ↦ h e w' ]

-- `DB.Transaction(body)`: the commit may fail too, and on any error the tables are rolled back.
unfoldable pub transaction : {A : Type 0} → Action A → Action A
unfolding ◌>>=◌
transaction body w =
    let (r, w') = (body >>= λ a. statement >> pure a) w in
    elim r [ ok a ↦ (ok a, w') | err e ↦ (err e, record w' { db = w.db }) ]
