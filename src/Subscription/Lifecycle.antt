-- ===== src/Subscription/Lifecycle.antt =====
-- The end of a subscription: ExpireDueSubscriptions, AdminInvalidateUserSubscription,
-- AdminDeleteUserSubscription and AdminBindSubscription of model/subscription.go. The cache of groups
-- and the texts for the administrator are left out.
pub mod Ended
use east_api.Prelude.{
  ℕ, zero, suc, ◌+◌, String, Bool, true, false, not, ◌&&◌, ◌||◌, Option, none, some, List, [], ◌∷◌,
  ltb, leb, ◌==◌, str_eq, if◌then◌else◌,
}
use east_api.Prelude.Int.{ℤ, leb_ℤ, pos, pos_part}
use east_api.Prelude.Tables.{find, select, update_where, count_where}
use east_api.Prelude.Text.{trim_text, is_empty_text}
use east_api.Store.{
  World, Error, Result, ok, err, Action, pure, gets, or_raise, raise_if, statement, write,
  on_option, on_error, transaction, ◌>>=◌, ◌>>◌,
}
use east_api.Store.Rows.{User, UserSubscription, SubscriptionStatus}
use east_api.Subscription.Consume.{get_plan, is_active, goes_before, sort_by_end}
use east_api.Subscription.Reset.{subscription_has_id}
use east_api.Subscription.Due.{first_rows}
use east_api.Subscription.Orders.{get_user_group, set_group, create_from_plan}

-- An active subscription of the user that has raised the group and has not ended, other than `id`
upgrades : ℕ → ℕ → ℕ → UserSubscription → Bool
upgrades user_id now id s =
    s.user_id == user_id
    && is_active s.status
    && ltb now s.end_time
    && not (s.id == id)
    && not (is_empty_text s.upgrade_group)

-- A query whose error counts as no row
exists_row : (UserSubscription → Bool) → Action Bool
exists_row test =
    on_error statement (λ _. pure false)
      λ _. gets (λ w. ltb 0 (count_where test w.db.subscriptions))

-- The end of `downgradeUserGroupForSubscriptionTx`
go_back : UserSubscription → String → Action String
go_back sub current =
    if is_empty_text (trim_text sub.prev_user_group)
      || str_eq (trim_text sub.prev_user_group) current
    then pure ""
    else set_group sub.user_id (trim_text sub.prev_user_group) (trim_text sub.prev_user_group)

-- `downgradeUserGroupForSubscriptionTx`
downgrade_user_group : UserSubscription → ℕ → Action String
unfolding upgrades exists_row go_back
downgrade_user_group sub now = if is_empty_text (trim_text sub.upgrade_group) then pure "" else do
  current ← get_user_group sub.user_id
  if not (str_eq current (trim_text sub.upgrade_group)) then pure "" else do
    kept ← exists_row (upgrades sub.user_id now sub.id)
    if kept then pure "" else go_back sub current

-- `Where("id = ?").First(&sub)`
find_subscription : ℕ → Action UserSubscription
find_subscription id = do
  statement
  or_raise (← gets (λ w. find (subscription_has_id id) w.db.subscriptions)) Error.record_not_found

abbrev pub cancelled : ℕ → UserSubscription → UserSubscription
cancelled now s = record s { status = SubscriptionStatus.cancelled; end_time = now }

invalidate_body : ℕ → ℕ → Action String
unfolding find_subscription downgrade_user_group
invalidate_body id now = do
  sub ← find_subscription id
  write λ d. record d {
    subscriptions = update_where (subscription_has_id id) (cancelled now) d.subscriptions;
  }
  downgrade_user_group (cancelled now sub) now

-- `AdminInvalidateUserSubscription`: the group that the user falls back to, if any
unfoldable pub admin_invalidate : ℕ → Action String
unfolding invalidate_body
admin_invalidate id = do
  raise_if (id == 0) Error.invalid_subscription
  now ← gets (λ w. w.now)
  transaction (invalidate_body id now)

-- `Where("id = ?").Delete`
abbrev pub without : ℕ → List UserSubscription → List UserSubscription
without id ss = select (λ s. not (subscription_has_id id s)) ss

delete_body : ℕ → ℕ → Action String
unfolding find_subscription downgrade_user_group
delete_body id now = do
  sub ← find_subscription id
  target ← downgrade_user_group sub now
  write λ d. record d { subscriptions = without id d.subscriptions }
  pure target

-- `AdminDeleteUserSubscription`
unfoldable pub admin_delete : ℕ → Action String
unfolding delete_body
admin_delete id = do
  raise_if (id == 0) Error.invalid_subscription
  now ← gets (λ w. w.now)
  transaction (delete_body id now)

-- `AdminBindSubscription`
unfoldable pub admin_bind : ℕ → ℕ → Action UserSubscription
unfolding ◌>>=◌
admin_bind user_id plan_id = do
  raise_if (user_id == 0 || plan_id == 0) Error.invalid_user
  plan ← get_plan plan_id
  transaction (create_from_plan user_id plan)

-- `status = 'active' AND end_time > 0 AND end_time <= ?`
abbrev pub is_overdue : ℕ → UserSubscription → Bool
is_overdue now s = is_active s.status && ltb 0 s.end_time && leb s.end_time now

abbrev is_expired : SubscriptionStatus → Bool
is_expired SubscriptionStatus.expired = true
is_expired _ = false

-- `end_time desc, id desc`, the first row
latest : List UserSubscription → Option UserSubscription
latest [] = none
latest (s ∷ ss) = elim (latest ss) [
  | none ↦ some s
  | some t ↦ if goes_before t s then some s else some t
]

-- The fall back of `ExpireDueSubscriptions`, to the group before the last expired subscription
fall_back : ℕ → UserSubscription → Action Unit
fall_back user_id s =
    if is_empty_text (trim_text s.upgrade_group) || is_empty_text (trim_text s.prev_user_group)
    then pure tt
    else do
      current ← get_user_group user_id
      if not (str_eq current (trim_text s.upgrade_group))
            || str_eq current (trim_text s.prev_user_group)
          then pure tt
          else set_group user_id (trim_text s.prev_user_group) current >> pure tt

last_expired : ℕ → Action (Option UserSubscription)
unfolding latest
last_expired user_id =
    on_error statement (λ _. pure none)
      λ _. gets (λ w. latest (
        select
          (λ s. s.user_id == user_id && is_expired s.status && not (is_empty_text s.upgrade_group))
          w.db.subscriptions))

abbrev pub expired : UserSubscription → UserSubscription
expired s = record s { status = SubscriptionStatus.expired }

-- The transaction of `ExpireDueSubscriptions` for one user: how many rows have expired
expire_user : ℕ → ℕ → Action ℕ
unfolding exists_row fall_back last_expired
expire_user now user_id = do
  n ← gets (λ w. count_where (λ s. s.user_id == user_id && is_overdue now s) w.db.subscriptions)
  write λ d. record d {
    subscriptions =
        update_where (λ s. s.user_id == user_id && is_overdue now s) expired d.subscriptions;
  }
  kept ← exists_row (λ s.
      s.user_id == user_id
      && is_active s.status
      && ltb now s.end_time
      && not (is_empty_text s.upgrade_group))
  if kept then pure n else do
    last ← last_expired user_id
    on_option last (pure n) λ s. fall_back user_id s >> pure n

-- The loop over the users; an error ends it, and the count comes back beside it.
expire_each : ℕ → List ℕ → ℕ → World → ℕ × Result (Unit {0}) × World
unfolding expire_user
expire_each now [] count w = (count, ok tt, w)
expire_each now (user_id ∷ users) count w =
    let (r, w') = transaction (expire_user now user_id) w in
    elim r [ err e ↦ (count, err e, w') | ok n ↦ expire_each now users (count + n) w' ]

-- The users of the rows, each once
users_of : List UserSubscription → List ℕ
users_of [] = []
users_of (s ∷ ss) =
    let rest = users_of ss in
    if s.user_id == 0 || ltb 0 (count_where (λ id. id == s.user_id) rest)
    then rest
    else s.user_id ∷ rest

abbrev batch_size : ℤ → ℕ
batch_size limit = if leb_ℤ limit (pos 0) then 200 else pos_part limit

-- `ExpireDueSubscriptions(limit)`; the order in which Go runs through the users is not fixed.
unfoldable pub expire_due : ℤ → World → ℕ × Result (Unit {0}) × World
unfolding expire_each users_of ◌>>=◌
expire_due limit w =
    let (r, w1) = statement w in
    elim r [
      | err e ↦ (0, err e, w1)
      | ok _ ↦
          let due_rows =
            first_rows (batch_size limit)
              (sort_by_end (select (is_overdue w.now) w1.db.subscriptions)) in
          expire_each w.now (users_of due_rows) 0 w1
    ]
