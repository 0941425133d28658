-- ===== src/Subscription/Consume/Within.antt =====
-- No subscription is used below 0 or past its total: every operation of Subscription/Consume keeps
-- this, on every path, whatever statements fail.
use east_api.Prelude.{
  ℕ, ◌≡◌, refl, ◌⊎◌, inl, inr, String, Bool, false, ◌&&◌, some, List, [], ◌∷◌, arith, if_both,
  Bool-cases, Option-cases, All,
}
use east_api.Prelude.Int.{ℤ, pos, ◌+ℤ◌, ◌≤ℤ◌, ltb_ℤ, leb_ℤ, int_laws}
use east_api.Prelude.Tables.{find, select, update_where}
use east_api.Store.{World, Db, Error, Result, ok, err, write}
use east_api.Store.Ensures.{
  Ensures, Post, Any, IfSome, Ensures-guard, Ensures-pure, Ensures-raise, Ensures-gets,
  Ensures-or_raise, Ensures-if, Ensures-raise_if, Ensures-statement, Ensures-write, Ensures-bind,
  Ensures-transaction,
}
use east_api.Store.Keeps.{gets-Any, on_option-Any, on_error-Any, pure-Any, bind-Any, any_rules}
use east_api.Store.Rows.{SubscriptionPlan, UserSubscription, PreConsumeRecord}
use east_api.Subscription.Reset.{maybe_reset, reset_row, save_subscription}
use east_api.Subscription.Reset.Laws.{reset_row_effect}
use east_api.Subscription.Consume.{
  get_plan, reuse, create_record, use_duplicate, charge, charge_first, lacks_room, resume,
  start_new, pre_consume_body, pre_consume_user_subscription, clamp, post_consume_body,
  post_consume_delta, mark_refunded, refund_record, refund_pre_consume, sort_by_end, insert_by_end,
  goes_before,
}

-- The use is not negative, and not past a total that is set.
abbrev pub IsWithin : UserSubscription → Type 0
IsWithin s =
    (pos 0 ≤ℤ s.amount_used) × ((s.amount_total ≤ℤ pos 0) ⊎ (s.amount_used ≤ℤ s.amount_total))

abbrev pub AllWithin : Db → Type 0
AllWithin d = All IsWithin d.subscriptions

find-IsWithin :
    (p : UserSubscription → Bool) (ss : List UserSubscription)
    → All IsWithin ss
    → IfSome IsWithin (find p ss)
find-IsWithin p [] h = tt
find-IsWithin p (s ∷ ss) h = if_both (IfSome IsWithin) (p s) h.0 (find-IsWithin p ss h.1)

select-IsWithin :
    (p : UserSubscription → Bool) (ss : List UserSubscription)
    → All IsWithin ss
    → All IsWithin (select p ss)
select-IsWithin p [] h = tt
select-IsWithin p (s ∷ ss) h =
    let rest = select-IsWithin p ss h.1 in if_both (All IsWithin) (p s) (h.0, rest) rest

insert_by_end-IsWithin :
    (s : UserSubscription) (ss : List UserSubscription)
    → IsWithin s
    → All IsWithin ss
    → All IsWithin (insert_by_end s ss)
unfolding insert_by_end
insert_by_end-IsWithin s [] h hs = (h, tt)
insert_by_end-IsWithin s (t ∷ ts) h hs =
    if_both (All IsWithin) (goes_before s t) (h, hs) (hs.0, insert_by_end-IsWithin s ts h hs.1)

sort_by_end-IsWithin :
    (ss : List UserSubscription) → All IsWithin ss → All IsWithin (sort_by_end ss)
unfolding sort_by_end
sort_by_end-IsWithin [] h = tt
sort_by_end-IsWithin (s ∷ ss) h =
    insert_by_end-IsWithin s (sort_by_end ss) h.0 (sort_by_end-IsWithin ss h.1)

update-IsWithin :
    (p : UserSubscription → Bool) (s : UserSubscription) (ss : List UserSubscription)
    → IsWithin s
    → All IsWithin ss
    → All IsWithin (update_where p (λ _. s) ss)
update-IsWithin p s [] h hs = tt
update-IsWithin p s (t ∷ ts) h hs = (if_both IsWithin (p t) h hs.0, update-IsWithin p s ts h hs.1)

save-Ensures : (s : UserSubscription) → IsWithin s → Ensures AllWithin Any (save_subscription s)
save-Ensures s h = Ensures-write _ λ d hd. update-IsWithin _ s d.subscriptions h hd

reset_row-IsWithin :
    (s s' : UserSubscription) (plan : SubscriptionPlan) (now : ℕ)
    → IsWithin s
    → reset_row s plan now ≡ some s'
    → IsWithin s'
reset_row-IsWithin s s' plan now h e = ground (arith, reset_row_effect s s' plan now e)

maybe_reset-Ensures :
    (s : UserSubscription) (plan : SubscriptionPlan) (now : ℕ)
    → IsWithin s
    → Ensures AllWithin IsWithin (maybe_reset s plan now)
unfolding maybe_reset
maybe_reset-Ensures s plan now h = elim (Option-cases (reset_row s plan now)) [
  | inl e ↦ rw (e, maybe_reset) (Ensures-pure s h)
  | inr (s', e) ↦
      let h' = reset_row-IsWithin s s' plan now h e in
      rw (e, maybe_reset) (Ensures-bind _ _ (save-Ensures s' h') λ _ _. Ensures-pure s' h')
]

-- A lookup whose value carries no condition.

-- A write that leaves the subscriptions alone.
write-Any :
    (f : Db → Db)
    → ((d : Db) → (f d).subscriptions ≡ d.subscriptions)
    → Ensures AllWithin Any (write f)
write-Any f same = Ensures-write f λ d h. rw (same d) h

get_plan-Ensures : (id : ℕ) → Ensures AllWithin Any (get_plan id)
unfolding get_plan
get_plan-Ensures id = search any_rules depth 8

create_record-Ensures : (r : PreConsumeRecord) → Ensures AllWithin Any (create_record r)
unfolding create_record
create_record-Ensures r =
    bind-Any _ _ (gets-Any _)
      λ o. on_option-Any o _ _ (write-Any _ (λ d. refl)) (λ _. Ensures-raise _)

use_duplicate-Ensures :
    (request_id : String) (s : UserSubscription) (e : Error)
    → Ensures AllWithin Any (use_duplicate request_id s e)
unfolding use_duplicate reuse
use_duplicate-Ensures request_id s e = search any_rules depth 8

-- The charge fits where there is room for it.
charged-IsWithin :
    (s : UserSubscription) (amount : ℤ)
    → pos 0 ≤ℤ amount
    → IsWithin s
    → lacks_room s amount ≡ false
    → IsWithin (record s { amount_used = s.amount_used +ℤ amount })
charged-IsWithin s amount a h room = grind int_laws

charge-Ensures :
    (request_id : String) (user_id : ℕ) (amount : ℤ) (s : UserSubscription)
    → IsWithin (record s { amount_used = s.amount_used +ℤ amount })
    → Ensures AllWithin Any (charge request_id user_id amount s)
unfolding charge
charge-Ensures request_id user_id amount s h = bind-Any _ _ (gets-Any _) λ now.
    on_error-Any _ _ _ (create_record-Ensures _) (use_duplicate-Ensures request_id s)
      λ _. bind-Any _ _ (save-Ensures _ h) (λ _. pure-Any _)

charge_first-Ensures :
    (request_id : String) (user_id : ℕ) (amount : ℤ) (ss : List UserSubscription)
    → pos 0 ≤ℤ amount
    → All IsWithin ss
    → Ensures AllWithin Any (charge_first request_id user_id amount ss)
unfolding charge_first
charge_first-Ensures request_id user_id amount [] ha h = Ensures-raise _
charge_first-Ensures request_id user_id amount (c ∷ rest) ha h =
    bind-Any _ _ (get_plan-Ensures c.plan_id) λ plan. bind-Any _ _ (gets-Any _) λ now.
      Ensures-bind _ _ (maybe_reset-Ensures c plan now h.0) λ s hs.
        elim (Bool-cases (lacks_room s amount)) [
          | inl short ↦ rw short (charge_first-Ensures request_id user_id amount rest ha h.1)
          | inr room ↦
              rw room
                (charge-Ensures request_id user_id amount s (charged-IsWithin s amount ha hs room))
        ]

start_new-Ensures :
    (request_id : String) (user_id : ℕ) (amount : ℤ)
    → pos 0 ≤ℤ amount
    → Ensures AllWithin Any (start_new request_id user_id amount)
unfolding start_new
start_new-Ensures request_id user_id amount ha =
    on_error-Any _ _ _ Ensures-statement (λ _. Ensures-raise _)
      λ _.
        Ensures-bind _ _
          (Ensures-gets {Q = All IsWithin} _ λ w h. sort_by_end-IsWithin _ (select-IsWithin _ _ h))
          λ ss hs.
            bind-Any _ _ (Ensures-raise_if _ _)
              λ _. charge_first-Ensures request_id user_id amount ss ha hs

resume-Ensures : (r : PreConsumeRecord) → Ensures AllWithin Any (resume r)
unfolding resume
resume-Ensures r = search any_rules depth 10

pre_consume_user_subscription-Ensures :
    (request_id : String) (user_id : ℕ) (amount : ℤ)
    → Ensures AllWithin Any (pre_consume_user_subscription request_id user_id amount)
unfolding pre_consume_user_subscription pre_consume_body
pre_consume_user_subscription-Ensures request_id user_id amount =
    bind-Any _ _ (Ensures-raise_if _ _) λ _. bind-Any _ _ (Ensures-raise_if _ _) λ _.
      Ensures-guard _ _ _ λ positive. Ensures-transaction _ (
        bind-Any _ _ Ensures-statement λ _. bind-Any _ _ (gets-Any _) λ o.
          on_option-Any o _ _ (start_new-Ensures request_id user_id amount (nonneg amount positive))
            resume-Ensures)
  where
    nonneg : (a : ℤ) → leb_ℤ a (pos 0) ≡ false → pos 0 ≤ℤ a
    nonneg a h = ground arith

-- A use that the guard lets pass.
clamped-IsWithin :
    (s : UserSubscription) (x : ℤ)
    → (ltb_ℤ (pos 0) s.amount_total && ltb_ℤ s.amount_total (clamp x)) ≡ false
    → IsWithin (record s { amount_used = clamp x })
clamped-IsWithin s x h = ground arith

post_consume_body-Ensures :
    (id : ℕ) (delta : ℤ) → Ensures AllWithin Any (post_consume_body id delta)
unfolding post_consume_body
post_consume_body-Ensures id delta = bind-Any _ _ Ensures-statement λ _.
    Ensures-bind _ _ (Ensures-gets {Q = IfSome IsWithin} _ λ w h. find-IsWithin _ _ h) λ o ho.
      Ensures-bind _ _ (Ensures-or_raise {Q = IsWithin} o _ ho) λ s hs.
        Ensures-guard _ _ _
          λ fits. save-Ensures _ (clamped-IsWithin s (s.amount_used +ℤ delta) fits)

post_consume_delta-Ensures :
    (id : ℕ) (delta : ℤ) → Ensures AllWithin Any (post_consume_delta id delta)
unfolding post_consume_delta
post_consume_delta-Ensures id delta =
    Ensures-if _ _ _ (Ensures-raise _)
      (Ensures-if _ _ _ (pure-Any tt) (Ensures-transaction _ (post_consume_body-Ensures id delta)))

mark_refunded-Ensures : (request_id : String) → Ensures AllWithin Any (mark_refunded request_id)
unfolding mark_refunded
mark_refunded-Ensures request_id = bind-Any _ _ (gets-Any _) λ now. write-Any _ (λ d. refl)

refund_pre_consume-Ensures :
    (request_id : String) → Ensures AllWithin Any (refund_pre_consume request_id)
unfolding refund_pre_consume refund_record
refund_pre_consume-Ensures request_id =
    search (any_rules, mark_refunded-Ensures, post_consume_delta-Ensures) depth 10

kept : {A : Type 0} (x : Result A × World) → Post AllWithin Any x → AllWithin x.1.db
kept (ok a, w) h = h.0
kept (err e, w) h = h

module _ (w : World) (h : AllWithin w.db) where
  -- Where no subscription is used below 0 or past its total, reserving quota for a request, again or
  -- for the first time, leaves it so, on every path and whatever statements fail.
  pre_consume_user_subscription-AllWithin :
      (request_id : String) (user_id : ℕ) (amount : ℤ)
      → AllWithin (pre_consume_user_subscription request_id user_id amount w).1.db
  pre_consume_user_subscription-AllWithin request_id user_id amount =
      kept (pre_consume_user_subscription request_id user_id amount w)
        ((pre_consume_user_subscription-Ensures request_id user_id amount).at w h)

  -- Where no subscription is used below 0 or past its total, settling by any delta, positive or
  -- negative, leaves it so, on every path and whatever statements fail.
  post_consume_delta-AllWithin :
      (id : ℕ) (delta : ℤ) → AllWithin (post_consume_delta id delta w).1.db
  post_consume_delta-AllWithin id delta =
      kept (post_consume_delta id delta w) ((post_consume_delta-Ensures id delta).at w h)

  -- Where no subscription is used below 0 or past its total, refunding a request leaves it so, on
  -- every path and whatever statements fail.
  refund_pre_consume-AllWithin :
      (request_id : String) → AllWithin (refund_pre_consume request_id w).1.db
  refund_pre_consume-AllWithin request_id =
      kept (refund_pre_consume request_id w) ((refund_pre_consume-Ensures request_id).at w h)

  -- Where no subscription is used below 0 or past its total, none is so after quota was reserved for
  -- a request, again or for the first time, after a request was settled by any delta, or after it was
  -- refunded, on every path and whatever statements fail.
  pub consume-AllWithin :
      (request_id : String) (user_id : ℕ) (amount : ℤ) (id : ℕ) (delta : ℤ)
      → AllWithin (pre_consume_user_subscription request_id user_id amount w).1.db
        × AllWithin (post_consume_delta id delta w).1.db
        × AllWithin (refund_pre_consume request_id w).1.db
  consume-AllWithin request_id user_id amount id delta = (
    pre_consume_user_subscription-AllWithin request_id user_id amount,
    post_consume_delta-AllWithin id delta,
    refund_pre_consume-AllWithin request_id,
  )
