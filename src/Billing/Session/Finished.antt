-- ===== src/Billing/Session/Finished.antt =====
-- Calls on a session that has ended, or is refunded: they change nothing.
use east_api.Prelude.{
  ◌≡◌, refl, ap, ◌∙◌, ◌⊎◌, inl, inr, Bool, true, false, not, ◌||◌, List, [], ◌∷◌, if_both, if_cases,
  false≢true, if_true,
}
use east_api.Prelude.Int.{ℤ, pos, ◌-ℤ◌, eqb_ℤ}
use east_api.Store.{World, Result, ok, err}
use east_api.Billing.Session.{
  BillingSession, Outcome, settle, settle_delta, finish_settle, settle_token, pay, refund,
  needs_refund, note_delta,
}

-- The calls that the handlers make of a session.
pub data Call : Type 0 where
  settle_with : ℤ → Call
  give_up : Call

abbrev pub call : Call → BillingSession × World → BillingSession × World
call (settle_with actual) (s, w) = let (_, s', w') = settle actual s w in (s', w')
call give_up (s, w) = refund s w

-- The calls, one after another: the mutex orders them.
abbrev pub run : List Call → BillingSession × World → BillingSession × World
run [] x = x
run (c ∷ cs) x = run cs (call c x)

stops_first : (a b c : Bool) → a ≡ true → (a || b || c) ≡ true
stops_first true b c h = refl
stops_first false b c h = absurd (false≢true h)

stops_second : (a c : Bool) → (a || true || c) ≡ true
stops_second true c = refl
stops_second false c = refl

settle_ended :
    (actual : ℤ) (s : BillingSession) (w : World)
    → s.settled ≡ true
    → settle actual s w ≡ (ok tt, s, w)
unfolding settle
settle_ended actual s w e = if_true s.settled _ _ e

refund_ended : (s : BillingSession) (w : World) → s.settled ≡ true → refund s w ≡ (s, w)
unfolding refund
refund_ended s w e =
    if_true (s.settled || s.refunded || not (needs_refund s)) _ _
      (stops_first s.settled s.refunded (not (needs_refund s)) e)

call_ended : (c : Call) (s : BillingSession) (w : World) → s.settled ≡ true → call c (s, w) ≡ (s, w)
call_ended (settle_with actual) s w e = ap (λ (x : Outcome). (x.1, x.2)) (settle_ended actual s w e)
call_ended give_up s w e = refund_ended s w e

run_ended :
    (cs : List Call) (s : BillingSession) (w : World) → s.settled ≡ true → run cs (s, w) ≡ (s, w)
run_ended [] s w e = refl
run_ended (c ∷ cs) s w e = ap (run cs) (call_ended c s w e) ∙ run_ended cs s w e

-- What later calls can do after an outcome of `Settle`.
abbrev pub Final : List Call → BillingSession → Outcome → Type 0
Final cs before (ok r, s, w) = run cs (s, w) ≡ (s, w)
Final cs before (err e, s, w) = (s ≡ before) ⊎ (run cs (s, w) ≡ (s, w))

finish_settle-Final :
    (cs : List Call) (before s : BillingSession) (delta : ℤ) (w : World)
    → Final cs before (finish_settle delta s w)
unfolding finish_settle
finish_settle-Final cs before s delta w = go (settle_token s.relay_info delta w)
  where
    after : BillingSession
    after = record s {
      funding_settled = true;
      settled = true;
      relay_info = note_delta s.funding delta s.relay_info;
    }

    go : (x : Result (Unit {0}) × World) → Final cs before (x.0, after, x.1)
    go (ok r, w') = run_ended cs after w' refl
    go (err e, w') = inr (run_ended cs after w' refl)

-- After a call of Settle, either it has failed and the session is as it was, or the session has
-- ended: no further calls of Settle and Refund, in any number and order, change the session, the
-- tables or what waits for the batch updater. This holds of every session, whatever pays for it.
pub settle-Final :
    (actual : ℤ) (s : BillingSession) (w : World) (cs : List Call) → Final cs s (settle actual s w)
unfolding settle settle_delta
settle-Final actual s w cs =
    if_cases (Final cs s) s.settled (λ ended. run_ended cs s w ended)
      λ _.
        if_both (Final cs s) (eqb_ℤ (actual -ℤ s.pre_consumed_quota) (pos 0))
          (run_ended cs (record s { settled = true }) w refl)
          (go (pay (actual -ℤ s.pre_consumed_quota) s w))
  where
    go :
        (x : Result (Unit {0}) × World)
        → Final cs s (elim x.0 [
          | err e ↦ (err e, s, x.1)
          | ok _ ↦ finish_settle (actual -ℤ s.pre_consumed_quota) s x.1
        ])
    go (ok r, w') = finish_settle-Final cs s s (actual -ℤ s.pre_consumed_quota) w'
    go (err e, w') = inl refl

-- A second Refund right after a first gives nothing back, whatever the session was before.
pub refund_once :
    (s : BillingSession) (w : World) → let (s', w') = refund s w in refund s' w' ≡ (s', w')
unfolding refund
refund_once s w =
    if_cases (λ (x : BillingSession × World). refund x.0 x.1 ≡ x)
      (s.settled || s.refunded || not (needs_refund s))
      (λ idle. if_true (s.settled || s.refunded || not (needs_refund s)) _ _ idle)
      λ _.
        let s' = record s { refunded = true } in
        if_true (s.settled || true || not (needs_refund s')) _ _
          (stops_second s.settled (not (needs_refund s')))
