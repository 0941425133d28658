-- ===== src/TaskPolling/Left.antt =====
-- What the writes of the pollers take from the tasks that have not ended, and what they make due.
use text.Mathlib.TextEquality.{eq_iff}
use east_api.Prelude.{
  ℕ, ◌+◌, ◌≤◌, ◌≡◌, refl, ◌∙◌, ap, subst, String, Bool, true, false, not, ◌&&◌, if◌then◌else◌, ◌==◌,
  str_eq, Option, none, some, if_both, if_false, Bool-cases, inl, inr, arith,
}
use east_api.Prelude.Int.{pos, eqb_ℤ}
use east_api.TaskPolling.Rows.{
  Row, Table, is_done, put, swap, update_with_status, fail_by_id, fail_row, failed,
}
use east_api.TaskPolling.{
  TaskInfo, ErrorBody, Due, nothing, refund, settle, Write, guarded, plain, skip, write_back,
  is_legacy, timed_out, sweep_task, update_video_single_task,
}
use east_api.TaskPolling.Verdict.{Owes, Verdict, update_video_single_task-Verdict}
use east_api.TaskPolling.Steps.{counts}

-- Whether the task `k` is there and has not ended, as a number
abbrev pub row_left : Option Row → ℕ
row_left none = 0
row_left (some r) = if is_done r.status then 0 else 1

abbrev pub left : ℕ → Table → ℕ
left k rows = row_left (rows k)

-- What is due belongs to the task.
abbrev Attached : Row → Due → Type 0
Attached t nothing = Unit
Attached t (refund u) = u ≡ t
Attached t (settle u info) = u ≡ t

Owes-Attached : (t : Row) (due : Due) → Owes t due → Attached t due
Owes-Attached t nothing o = tt
Owes-Attached t (refund u) o = o.0
Owes-Attached t (settle u info) o = o.0

-- The write of a poller that has read `snap`: what it makes due needs the guard and an ended task.
abbrev pub Allowed : Row → Write → Type 0
Allowed snap (guarded from t due) =
    (from ≡ snap.status) × (is_done t.status ≡ true) × Attached t due
Allowed snap (plain from t due) = (from ≡ snap.status) × (due ≡ nothing)
Allowed snap (skip due) = due ≡ nothing

Verdict-Allowed : (snap : Row) (wr : Write) → Verdict snap (some wr) → Allowed snap wr
Verdict-Allowed snap (guarded from t due) v = (v.0, v.3, Owes-Attached t due v.4)
Verdict-Allowed snap (plain from t due) v = (v.0, v.3)
Verdict-Allowed snap (skip due) v = v

pub update_video_single_task-Allowed :
    (server : String) (now : ℕ) (info : TaskInfo) (error : ErrorBody) (body : String) (snap : Row)
    (wr : Write)
    → is_done snap.status ≡ false
    → update_video_single_task server now info error body snap ≡ some wr
    → Allowed snap wr
update_video_single_task-Allowed server now info error body snap wr u e =
    Verdict-Allowed snap wr
      (subst (Verdict snap) e (update_video_single_task-Verdict server now info error body snap u))

pub sweep_task-Allowed :
    (now : ℕ) (reason legacy_reason : String) (r : Row)
    → Allowed r (sweep_task now reason legacy_reason r)
unfolding sweep_task timed_out
sweep_task-Allowed now reason legacy_reason r =
    let t = timed_out now reason legacy_reason r in
    (
      refl,
      refl,
      if_both (Attached t) (not (is_legacy r) && not (eqb_ℤ t.bill.quota (pos 0)))
          {first = refund t} {second = nothing} refl tt,
    )

counts-below :
    (k : ℕ) (t : Row) (due : Due) → Attached t due → counts k due ≤ (if t.id == k then 1 else 0)
counts-below k t nothing o = omega arith
counts-below k t (refund u) o = rw o (omega arith)
counts-below k t (settle u info) o = rw o (omega arith)

-- The status of the row before the write is that of the snapshot.
module _ (snap t : Row) (unended : is_done snap.status ≡ false) where
  was_left : (r : Row) → str_eq r.status snap.status ≡ true → row_left (some r) ≡ 1
  was_left r e =
      if_false (is_done r.status) 0 1 (ap is_done ((eq_iff r.status snap.status).0 e) ∙ unended)

  -- A guarded write that wins takes the task from unended to billed.
  guarded-left :
      (due : Due) (k : ℕ) (o : Option Row) (rows : Table)
      → rows t.id ≡ o
      → is_done t.status ≡ true
      → Attached t due
      → counts k (if (swap snap.status t o rows).1 then due else nothing)
          + left k (swap snap.status t o rows).0
        ≤ left k rows
  unfolding swap
  guarded-left due k none rows e d w = omega arith
  guarded-left due k (some r) rows e d w = elim (Bool-cases (str_eq r.status snap.status)) [
    | inr f ↦ rw f (omega arith)
    | inl f ↦
        let before : row_left (rows t.id) ≡ 1 = ap row_left e ∙ was_left r f in
        rw f (ground (arith, before, d, counts-below k t due w))
  ]

  plain-left :
      (k : ℕ) (o : Option Row) (rows : Table)
      → rows t.id ≡ o
      → left k (swap snap.status t o rows).0 ≤ left k rows
  unfolding swap
  plain-left k none rows e = omega arith
  plain-left k (some r) rows e = elim (Bool-cases (str_eq r.status snap.status)) [
    | inr f ↦ rw f (omega arith)
    | inl f ↦
        let before : row_left (rows t.id) ≡ 1 = ap row_left e ∙ was_left r f in
        rw f (ground (arith, before))
  ]

-- A write that a verdict allows adds what it makes due to no more than it takes from the unended.
pub write_back-left :
    (snap : Row) (fails : Bool) (k : ℕ) (wr : Write) (rows : Table)
    → is_done snap.status ≡ false
    → Allowed snap wr
    → counts k (write_back fails wr rows).1 + left k (write_back fails wr rows).0 ≤ left k rows
unfolding write_back update_with_status
write_back-left snap true k (guarded from t due) rows u v = omega arith
write_back-left snap true k (plain from t due) rows u v = rw v.1 (omega arith)
write_back-left snap true k (skip due) rows u v = rw v (omega arith)
write_back-left snap false k (skip due) rows u v = rw v (omega arith)
write_back-left snap false k (guarded from t due) rows u v =
    rw v.0 (guarded-left snap t u due k (rows t.id) rows refl v.1 v.2)
write_back-left snap false k (plain from t due) rows u v =
    rw (v.0, v.1) (omega (arith, plain-left snap t u k (rows t.id) rows refl))

pub fail_by_id-left :
    (j k : ℕ) (reason : Option String) (rows : Table)
    → left k (fail_by_id j reason rows) ≤ left k rows
unfolding fail_by_id
fail_by_id-left j k reason rows = go (rows j)
  where
    row_failed : (o : Option String) (r : Row) → row_left (some (failed o r)) ≡ 0
    row_failed none r = refl
    row_failed (some x) r = refl

    go : (o : Option Row) → left k (fail_row j reason o rows) ≤ left k rows
    go none = omega arith
    go (some r) = ground (arith, row_failed reason r)

-- No update removes a row.
abbrev pub there : Option Row → Bool
there none = false
there (some r) = true

pub put-there :
    (j k : ℕ) (r : Row) (rows : Table)
    → there (rows k) ≡ true
    → there (put j (some r) rows k) ≡ true
put-there j k r rows h = ground (arith, h)

swap-there :
    (from : String) (t : Row) (o : Option Row) (rows : Table) (k : ℕ)
    → there (rows k) ≡ true
    → there ((swap from t o rows).0 k) ≡ true
unfolding swap
swap-there from t none rows k h = h
swap-there from t (some r) rows k h =
    if_both (λ (x : Table × Bool). there (x.0 k) ≡ true) (str_eq r.status from)
      (put-there t.id k t rows h) h

pub write_back-there :
    (fails : Bool) (wr : Write) (rows : Table) (k : ℕ)
    → there (rows k) ≡ true
    → there ((write_back fails wr rows).0 k) ≡ true
unfolding write_back update_with_status
write_back-there true (guarded from t due) rows k h = h
write_back-there true (plain from t due) rows k h = h
write_back-there true (skip due) rows k h = h
write_back-there false (skip due) rows k h = h
write_back-there false (guarded from t due) rows k h = swap-there from t (rows t.id) rows k h
write_back-there false (plain from t due) rows k h = swap-there from t (rows t.id) rows k h

pub fail_by_id-there :
    (j k : ℕ) (reason : Option String) (rows : Table)
    → there (rows k) ≡ true
    → there (fail_by_id j reason rows k) ≡ true
unfolding fail_by_id
fail_by_id-there j k reason rows h = go (rows j)
  where
    go : (o : Option Row) → there (fail_row j reason o rows k) ≡ true
    go none = h
    go (some r) = put-there j k (failed reason r) rows h
