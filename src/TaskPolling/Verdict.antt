-- ===== src/TaskPolling/Verdict.antt =====
-- What one turn of a poller makes of a task that has not ended when it is read.
use text.Mathlib.TextEquality.{eq_iff}
use east_api.Prelude.{
  ℕ, ◌≡◌, refl, sym, ◌∙◌, ap, String, true, false, not, ◌&&◌, if◌then◌else◌, str_eq, Option, none,
  some, if_both, if_cases, Bool-cases, inl, inr, arith, false≢true,
}
use east_api.Prelude.Int.{pos, eqb_ℤ}
use east_api.Prelude.Text.{is_empty_text}
use east_api.TaskPolling.Rows.{Row, submitted, queued, in_progress, success, failure, is_done}
use east_api.TaskPolling.{
  TaskInfo, ErrorBody, Due, nothing, refund, settle, Write, guarded, plain, skip, by_status,
  with_progress, due_of, choose_write, snapshot_equal, explain_empty, judge,
  update_video_single_task,
}

-- What a task that has ended owes: a failure its refund, unless it was free, a success its
-- settlement.
abbrev pub Owes : Row → Due → Type 0
Owes t nothing = (str_eq t.status failure ≡ true) × (eqb_ℤ t.bill.quota (pos 0) ≡ true)
Owes t (refund u) = (u ≡ t) × (str_eq t.status failure ≡ true)
Owes t (settle u info) = (u ≡ t) × (str_eq t.status success ≡ true)

-- Only a guarded write ends a task and bills it.
abbrev pub Verdict : Row → Option Write → Type 0
Verdict snap none = Unit
Verdict snap (some (guarded from t due)) =
    (from ≡ snap.status)
    × (t.id ≡ snap.id)
    × (t.bill ≡ snap.bill)
    × (is_done t.status ≡ true)
    × Owes t due
Verdict snap (some (plain from t due)) =
    (from ≡ snap.status) × (t.id ≡ snap.id) × (is_done t.status ≡ false) × (due ≡ nothing)
Verdict snap (some (skip due)) = due ≡ nothing

same_text : (s t : String) → str_eq s t ≡ true → s ≡ t
same_text s t h = (eq_iff s t).0 h

module _ (info : TaskInfo) (t : Row) where
  -- The row keeps its key and what billing reads, and has the status of the answer.
  abbrev Shaped : Option Row → Type 0
  Shaped none = Unit
  Shaped (some t') = (t'.id ≡ t.id) × (t'.bill ≡ t.bill) × (t'.status ≡ info.status)

  by_status-Shaped : (server : String) (now : ℕ) → Shaped (by_status server now info t)
  unfolding by_status
  by_status-Shaped server now =
      if_both Shaped (str_eq info.status submitted) (refl, refl, refl)
        (if_both Shaped (str_eq info.status queued) (refl, refl, refl)
          (if_both Shaped (str_eq info.status in_progress) (refl, refl, refl)
            (if_both Shaped (str_eq info.status success) (refl, refl, refl)
              (if_cases Shaped (str_eq info.status failure)
                (λ e. (refl, refl, sym (same_text info.status failure e))) (λ e. tt)))))

  with_progress-Shaped : (t' : Row) → Shaped (some t') → Shaped (some (with_progress info t'))
  with_progress-Shaped t' h = if_both (λ u. Shaped (some u)) _ h h

module _ (info : TaskInfo) (snap t : Row) where
  due_of-Owes : t.status ≡ info.status → is_done t.status ≡ true → Owes t (due_of info t)
  unfolding due_of
  due_of-Owes e d =
      if_cases (Owes t) (str_eq info.status success) (λ s. (refl, rw e s))
        λ s.
          let f : str_eq info.status failure ≡ true = ground (arith, e) in
          elim (Bool-cases (eqb_ℤ t.bill.quota (pos 0))) [
            | inl z ↦ rw (f, z) (rw e f, z)
            | inr z ↦ rw (f, z) (refl, rw e f)
          ]

  due_of-nothing : is_done info.status ≡ false → due_of info t ≡ nothing
  unfolding due_of
  due_of-nothing d =
      let s : str_eq info.status success ≡ false = ground (arith, d) in
      let f : str_eq info.status failure ≡ false = ground (arith, d) in rw (s, f) refl

  -- A change of status ends the task; without one, a task that had not ended has not ended.
  choose_write-Verdict :
      is_done snap.status ≡ false
      → t.id ≡ snap.id
      → t.bill ≡ snap.bill
      → t.status ≡ info.status
      → Verdict snap (some (choose_write snap t (due_of info t)))
  unfolding choose_write
  choose_write-Verdict unended i b e =
      if_cases (λ w. Verdict snap (some w)) (is_done t.status && not (str_eq snap.status t.status))
        (λ h. let d : is_done t.status ≡ true = ground arith in (refl, i, b, d, due_of-Owes e d))
        λ h.
          let d : is_done t.status ≡ false = elim (Bool-cases (is_done t.status)) [
            | inr f ↦ f
            | inl f ↦
                let s : str_eq snap.status t.status ≡ true = ground (arith, h, f) in
                absurd
                  (false≢true (sym unended ∙ ap is_done (same_text snap.status t.status s) ∙ f))
          ] in
          let n : due_of info t ≡ nothing = due_of-nothing (sym (ap is_done e) ∙ d) in
          if_both (λ w. Verdict snap (some w)) (snapshot_equal snap t) n (refl, i, d, n)

judge-Verdict :
    (server : String) (now : ℕ) (snap : Row) (info : TaskInfo) (t : Row)
    → is_done snap.status ≡ false
    → t.id ≡ snap.id
    → t.bill ≡ snap.bill
    → Verdict snap (judge server now snap info t)
judge-Verdict server now snap info t unended i b =
    go (by_status server now info t) (by_status-Shaped info t server now)
  where
    go :
        (o : Option Row)
        → Shaped info t o
        → Verdict snap (elim o [
          | none ↦ none
          | some t' ↦
              some (choose_write snap (with_progress info t') (due_of info (with_progress info t')))
        ])
    go none h = tt
    go (some t') h =
        let k = with_progress-Shaped info t t' h in
        choose_write-Verdict info snap (with_progress info t') unended (k.0 ∙ i) (k.1 ∙ b) k.2

-- A poll of a task that has not ended writes nothing, or writes under the guard of the status it
-- has read: where the new row has ended, the write bills the winner alone, a failure that cost
-- something with its refund and a success with its settlement; where it has not, nothing is billed.
pub update_video_single_task-Verdict :
    (server : String) (now : ℕ) (info : TaskInfo) (error : ErrorBody) (body : String) (snap : Row)
    → is_done snap.status ≡ false
    → Verdict snap (update_video_single_task server now info error body snap)
unfolding update_video_single_task
update_video_single_task-Verdict server now info error body snap unended =
    go (if is_empty_text info.status then explain_empty info error else some info)
  where
    go :
        (o : Option TaskInfo)
        → Verdict snap (elim o [
          | none ↦ none
          | some info' ↦ judge server now snap info' (record snap { body = body })
        ])
    go none = tt
    go (some info') =
        judge-Verdict server now snap info' (record snap { body = body }) unended refl refl
