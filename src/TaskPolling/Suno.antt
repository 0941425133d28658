-- ===== src/TaskPolling/Suno.antt =====
-- What comes of the poll of a Suno task (TaskPolling/SunoPoll) beside the sweep
use text.Mathlib.TextEquality.{eq_iff}
use east_api.Prelude.{
  ℕ, ◌+◌, ◌≡◌, refl, ◌∙◌, ap, String, Bool, true, false, not, ◌&&◌, some, List, ◌==◌, str_eq,
  if◌then◌else◌, if_true, arith,
}
use east_api.Prelude.Int.{pos, eqb_ℤ}
use east_api.TaskPolling.Rows.{Row, Table, failure, is_done, put, swap, update_with_status}
use east_api.TaskPolling.{Due, nothing, refund, write_back, sweep_task, timed_out, is_legacy}
use east_api.TaskPolling.SunoPoll.{
  SunoData, task_needs_update, or_old, saved, refunded, fails_task, update_suno_task,
}
use east_api.TaskPolling.Steps.{counts}

sweep_refunds :
    (t : Row) (rows : Table) (now : ℕ) (reason legacy_reason : String)
    → rows t.id ≡ some t
    → is_legacy t ≡ false
    → eqb_ℤ t.bill.quota (pos 0) ≡ false
    → counts t.id (write_back false (sweep_task now reason legacy_reason t) rows).1 ≡ 1
unfolding write_back sweep_task update_with_status swap timed_out
sweep_refunds t rows now reason legacy_reason e l q =
    let same : str_eq t.status t.status ≡ true = (eq_iff t.status t.status).1 refl in
    let late = timed_out now reason legacy_reason t in
    let due : Due =
      if not (is_legacy t) && not (eqb_ℤ t.bill.quota (pos 0)) then refund late else nothing in
    let is_due : due ≡ refund late = if_true _ (refund late) nothing (ground (arith, l, q)) in
    ap (λ o. counts t.id (if (swap t.status late o rows).1 then due else nothing)) e
    ∙ ap (λ (x : Table × Bool). counts t.id (if x.1 then due else nothing))
        (if_true (str_eq t.status t.status) (put t.id (some late) rows, true) (rows, false) same)
    ∙ ap (counts t.id) is_due
    ∙ if_true (t.id == t.id) 1 0 (ground arith)

module _ (marshal : String → List ℕ) where
  -- A failure that was not known before
  needs_update_of_failure :
      (new : SunoData) (t : Row)
      → str_eq t.status new.status ≡ false
      → task_needs_update marshal t new ≡ true
  unfolding task_needs_update
  needs_update_of_failure new t h = ground (arith, h)

  suno_refunds :
      (fails : Bool) (new : SunoData) (t : Row) (rows : Table)
      → task_needs_update marshal t new ≡ true
      → new.status ≡ failure
      → counts t.id (update_suno_task marshal fails new t rows).1 ≡ 1
  unfolding update_suno_task
  suno_refunds fails new t rows needs f =
      let now : or_old marshal new.status t.status ≡ failure =
        ap (λ x. or_old marshal x t.status) f in
      let failing : fails_task marshal new t ≡ true =
        ground (arith, ap (λ x. str_eq x failure) now) in
      let here : (t.id == t.id) ≡ true = ground arith in
      let due =
        if_true (fails_task marshal new t) (refund (refunded marshal new t)) nothing failing in
      let turn =
        if_true (task_needs_update marshal t new)
          (
            if fails then rows else put t.id (some (saved marshal new t)) rows,
            if fails_task marshal new t then refund (refunded marshal new t) else nothing,
          )
          (rows, nothing) needs in
      ap (λ (x : Table × Due). counts t.id x.1) turn
      ∙ ap (counts t.id) due
      ∙ if_true (t.id == t.id) 1 0 here

  -- A Suno task that costs something, is not of the old system and has not ended when the sweep and
  -- a poll have both read it: if the sweep finds it late and the poll then finds it failed, each
  -- refunds it, so that it is refunded twice, whether or not the poll can save it.
  pub update_suno_task-twice :
      (t : Row) (rows : Table) (new : SunoData) (now : ℕ) (reason legacy_reason : String)
      (fails : Bool)
      → rows t.id ≡ some t
      → is_done t.status ≡ false
      → is_legacy t ≡ false
      → eqb_ℤ t.bill.quota (pos 0) ≡ false
      → new.status ≡ failure
      → counts t.id (write_back false (sweep_task now reason legacy_reason t) rows).1
          + counts t.id
              (update_suno_task marshal fails new t
                (write_back false (sweep_task now reason legacy_reason t) rows).0).1
        ≡ 2
  update_suno_task-twice t rows new now reason legacy_reason fails e u l q f =
      let known : str_eq t.status new.status ≡ false = ground (arith, u, f) in
      let needs = needs_update_of_failure new t known in
      omega (
        arith,
        sweep_refunds t rows now reason legacy_reason e l q,
        suno_refunds fails new t (write_back false (sweep_task now reason legacy_reason t) rows).0
            needs f,
      )
