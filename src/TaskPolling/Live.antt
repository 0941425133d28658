-- ===== src/TaskPolling/Live.antt =====
-- The live query of a task (tryRealtimeFetch) among the pollers: what it ends, nobody bills.
use text.Mathlib.TextEquality.{eq_iff}
use east_api.Prelude.{
  ℕ, ◌≤◌, ◌≡◌, refl, ◌∙◌, ap, String, true, false, str_eq, some, if_false, arith,
}
use east_api.Store.{World}
use east_api.TaskPolling.Rows.{Row, Table, is_done, failure, swap, update_with_status}
use east_api.TaskPolling.{TaskInfo, write_back, realtime_fetch, snapshot_equal}
use east_api.TaskPolling.Steps.{Service, System, Step, Reach}
use east_api.TaskPolling.Left.{left, row_left}
use east_api.TaskPolling.Once.{
  AllFresh, Step-Fresh, Reach-Fresh, Reach-once, Step-ended_of_Fresh, has_ended, settled_or_owed,
}

-- The state after a live query of the task that `snap` was read from
abbrev pub fetched : String → TaskInfo → Row → System → System
fetched server info snap s = record s {
  rows = (write_back false (realtime_fetch server info snap) s.rows).0;
}

-- Steps of the pollers from a state on
pub data Run (service : Service) (s : System) : System → Type 0 where
  here : Run service s s
  later : {t u : System} → Run service s t → Step service t u → Run service s u

module _ {service : Service} where
  Run-ended :
      {s t : System}
      → AllFresh s
      → Run service s t
      → (k : ℕ) → service.is_suno k ≡ false
      → has_ended (s.rows k) ≡ true
      → AllFresh t × (has_ended (t.rows k) ≡ true) × (settled_or_owed k t ≤ settled_or_owed k s)
  Run-ended f here k n h = (f, h, omega arith)
  Run-ended f (later r st) k n h =
      let before = Run-ended f r k n h in
      let after = Step-ended_of_Fresh before.0 st k n before.1 in
      (Step-Fresh st before.0, after.0, omega (arith, before.2, after.1))

text_same : (s : String) → str_eq s s ≡ true
text_same s = (eq_iff s s).1 refl

swap-won :
    (from : String) (t r : Row) (rows : Table)
    → str_eq r.status from ≡ true
    → (swap from t (some r) rows).0 t.id ≡ some t
unfolding swap
swap-won from t r rows e = rw e (ground arith)

realtime_fetch-ends :
    (server : String) (info : TaskInfo) (snap : Row) (rows : Table)
    → rows snap.id ≡ some snap
    → is_done snap.status ≡ false
    → info.status ≡ failure
    → has_ended ((write_back false (realtime_fetch server info snap) rows).0 snap.id) ≡ true
unfolding realtime_fetch write_back update_with_status snapshot_equal
realtime_fetch-ends server info snap rows e u f =
    let n : str_eq snap.status failure ≡ false = ground (arith, u) in
    rw (f, n, e) (ap has_ended (swap-won snap.status _ snap rows (text_same snap.status)))

-- A live query that finds a task failed, which is not Suno's, ends it and leaves nothing due: whatever the pollers do
-- afterwards, the task that had not ended before is never refunded.
pub realtime_fetch-unpaid :
    {service : Service} {w : World} {rows : Table} {s t : System}
    → Reach service w rows s
    → (server : String) (info : TaskInfo) (snap : Row) → service.is_suno snap.id ≡ false
    → s.rows snap.id ≡ some snap
    → is_done snap.status ≡ false
    → info.status ≡ failure
    → Run service (fetched server info snap s) t
    → (has_ended (t.rows snap.id) ≡ true) × (settled_or_owed snap.id t ≡ 0)
realtime_fetch-unpaid {s} r server info snap n e u f run =
    let one : left snap.id s.rows ≡ 1 = ap row_left e ∙ if_false (is_done snap.status) 0 1 u in
    let after =
      Run-ended (Reach-Fresh r) run snap.id n (realtime_fetch-ends server info snap s.rows e u f) in
    (after.1, omega (arith, after.2, one, Reach-once r snap.id n))
