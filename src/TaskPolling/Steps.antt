-- ===== src/TaskPolling/Steps.antt =====
-- Any number of pollers over one table of tasks, interleaved in any order: the loop TaskPollingLoop
-- of every instance, with the sweep before it and both branches of DispatchPlatformUpdate,
-- updateSunoTasks and UpdateVideoTasks. A poller holds the rows that it has read and not yet
-- judged, and what it owes since it won an update. The live queries (tryRealtimeFetch) take no part
-- in it.
use east_api.Prelude.{
  ℕ, String, Bool, true, false, ◌≡◌, Option, none, some, List, [], ◌∷◌, ◌++◌, ◌+◌, ◌==◌,
  if◌then◌else◌,
}
use east_api.Store.{World}
use east_api.TaskPolling.Rows.{
  Row, Table, put, fail_by_id, sweep_batch, get_all_unfinished_sync_tasks,
}
use east_api.TaskPolling.{
  TaskInfo, ErrorBody, Due, nothing, refund, settle, Write, write_back, sweep_task,
  update_video_single_task,
}
use east_api.TaskPolling.Bill.{Pricing, bill}
use east_api.TaskPolling.SunoPoll.{SunoData, update_suno_task}

-- `is_suno` is whether a task has the platform Suno, by its id: the platform of a task never changes.
pub record Service : Type 0 where
  pub pricing : Pricing
  pub is_suno : ℕ → Bool
  pub marshal : String → List ℕ

pub record Poller : Type 0 where
  pub batch : List Row
  pub due : Due

-- `billed` is the history of what was billed.
pub record System : Type 0 where
  pub world : World
  pub rows : Table
  pub pollers : List Poller
  pub billed : List Due

abbrev idle : Poller
idle = record { batch = []; due = nothing }

-- What is billed or owed counts once for the task that it belongs to.
abbrev pub counts : ℕ → Due → ℕ
counts k nothing = 0
counts k (refund t) = if t.id == k then 1 else 0
counts k (settle t info) = if t.id == k then 1 else 0

abbrev pub count_billed : ℕ → List Due → ℕ
count_billed k [] = 0
count_billed k (d ∷ ds) = counts k d + count_billed k ds

abbrev pub count_owed : ℕ → List Poller → ℕ
count_owed k [] = 0
count_owed k (p ∷ ps) = counts k p.due + count_owed k ps

-- One move of a poller
pub data Move (service : Service)
    : World × Table × List Due → Poller → World × Table × List Due → Poller → Type 0 where
  -- the sweep reads the tasks that are late, the poll those that are unfinished
  load_late :
      (w : World) (rows : Table) (ds : List Due) (minutes now n : ℕ)
      → Move service
          (w, rows, ds)
          idle
          (w, rows, ds)
          (record { batch = sweep_batch minutes now n rows; due = nothing })
  load_unfinished :
      (w : World) (rows : Table) (ds : List Due) (limit n : ℕ)
      → Move service
          (w, rows, ds)
          idle
          (w, rows, ds)
          (record { batch = get_all_unfinished_sync_tasks limit n rows; due = nothing })
  -- the provider cannot be reached or understood
  pass :
      (w : World) (rows : Table) (ds : List Due) (r : Row) (rest : List Row)
      → Move service
          (w, rows, ds)
          (record { batch = r ∷ rest; due = nothing })
          (w, rows, ds)
          (record { batch = rest; due = nothing })
  sweep :
      (w : World) (rows : Table) (ds : List Due) (r : Row) (rest : List Row) (now : ℕ)
      (reason legacy_reason : String) (fails : Bool)
      → Move service
          (w, rows, ds)
          (record { batch = r ∷ rest; due = nothing })
          (w, (write_back fails (sweep_task now reason legacy_reason r) rows).0, ds)
          (record {
            batch = rest;
            due = (write_back fails (sweep_task now reason legacy_reason r) rows).1;
          })
  poll :
      (w : World) (rows : Table) (ds : List Due) (r : Row) (rest : List Row) (server : String)
      (now : ℕ) (info : TaskInfo) (error : ErrorBody) (body : String) (fails : Bool) (wr : Write)
      → service.is_suno r.id ≡ false
      → update_video_single_task server now info error body r ≡ some wr
      → Move service
          (w, rows, ds)
          (record { batch = r ∷ rest; due = nothing })
          (w, (write_back fails wr rows).0, ds)
          (record { batch = rest; due = (write_back fails wr rows).1 })
  -- one turn of updateSunoTasks, which refunds a failed task before it saves the row; the two touch
  -- the row of this task and its bill alone
  poll_suno :
      (w : World) (rows : Table) (ds : List Due) (r : Row) (rest : List Row) (new : SunoData)
      (fails : Bool)
      → service.is_suno r.id ≡ true
      → Move service
          (w, rows, ds)
          (record { batch = r ∷ rest; due = nothing })
          (
            (bill service.pricing (update_suno_task service.marshal fails new r rows).1 w).1,
            (update_suno_task service.marshal fails new r rows).0,
            (update_suno_task service.marshal fails new r rows).1 ∷ ds,
          )
          (record { batch = rest; due = nothing })
  -- TaskBulkUpdateByID, for a task without an upstream id or a channel
  give_up :
      (w : World) (rows : Table) (ds : List Due) (r : Row) (rest : List Row)
      (reason : Option String)
      → Move service
          (w, rows, ds)
          (record { batch = r ∷ rest; due = nothing })
          (w, fail_by_id r.id reason rows, ds)
          (record { batch = rest; due = nothing })
  pays :
      (w : World) (rows : Table) (ds : List Due) (p : Poller)
      → Move service
          (w, rows, ds)
          p
          ((bill service.pricing p.due w).1, rows, p.due ∷ ds)
          (record { batch = p.batch; due = nothing })

pub data Step (service : Service) : System → System → Type 0 where
  moves :
      (s : System) (before after : List Poller) (p p' : Poller) (w' : World) (rows' : Table)
      (ds' : List Due)
      → s.pollers ≡ before ++ p ∷ after
      → Move service (s.world, s.rows, s.billed) p (w', rows', ds') p'
      → Step service s
          (record { world = w'; rows = rows'; pollers = before ++ p' ∷ after; billed = ds' })
  -- a new instance, or a task that is submitted under a key that was never used
  starts : (s : System) → Step service s (record s { pollers = idle ∷ s.pollers })
  inserts :
      (s : System) (t : Row)
      → s.rows t.id ≡ none
      → count_billed t.id s.billed + count_owed t.id s.pollers ≡ 0
      → Step service s (record s { rows = put t.id (some t) s.rows })

-- From a table and a world at rest
pub data Reach (service : Service) (w : World) (rows : Table) : System → Type 0 where
  start : Reach service w rows (record { world = w; rows = rows; pollers = []; billed = [] })
  next : {s t : System} → Reach service w rows s → Step service s t → Reach service w rows t
