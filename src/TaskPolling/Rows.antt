-- ===== src/TaskPolling/Rows.antt =====
-- The table of asynchronous tasks, model/task.go: its rows, the queries of the pollers, the guarded
-- update UpdateWithStatus and the unguarded TaskBulkUpdateByID.
use east_api.Prelude.{
  ℕ, zero, suc, ◌-◌, ◌*◌, String, Bool, true, false, not, ◌&&◌, ◌||◌, if◌then◌else◌, ltb, ◌==◌,
  str_eq, Option, none, some, List, [], ◌∷◌, ◌++◌,
}
use east_api.Billing.Tasks.{Task}

-- A row of the table `tasks`. `bill` holds what billing reads of it, `body` is `Data`, the redacted body of
-- the last answer.
pub record Row : Type 0 where
  pub id : ℕ
  pub task_id : String
  pub status : String
  pub progress : String
  pub fail_reason : String
  pub submit_time : ℕ
  pub start_time : ℕ
  pub finish_time : ℕ
  pub result_url : String
  pub body : String
  pub per_call_billing : Bool
  pub bill : Task

abbrev pub submitted : String
submitted = "SUBMITTED"

abbrev pub queued : String
queued = "QUEUED"

abbrev pub in_progress : String
in_progress = "IN_PROGRESS"

abbrev pub success : String
success = "SUCCESS"

abbrev pub failure : String
failure = "FAILURE"

abbrev pub complete : String
complete = "100%"

-- `isDone`
abbrev pub is_done : String → Bool
is_done status = str_eq status success || str_eq status failure

-- The table, by its primary key
abbrev pub Table : Type 0
Table = ℕ → Option Row

abbrev pub put : ℕ → Option Row → Table → Table
put k o rows j = if j == k then o else rows j

-- UPDATE of the row with a key, WHERE its status is `from`
unfoldable pub swap : String → Row → Option Row → Table → Table × Bool
swap from t none rows = (rows, false)
swap from t (some r) rows =
    if str_eq r.status from then (put t.id (some t) rows, true) else (rows, false)

-- `UpdateWithStatus`, where the statement does not fail: the table, and whether this caller won
unfoldable pub update_with_status : String → Row → Table → Table × Bool
unfolding swap
update_with_status from t rows = swap from t (rows t.id) rows

abbrev pub failed : Option String → Row → Row
failed none r = record r { status = failure; progress = complete }
failed (some reason) r = record r { status = failure; progress = complete; fail_reason = reason }

abbrev pub fail_row : ℕ → Option String → Option Row → Table → Table
fail_row k reason none rows = rows
fail_row k reason (some r) rows = put k (some (failed reason r)) rows

-- `TaskBulkUpdateByID` of one key, with the values of its three callers
unfoldable pub fail_by_id : ℕ → Option String → Table → Table
fail_by_id k reason rows = fail_row k reason (rows k) rows

-- The rows that a test accepts, in the order of their keys below `n`
unfoldable pub scan : (Row → Bool) → ℕ → Table → List Row
scan p zero rows = []
scan p (suc n) rows =
    scan p n rows ++ elim (rows n) [ none ↦ [] | some r ↦ if p r then r ∷ [] else [] ]

abbrev pub is_unfinished : Row → Bool
is_unfinished r = not (str_eq r.progress complete) && not (is_done r.status)

abbrev pub is_late : ℕ → Row → Bool
is_late cutoff r = is_unfinished r && ltb r.submit_time cutoff

unfoldable pub take {ℓ} : {A : Type ℓ} → ℕ → List A → List A
take zero xs = []
take (suc n) [] = []
take (suc n) (x ∷ xs) = x ∷ take n xs

unfoldable pub insert_by_submit : Row → List Row → List Row
insert_by_submit r [] = r ∷ []
insert_by_submit r (x ∷ xs) =
    let rest = insert_by_submit r xs in
    if ltb x.submit_time r.submit_time then x ∷ rest else r ∷ x ∷ xs

unfoldable pub sort_by_submit : List Row → List Row
unfolding insert_by_submit
sort_by_submit [] = []
sort_by_submit (x ∷ xs) = insert_by_submit x (sort_by_submit xs)

-- `GetTimedOutUnfinishedTasks` and `GetAllUnFinishSyncTasks`; `n` bounds the keys of the table.
unfoldable pub get_timed_out_unfinished_tasks : ℕ → ℕ → ℕ → Table → List Row
unfolding take sort_by_submit scan
get_timed_out_unfinished_tasks cutoff limit n rows =
    take limit (sort_by_submit (scan (is_late cutoff) n rows))

unfoldable pub get_all_unfinished_sync_tasks : ℕ → ℕ → Table → List Row
unfolding take scan
get_all_unfinished_sync_tasks limit n rows = take limit (scan is_unfinished n rows)

-- The tasks that `sweepTimedOutTasks` goes through
unfoldable pub sweep_batch : ℕ → ℕ → ℕ → Table → List Row
unfolding get_timed_out_unfinished_tasks
sweep_batch zero now n rows = []
sweep_batch (suc m) now n rows = get_timed_out_unfinished_tasks (now - suc m * 60) 100 n rows
