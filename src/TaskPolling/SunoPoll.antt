-- ===== src/TaskPolling/SunoPoll.antt =====
-- The poll of a Suno task, one turn of the loop of updateSunoTasks with taskNeedsUpdate. `marshal` is
-- the text of a JSON value as Go prints it, in bytes.
use east_api.Prelude.{
  ℕ, String, Bool, not, ◌&&◌, ◌||◌, some, List, [], ◌∷◌, leb, ◌==◌, str_eq, if◌then◌else◌,
}
use east_api.Prelude.Text.{is_empty_text, codes_eq}
use east_api.TaskPolling.Rows.{Row, Table, success, failure, complete, is_done, put}
use east_api.TaskPolling.{Due, nothing, refund}

-- `SunoDataResponse`
pub record SunoData : Type 0 where
  pub status : String
  pub fail_reason : String
  pub submit_time : ℕ
  pub start_time : ℕ
  pub finish_time : ℕ
  pub body : String

insert_byte : ℕ → List ℕ → List ℕ
insert_byte b [] = b ∷ []
insert_byte b (c ∷ cs) = let rest = insert_byte b cs in if leb b c then b ∷ c ∷ cs else c ∷ rest

unfoldable pub sort_bytes : List ℕ → List ℕ
unfolding insert_byte
sort_bytes [] = []
sort_bytes (b ∷ bs) = insert_byte b (sort_bytes bs)

module _ (marshal : String → List ℕ) where
  -- `taskNeedsUpdate`: the two data are compared once their bytes are sorted.
  unfoldable pub task_needs_update : Row → SunoData → Bool
  unfolding sort_bytes
  task_needs_update t new =
      not (t.submit_time == new.submit_time)
      || not (t.start_time == new.start_time)
      || not (t.finish_time == new.finish_time)
      || not (str_eq t.status new.status)
      || not (str_eq t.fail_reason new.fail_reason)
      || (is_done t.status && not (str_eq t.progress complete))
      || not (codes_eq (sort_bytes (marshal t.body)) (sort_bytes (marshal new.body)))

  abbrev pub or_old : String → String → String
  or_old new old = if is_empty_text new then old else new

  abbrev or_old_time : ℕ → ℕ → ℕ
  or_old_time new old = if new == 0 then old else new

  -- The row with what the answer says
  abbrev pub refreshed : SunoData → Row → Row
  refreshed new t = record t {
    status = or_old new.status t.status;
    fail_reason = or_old new.fail_reason t.fail_reason;
    submit_time = or_old_time new.submit_time t.submit_time;
    start_time = or_old_time new.start_time t.start_time;
    finish_time = or_old_time new.finish_time t.finish_time;
  }

  -- Whether the answer makes the task fail
  abbrev pub fails_task : SunoData → Row → Bool
  fails_task new t = not (is_empty_text new.fail_reason) || str_eq (refreshed new t).status failure

  abbrev pub saved : SunoData → Row → Row
  saved new t = record (refreshed new t) {
    progress = if fails_task new t || str_eq new.status success then complete else t.progress;
    body = new.body;
  }

  -- The row as it stands when its refund is called
  abbrev pub refunded : SunoData → Row → Row
  refunded new t = record (refreshed new t) { progress = complete }

  -- One turn of the loop: the table once the row is saved, which is not guarded, and what was billed
  unfoldable pub update_suno_task : Bool → SunoData → Row → Table → Table × Due
  unfolding task_needs_update
  update_suno_task fails new t rows =
      if task_needs_update t new
      then (
        if fails then rows else put t.id (some (saved new t)) rows,
        if fails_task new t then refund (refunded new t) else nothing,
      )
      else (rows, nothing)
