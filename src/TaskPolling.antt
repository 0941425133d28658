-- ===== src/TaskPolling.antt =====
-- The polling of asynchronous tasks, service/task_polling.go: what sweepTimedOutTasks,
-- updateVideoSingleTask and settleTaskBillingOnComplete make of a row, and tryRealtimeFetch of
-- relay/relay_task.go. Logs are left out.
pub mod Rows
pub mod Bill
pub mod Steps
pub mod Verdict
pub mod Batch
pub mod Left
pub mod Once
pub mod Live
pub mod Suno
pub mod SunoPoll
use text.Mathlib.Text.{starts_with}
use east_api.Prelude.{
  ℕ, zero, suc, String, Bool, true, false, not, ◌&&◌, ◌||◌, if◌then◌else◌, ltb, ◌==◌, str_eq,
  Option, none, some,
}
use east_api.Prelude.Int.{ℤ, pos, ltb_ℤ, eqb_ℤ}
use east_api.Prelude.Text.{is_empty_text, append_text}
use Rows.{
  Row, Table, submitted, queued, in_progress, success, failure, complete, is_done,
  update_with_status,
}

-- `TaskInfo`, what the adaptor reads from an answer of the provider
pub record TaskInfo : Type 0 where
  pub status : String
  pub reason : String
  pub url : String
  pub progress : String
  pub total_tokens : ℤ

-- What is left to bill once a task has ended
pub data Due : Type 0 where
  nothing : Due
  refund : Row → Due
  settle : Row → TaskInfo → Due

-- How a row is written back: with a guard whose winner alone bills, with the result of the update
-- ignored, or not at all.
pub data Write : Type 0 where
  guarded plain : String → Row → Due → Write
  skip : Due → Write

-- The write as the database answers it: the table, and what the poller then bills
unfoldable pub write_back : Bool → Write → Table → Table × Due
unfolding update_with_status
write_back true (guarded from t due) rows = (rows, nothing)
write_back true (plain from t due) rows = (rows, due)
write_back fails (skip due) rows = (rows, due)
write_back false (guarded from t due) rows =
    let (rows', won) = update_with_status from t rows in (rows', if won then due else nothing)
write_back false (plain from t due) rows = ((update_with_status from t rows).0, due)

abbrev legacy_task_cutoff : ℕ
legacy_task_cutoff = 1740182400

unfoldable pub is_legacy : Row → Bool
is_legacy r = ltb 0 r.submit_time && ltb r.submit_time legacy_task_cutoff

unfoldable pub timed_out : ℕ → String → String → Row → Row
unfolding is_legacy
timed_out now reason legacy_reason r = record r {
  status = failure;
  progress = complete;
  finish_time = now;
  fail_reason = if is_legacy r then legacy_reason else reason;
}

-- One task of `sweepTimedOutTasks`
unfoldable pub sweep_task : ℕ → String → String → Row → Write
unfolding timed_out is_legacy
sweep_task now reason legacy_reason r =
    let t = timed_out now reason legacy_reason r in
    guarded r.status t
      (if not (is_legacy r) && not (eqb_ℤ t.bill.quota (pos 0)) then refund t else nothing)

-- `BuildProxyURL`
unfoldable pub build_proxy_url : String → String → String
unfolding append_text
build_proxy_url server_address task_id =
    append_text server_address (append_text "/v1/videos/" (append_text task_id "/content"))

result_url_of : String → Row → TaskInfo → String
unfolding build_proxy_url
result_url_of server t info =
    if starts_with info.url "data:" || is_empty_text info.url
    then build_proxy_url server t.task_id
    else info.url

abbrev or_now : ℕ → ℕ → ℕ
or_now now zero = now
or_now now (suc n) = suc n

-- The row after the switch over `taskResult.Status`; `none` is the error on an unknown status.
by_status : String → ℕ → TaskInfo → Row → Option Row
unfolding result_url_of
by_status server now info t =
    if str_eq info.status submitted
    then some (record t { status = info.status; progress = "10%" })
    else if str_eq info.status queued
    then some (record t { status = info.status; progress = "20%" })
    else if str_eq info.status in_progress
    then some
        (record t { status = info.status; progress = "30%"; start_time = or_now now t.start_time })
    else if str_eq info.status success
    then some (record t {
      status = info.status;
      progress = complete;
      finish_time = or_now now t.finish_time;
      result_url = result_url_of server t info;
    })
    else if str_eq info.status failure
    then some (record t {
      status = failure;
      progress = complete;
      finish_time = or_now now t.finish_time;
      fail_reason = info.reason;
    })
    else none

-- `if taskResult.Progress != ""`; a failure has set it to `complete`.
abbrev reported_progress : TaskInfo → String
reported_progress info = if str_eq info.status failure then complete else info.progress

abbrev with_progress : TaskInfo → Row → Row
with_progress info t =
    if is_empty_text (reported_progress info)
    then t
    else record t { progress = reported_progress info }

unfoldable pub snapshot_equal : Row → Row → Bool
snapshot_equal s t =
    str_eq s.status t.status
    && str_eq s.progress t.progress
    && s.start_time == t.start_time
    && s.finish_time == t.finish_time
    && str_eq s.fail_reason t.fail_reason
    && str_eq s.result_url t.result_url
    && str_eq s.body t.body

-- `shouldSettle` and `shouldRefund`
unfoldable pub due_of : TaskInfo → Row → Due
due_of info t =
    if str_eq info.status success
    then settle t info
    else if str_eq info.status failure && not (eqb_ℤ t.bill.quota (pos 0))
    then refund t
    else nothing

-- How `updateVideoSingleTask` writes the new row over the snapshot
unfoldable pub choose_write : Row → Row → Due → Write
unfolding snapshot_equal
choose_write snap t due =
    if is_done t.status && not (str_eq snap.status t.status)
    then guarded snap.status t due
    else if snapshot_equal snap t
    then skip due
    else plain snap.status t due

-- What the body of an answer without a status says: it is not read as an error object, it is none of
-- OpenAI's, or it is one, with its code.
pub data ErrorBody : Type 0 where
  unreadable unrecognized : ErrorBody
  openai_error : String → ErrorBody

abbrev fail_task_info : String → TaskInfo
fail_task_info reason = record {
  status = failure;
  reason = reason;
  url = "";
  progress = "";
  total_tokens = pos 0;
}

-- The answer to judge, or `none` where the task is left for the next round
unfoldable pub explain_empty : TaskInfo → ErrorBody → Option TaskInfo
explain_empty info ErrorBody.unreadable = some info
explain_empty info ErrorBody.unrecognized =
    some (fail_task_info "upstream returned unrecognized message")
explain_empty info (ErrorBody.openai_error code) =
    if str_eq code "429" then none else some (fail_task_info "upstream returned error")

abbrev judge : String → ℕ → Row → TaskInfo → Row → Option Write
judge server now snap info t = elim (by_status server now info t) [
  | none ↦ none
  | some t' ↦ some (choose_write snap (with_progress info t') (due_of info (with_progress info t')))
]

-- `updateVideoSingleTask` once the answer is parsed: its body is kept; `none` is a return
-- before anything is written.
unfoldable pub update_video_single_task :
    String → ℕ → TaskInfo → ErrorBody → String → Row → Option Write
unfolding by_status due_of choose_write explain_empty
update_video_single_task server now info error body snap =
    elim (if is_empty_text info.status then explain_empty info error else some info) [
      | none ↦ none
      | some info' ↦ judge server now snap info' (record snap { body = body })
    ]

-- `tryRealtimeFetch` once the answer of the provider is parsed: nobody looks at the result of the
-- update, and nothing is billed.
unfoldable pub realtime_fetch : String → TaskInfo → Row → Write
unfolding build_proxy_url snapshot_equal
realtime_fetch server info snap =
    let status = if is_empty_text info.status then snap.status else info.status in
    let progress = if is_empty_text info.progress then snap.progress else info.progress in
    let url =
      if starts_with info.url "data:"
      then snap.result_url
      else if not (is_empty_text info.url)
      then info.url
      else if str_eq status success
      then build_proxy_url server snap.task_id
      else snap.result_url in
    let t = record snap { status = status; progress = progress; result_url = url } in
    if snapshot_equal snap t then skip nothing else plain snap.status t nothing
