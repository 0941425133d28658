-- ===== src/Tests/Pollers.antt =====
-- The theorems on the pollers of tasks, applied to runs of two of them.
use east_api.Prelude.{
  ◌+◌, ◌≤◌, ◌≡◌, refl, String, true, false, none, some, [], ◌∷◌, ◌==◌, if◌then◌else◌,
}
use east_api.Prelude.Int.{pos}
use east_api.Billing.Funding.{Source}
use east_api.TaskPolling.Rows.{
  Row, Table, in_progress, failure, get_all_unfinished_sync_tasks, update_with_status, swap,
}
use east_api.TaskPolling.{
  TaskInfo, ErrorBody, nothing, refund, Write, guarded, sweep_task, is_legacy,
  update_video_single_task, write_back,
}
use east_api.TaskPolling.Bill.{Pricing}
use east_api.TaskPolling.Verdict.{Verdict, update_video_single_task-Verdict}
use east_api.TaskPolling.Steps.{
  Service, counts, Poller, System, load_unfinished, poll, Step, moves, starts, Reach, start, next,
}
use east_api.TaskPolling.Left.{left}
use east_api.TaskPolling.Once.{settled_or_owed, has_ended, Reach-once, Step-ended}
use east_api.Prelude.Text.{codes, codes_eq}
use east_api.TaskPolling.SunoPoll.{SunoData, task_needs_update, update_suno_task}
use east_api.TaskPolling.Suno.{update_suno_task-twice}
use east_api.TaskPolling.Live.{fetched, here, realtime_fetch-unpaid}
use east_api.Tests.{world}

abbrev running : Row
running = record {
  id = 2;
  task_id = "task_x";
  status = in_progress;
  progress = "30%";
  fail_reason = "";
  submit_time = 1790000000;
  start_time = 1790000060;
  finish_time = 0;
  result_url = "";
  body = "";
  per_call_billing = true;
  bill = record {
    user_id = 1;
    quota = pos 40;
    billing_source = Source.from_wallet;
    subscription_id = 0;
    token_id = 7;
  };
}

abbrev rows : Table
rows k = if k == 2 then some running else none

abbrev answer : String → TaskInfo
answer status = record {
  status = status;
  reason = "blocked";
  url = "";
  progress = "";
  total_tokens = pos 0;
}

abbrev flat : Pricing
flat = record { adjust_billing_on_complete = λ t info. pos 0; quota_of_tokens = λ t tokens. none }

-- No task is Suno's.
abbrev service : Service
service = record { pricing = flat; is_suno = λ k. false; marshal = codes }

abbrev failed : Row
failed = record running {
  status = failure;
  progress = "100%";
  fail_reason = "blocked";
  finish_time = 1790000300;
  body = "{}";
}

abbrev failing : Write
failing = guarded in_progress failed (refund failed)

-- Where a poll finds the task failed, its refund is due.
polled :
    update_video_single_task "https://east" 1790000300
      (answer failure)
      ErrorBody.unreadable
      "{}"
      running
    ≡ some failing
unfolding update_video_single_task
polled = refl

update_video_single_task-Verdict_example : Verdict running (
    update_video_single_task "https://east" 1790000300
      (answer failure)
      ErrorBody.unreadable
      "{}"
      running)
update_video_single_task-Verdict_example =
    update_video_single_task-Verdict "https://east" 1790000300 (answer failure) ErrorBody.unreadable
      "{}" running refl

abbrev waiting : Poller
waiting = record { batch = []; due = nothing }

abbrev loaded : Poller
loaded = record { batch = running ∷ []; due = nothing }

-- Two pollers have read the task; the first judges it, then the second.
abbrev both_start : System
both_start = record { world = world; rows = rows; pollers = waiting ∷ waiting ∷ []; billed = [] }

abbrev one_loaded : System
one_loaded = record both_start { pollers = loaded ∷ waiting ∷ [] }

abbrev both_loaded : System
both_loaded = record both_start { pollers = loaded ∷ loaded ∷ [] }

abbrev after_first : System
after_first = record both_start {
  rows = (write_back false failing rows).0;
  pollers = record { batch = []; due = (write_back false failing rows).1 } ∷ loaded ∷ [];
}

abbrev after_second : System
after_second = record after_first {
  rows = (write_back false failing after_first.rows).0;
  pollers =
      record { batch = []; due = (write_back false failing rows).1 }
      ∷ record { batch = []; due = (write_back false failing after_first.rows).1 }
      ∷ [];
}

first_loads : Step service both_start one_loaded
unfolding get_all_unfinished_sync_tasks
first_loads =
    moves both_start [] (waiting ∷ []) waiting loaded world rows [] refl
      (load_unfinished world rows [] 100 3)

second_loads : Step service one_loaded both_loaded
unfolding get_all_unfinished_sync_tasks
second_loads =
    moves one_loaded (loaded ∷ []) [] waiting loaded world rows [] refl
      (load_unfinished world rows [] 100 3)

first_polls : Step service both_loaded after_first
first_polls = moves both_loaded [] (loaded ∷ []) loaded _ world _ [] refl (
    poll world rows [] running [] "https://east" 1790000300 (answer failure) ErrorBody.unreadable
      "{}" false failing refl polled)

second_polls : Step service after_first after_second
second_polls =
    moves after_first (record { batch = []; due = (write_back false failing rows).1 } ∷ []) []
      loaded _ world _ [] refl
      (poll world after_first.rows [] running [] "https://east" 1790000300 (answer failure)
        ErrorBody.unreadable "{}" false failing refl polled)

loaded_both : Reach service world rows both_loaded
loaded_both = next (next (next (next start (starts _)) (starts _)) first_loads) second_loads

Reach-once_example : settled_or_owed 2 after_second + left 2 after_second.rows ≤ 1
Reach-once_example = Reach-once (next (next loaded_both first_polls) second_polls) 2 refl

first_ended : has_ended (after_first.rows 2) ≡ true
unfolding write_back update_with_status swap
first_ended = refl

-- The first poller owes the refund, the second nothing.
owed_once : settled_or_owed 2 after_second ≡ 1
unfolding write_back update_with_status swap
owed_once = refl

Step-ended_example :
    (has_ended (after_second.rows 2) ≡ true)
    × (settled_or_owed 2 after_second ≤ settled_or_owed 2 after_first)
Step-ended_example = Step-ended (next loaded_both first_polls) second_polls 2 refl first_ended

-- A live query finds the task failed before the pollers do.
abbrev queried : System
queried = fetched "https://east" (answer failure) running both_loaded

realtime_fetch-unpaid_example :
    (has_ended (queried.rows 2) ≡ true) × (settled_or_owed 2 queried ≡ 0)
realtime_fetch-unpaid_example =
    realtime_fetch-unpaid loaded_both "https://east" (answer failure) running refl refl refl refl
      here

-- The song has failed at the provider, and the task was late.
abbrev song : SunoData
song = record {
  status = failure;
  fail_reason = "moderated";
  submit_time = 1790000000;
  start_time = 1790000060;
  finish_time = 1790000400;
  body = "[]";
}

running_new : is_legacy running ≡ false
unfolding is_legacy
running_new = refl

update_suno_task-twice_example :
    counts 2 (write_back false (sweep_task 1790009000 "late" "legacy" running) rows).1
      + counts 2
          (update_suno_task codes true song running
            (write_back false (sweep_task 1790009000 "late" "legacy" running) rows).0).1
    ≡ 2
update_suno_task-twice_example =
    update_suno_task-twice codes running rows song 1790009000 "late" "legacy" true refl refl
      running_new refl refl

-- Two progresses whose texts have the same bytes are taken for the same.
unnoticed :
    task_needs_update codes
      (record running { body = "{\"progress\":12}" })
      (record {
        status = in_progress;
        fail_reason = "";
        submit_time = 1790000000;
        start_time = 1790000060;
        finish_time = 0;
        body = "{\"progress\":21}";
      })
    ≡ false
unfolding task_needs_update codes_eq
unnoticed = refl
