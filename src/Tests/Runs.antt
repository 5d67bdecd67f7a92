-- ===== src/Tests/Runs.antt =====
-- Failures, reviews and checkpoints at concrete data.
use personal_agent_runtime.Base.{
  Bool, true, ◌==◌, ◌++◌, none, some, [], ◌∷◌, ◌≡◌, ◌≢◌, refl, string_eq, option_eq,
}
use personal_agent_runtime.Base.Table.{find, update, first_by, select}
use personal_agent_runtime.Base.Text.{is_blank}
use personal_agent_runtime.Json.{arr, str, nil, cons, obj, field, end, bool}
use personal_agent_runtime.Store.{
  TaskStatus, review_pending, RunStatus, Task, Run, Db, Result, ok, raised, task_by_id,
  task_status_eq, run_status_eq, insert_event, insert_run,
}
use personal_agent_runtime.Tasks.{fail_task, is_owned_by, Completion, complete_task}
use personal_agent_runtime.Tasks.Finish.{
  Awaits, done_task, done_run, done_event, complete_task_finishes,
}
use personal_agent_runtime.Tasks.Outcomes.{FailsFor, failure_event, fail_task_any}
use personal_agent_runtime.Review.{
  Review, ReviewResult, reviewed_run, review_fields, review_task, record_review, submit_review,
}
use personal_agent_runtime.Review.Independence.{
  IsLatestWork, Settles, settled_task, critic_run, submit_review-independent,
}
use personal_agent_runtime.Checkpoints.{
  NewCheckpoint, is_active_run, new_checkpoint, write_checkpoint, latest_checkpoint,
}
use personal_agent_runtime.Checkpoints.Laws.{IsLiveOwner, IsActiveRun, write_checkpoint-ok}
use personal_agent_runtime.Tests.Data.{at, held, run_of, with_task}

held_there : task_by_id "t2" (with_task held) ≡ some held
unfolding find string_eq
held_there = refl

-- A worker that holds nothing reports a failure: the row stays, and an event says that it failed.
fail_task_any_example :
    (db : Db) × (fail_task (at "a" 50) "t2" "r1" "w2" "broken" none (with_task held) ≡ ok (tt, db))
    × ((t' : Task) × (task_by_id "t2" db ≡ some t') × FailsFor "w2" 50 held t')
    × (db.events ≡ failure_event (at "a" 50) "t2" "r1" "w2" "broken" none (with_task held) ∷ [])
unfolding find string_eq option_eq is_owned_by
fail_task_any_example =
    fail_task_any (at "a" 50) "t2" "r1" "w2" "broken" none (with_task held) held held_there refl

abbrev awaiting : Task
awaiting = record held { status = review_pending; lease_expires_at = none }

abbrev work_run : Run
work_run = record (run_of "r1" "t2") { status = RunStatus.completed; finished_at = some 40 }

abbrev awaiting_db : Db
awaiting_db = record (with_task awaiting) { runs = work_run ∷ [] }

abbrev acceptance : Review
acceptance = record {
  reviewer = "c1";
  findings = none;
  severity = "none";
  evidence_gap = none;
  recommended_action = "close";
  verdict = "accepted";
  provider = none;
  model = none;
}

submit : Result (ReviewResult × Db)
unfolding submit_review find update first_by select string_eq task_status_eq run_status_eq is_blank
    insert_event insert_run
submit = submit_review (at "v" 60) "t2" acceptance awaiting_db

reviewed_db : Db
unfolding submit
reviewed_db = elim submit [ ok (_, db) ↦ db | raised _ ↦ awaiting_db ]

review_result : ReviewResult
unfolding submit
review_result = record {
  task_id = "t2";
  run_id = "v-0";
  reviewer = "c1";
  status = TaskStatus.completed;
  review = review_fields acceptance;
}

submit_review-independent_example :
    (task : Task) × (run : Run) × (status : TaskStatus) × (task_by_id "t2" awaiting_db ≡ some task)
    × (task.status ≡ review_pending)
    × IsLatestWork "t2" awaiting_db run
    × (run.worker ≢ "c1")
    × Settles "accepted" status
    × (task_by_id "t2" reviewed_db ≡ some (settled_task 60 status task))
    × (reviewed_db.runs ≡ awaiting_db.runs ++ critic_run (at "v" 60) "t2" acceptance run.id ∷ [])
unfolding reviewed_db review_result review_task record_review reviewed_run
submit_review-independent_example =
    submit_review-independent (at "v" 60) "t2" acceptance awaiting_db reviewed_db review_result refl

abbrev steps : NewCheckpoint
steps = record {
  summary = "half way";
  completed_steps = some (arr (cons (str "read") nil));
  remaining_steps = none;
  evidence = none;
  blockers = none;
  resume_hint = none;
  metadata = none;
}

checkpointed_db : Db
unfolding write_checkpoint find string_eq option_eq task_status_eq run_status_eq is_blank
    insert_event
checkpointed_db = elim (write_checkpoint (at "c" 60) "t2" "r1" "w1" steps (with_task held)) [
  | ok (_, db) ↦ db
  | raised _ ↦ with_task held
]

write_checkpoint-ok_example :
    (t : Task) × (r : Run) × (task_by_id "t2" (with_task held) ≡ some t)
    × IsLiveOwner 60 "w1" t
    × (find (is_active_run "r1" "t2" "w1") (run_of "r1" "t2" ∷ []) ≡ some r)
    × IsActiveRun "r1" "t2" "w1" r
    × (checkpointed_db.tasks ≡ held ∷ [])
    × (checkpointed_db.runs ≡ run_of "r1" "t2" ∷ [])
    × (latest_checkpoint "t2" checkpointed_db
        ≡ some (new_checkpoint (at "c" 60) "t2" "r1" "w1" steps))
unfolding checkpointed_db
write_checkpoint-ok_example =
    write_checkpoint-ok (at "c" 60) "t2" "r1" "w1" steps (with_task held) checkpointed_db
      (new_checkpoint (at "c" 60) "t2" "r1" "w1" steps) (refl, tt) tt refl

abbrev result : Completion
result = record {
  summary = "done";
  evidence = some (arr (cons (str "report") nil));
  blockers = none;
  next_action = some "publish";
  metadata = field "model" (str "m1") end;
}

abbrev critical : Task
critical = record held { context = obj (field "requires_independent_review" (bool true) end) }

abbrev tagged_run : Run
tagged_run = record (run_of "r1" "t2") { metadata = obj (field "role" (str "worker") end) }

abbrev critical_db : Db
critical_db = record (with_task critical) { runs = tagged_run ∷ [] }

complete_task_finishes_example :
    (db : Db) × (status : TaskStatus) × (review : Bool) × (complete_task
        (at "f" 60)
        "t2"
        "r1"
        "w1"
        result
        critical_db
      ≡ ok (tt, db))
    × Awaits (field "requires_independent_review" (bool true) end) status review
    × (task_by_id "t2" db ≡ some (done_task 60 status (some "publish") critical))
    × (find (λ (x : Run). x.id == "r1") db.runs
        ≡ some (done_run 60 result (field "role" (str "worker") end) tagged_run))
    × (db.events ≡ done_event (at "f" 60) "t2" "r1" "w1" (some "publish") review ∷ [])
unfolding find string_eq
complete_task_finishes_example =
    complete_task_finishes (at "f" 60) "t2" "r1" "w1" result critical_db critical tagged_run
      (field "requires_independent_review" (bool true) end) (field "role" (str "worker") end) refl
      refl (refl, refl, refl, refl) refl refl refl
