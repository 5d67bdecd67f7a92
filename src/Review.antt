-- ===== src/Review.antt =====
-- Independent review: par/review.py, one transaction.
pub mod Effects
pub mod Independence
use personal_agent_runtime.Base.{
  ℕ, String, ◌<>◌, Bool, true, false, Option, none, some, List, [], ◌∷◌, ◌==◌, string_eq, contains,
  if◌then◌else◌, not, ◌&&◌, ltb, pos,
}
use personal_agent_runtime.Base.Text.{is_blank}
use personal_agent_runtime.Base.Table.{select, first_by}
use personal_agent_runtime.Json.{
  Json, null, int, str, arr, nil, Fields, object, field, fields, or_default, opt_str, obj,
}
use personal_agent_runtime.Store.{
  TaskStatus, review_pending, review_rejected, RunStatus, task_status_eq, run_status_eq, Task, Run,
  Db, value_error, key_error, runtime_error, Result, ok, raised, M, ◌>>=◌, ◌>>◌, pure, gets,
  or_raise, raise_unless, Call, task_by_id, update_tasks, insert_run, insert_event,
}
use personal_agent_runtime.Tasks.{has_id}

abbrev pub severities : List String
severities = "none" ∷ "low" ∷ "medium" ∷ "high" ∷ "critical" ∷ []

abbrev pub verdicts : List String
verdicts = "accepted" ∷ "rejected" ∷ []

-- The arguments of `submit_review` beside the task
pub record Review : Type 0 where
  pub reviewer : String
  pub findings : Option Json
  pub severity : String
  pub evidence_gap : Option Json
  pub recommended_action : String
  pub verdict : String
  pub provider : Option String
  pub model : Option String

-- The dict `review`
abbrev pub review_fields : Review → Fields
review_fields v = fields (
    ("findings", or_default v.findings (arr nil))
    ∷ ("severity", str v.severity)
    ∷ ("evidence_gap", or_default v.evidence_gap (arr nil))
    ∷ ("recommended_action", str v.recommended_action)
    ∷ ("verdict", str v.verdict)
    ∷ [])

-- `ORDER BY started_at DESC`
abbrev pub started_later : Run → Run → Bool
started_later r s = ltb s.started_at r.started_at

abbrev pub is_completed_run : String → Run → Bool
is_completed_run task_id r = r.task_id == task_id && r.status == RunStatus.completed

-- The latest completed run of the task
unfoldable pub reviewed_run : String → Db → Option Run
reviewed_run task_id db = first_by started_later (select (is_completed_run task_id) db.runs)

abbrev pub review_run : Call → String → Review → Run → Run
review_run c task_id v worker_run = record {
  id = c.uuid 0;
  task_id = task_id;
  worker = v.reviewer;
  status = RunStatus.completed;
  summary = some ("Independent critic review: " <> v.verdict);
  evidence = arr nil;
  blockers = arr nil;
  metadata = object (
      ("role", str "critic")
      ∷ ("provider", opt_str v.provider)
      ∷ ("model", opt_str v.model)
      ∷ ("cost_usd", int (pos 0))
      ∷ ("review", obj (review_fields v))
      ∷ ("reviewed_run_id", str worker_run.id)
      ∷ []);
  started_at = c.now;
  finished_at = some c.now;
}

abbrev pub status_after_review : String → TaskStatus
status_after_review verdict =
    if verdict == "accepted" then TaskStatus.completed else review_rejected

abbrev pub reviewed_row : ℕ → String → Task → Task
reviewed_row ts verdict t = record t {
  status = status_after_review verdict;
  claimed_by = none;
  lease_expires_at = none;
  updated_at = ts;
}

-- The parts of the result that are not constants
pub record ReviewResult : Type 0 where
  pub task_id : String
  pub run_id : String
  pub reviewer : String
  pub status : TaskStatus
  pub review : Fields

-- The writes, once the checks on the task and on its completed run are passed
unfoldable pub record_review : Call → String → Review → Run → M ReviewResult
unfolding insert_run insert_event
record_review c task_id v worker_run = do
  insert_run (review_run c task_id v worker_run)
  insert_event (c.uuid 1) task_id "review.submitted" (some v.reviewer)
      (obj (field "run_id" (str (c.uuid 0)) (review_fields v))) c.now
  rowcount ← update_tasks (has_id task_id) (reviewed_row c.now v.verdict)
  insert_event (c.uuid 2) task_id
      (if v.verdict == "accepted" then "task.completed" else "task.review_rejected")
      (some v.reviewer)
      (object (("review_run_id", str (c.uuid 0)) ∷ ("verdict", str v.verdict) ∷ [])) c.now
  pure (record {
    task_id = task_id;
    run_id = c.uuid 0;
    reviewer = v.reviewer;
    status = status_after_review v.verdict;
    review = review_fields v;
  })

-- The checks on the stored rows
unfoldable pub review_task : Call → String → Review → Task → M ReviewResult
review_task c task_id v task db =
    if task.status == review_pending
    then elim (reviewed_run task_id db) [
      | none ↦ raised (runtime_error "review_pending task has no completed worker run")
      | some run ↦
          if run.worker == v.reviewer
          then raised (runtime_error "independent reviewer must use a different worker identity")
          else record_review c task_id v run db
    ]
    else raised (runtime_error "task is not awaiting independent review")

unfoldable pub submit_review : Call → String → Review → M ReviewResult
submit_review c task_id v = do
  raise_unless (not (is_blank v.reviewer)) (value_error "reviewer is required")
  raise_unless (contains severities v.severity) (value_error ("invalid severity: " <> v.severity))
  raise_unless (contains verdicts v.verdict) (value_error ("invalid verdict: " <> v.verdict))
  row ← gets (task_by_id task_id)
  task ← or_raise row (key_error task_id)
  review_task c task_id v task
