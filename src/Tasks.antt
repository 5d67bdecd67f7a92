-- ===== src/Tasks.antt =====
-- The task lifecycle of par/db.py. Each function is one transaction.
pub mod Effects
pub mod Claims
pub mod Queue
pub mod Outcomes
pub mod Finish
use personal_agent_runtime.Base.{
  ℕ, ℤ, pos, negsuc, String, Bool, true, false, Option, none, some, List, [], ◌∷◌, ◌++◌, ◌==◌,
  string_eq, option_eq, contains, if◌then◌else◌, not, ◌&&◌, ◌||◌, ◌+◌, ltb, leb, is_some, length,
  is_one, ◌<>◌,
}
use personal_agent_runtime.Base.Int.{fits_sqlite, ltb_ℤ, leb_ℤ}
use personal_agent_runtime.Base.Text.{is_blank}
use personal_agent_runtime.Base.Table.{select, find, first_by, sort_by}
use personal_agent_runtime.Json.{
  Json, null, bool, int, str, arr, nil, obj, Fields, object, merge, truthy_at, or_default, opt_str,
  field,
}
use personal_agent_runtime.Store.{
  TaskStatus, pending, claimed, review_pending, dead_letter, RunStatus, running, task_status_eq,
  Task, Run, Event, Artifact, Db, Error, value_error, key_error, runtime_error, type_error,
  attribute_error, overflow_error, integrity_error, Result, ok, raised, M, ◌>>=◌, ◌>>◌, pure, raise,
  gets, or_raise, lift, raise_unless, Call, plus_minutes, task_by_id, update_tasks, update_runs,
  insert_run, insert_event,
}

abbrev pub role_values : List String
role_values = "orchestrator" ∷ "worker" ∷ "critic" ∷ "auditor" ∷ []

-- `lease_expires_at IS NOT NULL AND lease_expires_at < ts`
abbrev pub lease_expired : ℕ → Task → Bool
lease_expired ts t = elim t.lease_expires_at [ none ↦ false | some e ↦ ltb e ts ]

-- The condition of `next_task`, and the last part of that of `claim_task`
unfoldable pub is_claimable : ℕ → Task → Bool
is_claimable ts t = t.status == pending || (t.status == claimed && lease_expired ts t)

abbrev pub checked_max_attempts : ℤ → Result ℕ
checked_max_attempts (negsuc _) = raised (value_error "max_attempts must be at least 1")
checked_max_attempts (pos n) =
    if ltb n 1 then raised (value_error "max_attempts must be at least 1") else ok n

-- The arguments of `create_task`. (`context or {}` makes no difference of None and `{}`.)
pub record NewTask : Type 0 where
  pub goal : String
  pub repo : Option String
  pub mode : String
  pub context : Fields
  pub priority : ℤ
  pub idempotency_key : Option String
  pub max_attempts : ℤ
  pub actor : String

-- The row that the INSERT of `create_task` writes
abbrev pub new_row : Call → NewTask → ℕ → Task
new_row c n max = record {
  id = c.uuid 0;
  goal = n.goal;
  idempotency_key = n.idempotency_key;
  status = pending;
  repo = n.repo;
  mode = n.mode;
  context = obj n.context;
  priority = n.priority;
  claimed_by = none;
  lease_expires_at = none;
  next_action = none;
  attempt_count = 0;
  max_attempts = max;
  created_at = c.now;
  updated_at = c.now;
}

-- `SELECT * FROM tasks WHERE idempotency_key=?`
abbrev pub task_by_key : String → Db → Option Task
task_by_key key db = find (λ t. t.idempotency_key == some key) db.tasks

abbrev add_task : Task → M (Unit {0})
add_task t db = ok (tt, record db { tasks = db.tasks ++ (t ∷ []) })

-- The new row, its `task.created` event, and the row as it is read back.
unfoldable pub store_task : Call → NewTask → Task → M Task
unfolding insert_event
store_task c n t = do
  add_task t
  insert_event (c.uuid 1) t.id "task.created" (some n.actor) t.context c.now
  row ← gets (task_by_id t.id)
  or_raise row type_error

-- `INSERT OR IGNORE` under a key, or `INSERT` without one
unfoldable pub insert_task : Call → NewTask → Task → Option String → M Task
unfolding store_task
insert_task c n t none db =
    if is_some (task_by_id t.id db) then raised integrity_error else store_task c n t db
insert_task c n t (some key) db = elim (task_by_key key db) [
  | some row ↦ ok (row, db)
  | none ↦
      if is_some (task_by_id t.id db)
      then raised (runtime_error "idempotent task insert was ignored without an existing task")
      else store_task c n t db
]

abbrev pub key_is_blank : Option String → Bool
key_is_blank none = false
key_is_blank (some key) = is_blank key

unfoldable pub create_task : Call → NewTask → M Task
create_task c n = do
  raise_unless (not (key_is_blank n.idempotency_key))
      (value_error "idempotency_key must be non-empty when provided")
  max ← lift (checked_max_attempts n.max_attempts)
  raise_unless (not (is_blank n.actor)) (value_error "actor must be non-empty")
  raise_unless (fits_sqlite n.priority && fits_sqlite n.max_attempts) overflow_error
  insert_task c n (new_row c n max) n.idempotency_key

-- `ORDER BY priority ASC, created_at ASC`
unfoldable pub is_before : Task → Task → Bool
is_before s t =
    ltb_ℤ s.priority t.priority || (leb_ℤ s.priority t.priority && ltb s.created_at t.created_at)

unfoldable pub next_task : ℕ → Db → Option Task
next_task ts db = first_by is_before (select (is_claimable ts) db.tasks)

-- A timestamp in a payload
abbrev pub timestamp : ℕ → Json
timestamp t = int (pos t)

-- The WHERE of the UPDATE in `claim_task`
unfoldable pub may_claim : ℕ → String → Task → Bool
unfolding is_claimable
may_claim ts task_id t =
    t.id == task_id && (ltb t.attempt_count t.max_attempts && is_claimable ts t)

-- Its SET
abbrev pub claimed_row : ℕ → ℕ → String → Task → Task
claimed_row ts expires worker t = record t {
  status = claimed;
  claimed_by = some worker;
  lease_expires_at = some expires;
  attempt_count = t.attempt_count + 1;
  updated_at = ts;
}

abbrev pub new_run : Call → String → String → Json → Run
new_run c task_id worker metadata = record {
  id = c.uuid 0;
  task_id = task_id;
  worker = worker;
  status = running;
  summary = none;
  evidence = arr nil;
  blockers = arr nil;
  metadata = metadata;
  started_at = c.now;
  finished_at = none;
}

-- The claimed row, with the id of the new run.
unfoldable pub claim_task :
    Call → String → String → ℤ → String → Option String → Option String → M (Task × String)
unfolding may_claim insert_run insert_event plus_minutes
claim_task c task_id worker lease_minutes role provider model = do
  raise_unless (contains role_values role) (value_error ("invalid role: " <> role))
  expires ← lift (plus_minutes c.now lease_minutes)
  let who = ("role", str role) ∷ ("provider", opt_str provider) ∷ ("model", opt_str model) ∷ []
  rowcount ← update_tasks (may_claim c.now task_id) (claimed_row c.now expires worker)
  raise_unless (is_one rowcount)
      (runtime_error "task is not claimable or retry budget is exhausted")
  insert_run (new_run c task_id worker (object who))
  insert_event (c.uuid 1) task_id "task.claimed" (some worker)
      (object (("run_id", str (c.uuid 0)) ∷ ("lease_expires_at", timestamp expires) ∷ who)) c.now
  row ← gets (task_by_id task_id)
  task ← or_raise row type_error
  pure (task, c.uuid 0)

-- The WHERE of `heartbeat`
unfoldable pub is_held_by : String → String → Task → Bool
is_held_by task_id worker t =
    t.id == task_id && (t.status == claimed && t.claimed_by == some worker)

unfoldable pub heartbeat : Call → String → String → ℤ → M (Unit {0})
unfolding is_held_by plus_minutes
heartbeat c task_id worker lease_minutes = do
  expires ← lift (plus_minutes c.now lease_minutes)
  rowcount ←
      update_tasks (is_held_by task_id worker)
        (λ t. record t { lease_expires_at = some expires; updated_at = c.now })
  raise_unless (is_one rowcount) (runtime_error "task is not owned by this worker")

abbrev pub has_id : String → Task → Bool
has_id task_id t = t.id == task_id

-- The status that `retry_task` gives to a failed task
abbrev pub status_after_retry : Task → TaskStatus
status_after_retry t = if leb t.max_attempts t.attempt_count then dead_letter else pending

-- Its SET
abbrev pub retried_row : ℕ → Task → Task → Task
retried_row ts read t = record t {
  status = status_after_retry read;
  claimed_by = none;
  lease_expires_at = none;
  updated_at = ts;
}

-- What `retry_task` writes once the row that it read has passed its checks. The UPDATE does not
-- look at the status again.
unfoldable pub requeue : Call → String → String → Task → M Task
unfolding insert_event
requeue c task_id actor task = do
  rowcount ← update_tasks (has_id task_id) (retried_row c.now task)
  insert_event (c.uuid 0) task_id
      (if leb task.max_attempts task.attempt_count
        then "task.dead_lettered"
        else "task.retry_queued")
      (some actor)
      (object (
        ("attempt_count", int (pos task.attempt_count))
        ∷ ("max_attempts", int (pos task.max_attempts))
        ∷ []))
      c.now
  row' ← gets (task_by_id task_id)
  or_raise row' type_error

unfoldable pub retry_task : Call → String → String → M Task
unfolding requeue
retry_task c task_id actor db = elim (task_by_id task_id db) [
  | none ↦ raised (key_error task_id)
  | some task ↦
      if task.status == TaskStatus.failed
      then requeue c task_id actor task db
      else raised (runtime_error "only failed tasks can be retried")
]

-- `WHERE id=? AND task_id=? AND worker=?` on the runs
unfoldable pub is_run_of : String → String → String → Run → Bool
is_run_of run_id task_id worker r = r.id == run_id && (r.task_id == task_id && r.worker == worker)

-- `WHERE id=? AND claimed_by=?` on the tasks, whatever the status
unfoldable pub is_owned_by : String → String → Task → Bool
is_owned_by task_id worker t = t.id == task_id && t.claimed_by == some worker

-- The dict that `.get` is called on; other JSON has no such attribute.
abbrev pub members : Json → Result Fields
members (obj d) = ok d
members _ = raised attribute_error

-- The dict that `{**existing}` spreads; other JSON cannot be spread.
abbrev pub spread_members : Json → Result Fields
spread_members (obj d) = ok d
spread_members _ = raised type_error

-- What `complete_task` is given beside the three identities
pub record Completion : Type 0 where
  pub summary : String
  pub evidence : Option Json
  pub blockers : Option Json
  pub next_action : Option String
  pub metadata : Fields

abbrev pub completed_run : ℕ → Completion → Fields → Run → Run
completed_run ts d metadata r = record r {
  status = RunStatus.completed;
  summary = some d.summary;
  evidence = or_default d.evidence (arr nil);
  blockers = or_default d.blockers (arr nil);
  metadata = obj metadata;
  finished_at = some ts;
}

abbrev pub requires_review : Fields → Bool
requires_review = truthy_at "requires_independent_review"

abbrev pub status_after_completion : Fields → TaskStatus
status_after_completion context =
    if requires_review context then review_pending else TaskStatus.completed

-- `task["status"] == "claimed" and task["claimed_by"] == worker`, of the row that was read
abbrev pub owned_row : String → Option Task → Option Task
owned_row worker none = none
owned_row worker (some t) =
    if t.status == claimed && t.claimed_by == some worker then some t else none

unfoldable pub complete_task : Call → String → String → String → Completion → M (Unit {0})
unfolding is_run_of is_owned_by insert_event
complete_task c task_id run_id worker d = do
  row ← gets (task_by_id task_id)
  task ← or_raise (owned_row worker row) (runtime_error "task is not owned by this worker")
  found ← gets (λ db. find (is_run_of run_id task_id worker) db.runs)
  run ← or_raise found (runtime_error "run does not belong to this worker/task")
  existing ← lift (spread_members run.metadata)
  runs_changed ←
      update_runs (is_run_of run_id task_id worker)
        (completed_run c.now d (merge existing d.metadata))
  context ← lift (members task.context)
  rowcount ← update_tasks (is_owned_by task_id worker) (λ t. record t {
    status = status_after_completion context;
    next_action = d.next_action;
    lease_expires_at = none;
    updated_at = c.now;
  })
  insert_event (c.uuid 0) task_id
      (if requires_review context then "task.review_requested" else "task.completed") (some worker)
      (object (
        ("run_id", str run_id)
        ∷ ("next_action", opt_str d.next_action)
        ∷ ("requires_independent_review", bool (requires_review context))
        ∷ []))
      c.now

abbrev pub failed_run : ℕ → String → Option Json → Run → Run
failed_run ts summary blockers r = record r {
  status = RunStatus.failed;
  summary = some summary;
  blockers = or_default blockers (arr nil);
  finished_at = some ts;
}

unfoldable pub fail_task : Call → String → String → String → String → Option Json → M (Unit {0})
unfolding is_run_of is_owned_by insert_event
fail_task c task_id run_id worker summary blockers = do
  runs_changed ← update_runs (is_run_of run_id task_id worker) (failed_run c.now summary blockers)
  rowcount ←
      update_tasks (is_owned_by task_id worker)
        (λ t. record t { status = TaskStatus.failed; lease_expires_at = none; updated_at = c.now })
  insert_event (c.uuid 0) task_id "task.failed" (some worker) (object (("run_id", str run_id) ∷ []))
      c.now

-- `get_task`: the row with its runs, events and artifacts, each in order of time.
pub record TaskView : Type 0 where
  pub task : Task
  pub runs : List Run
  pub events : List Event
  pub artifacts : List Artifact

unfoldable pub get_task : String → Db → Option TaskView
get_task task_id db = elim (task_by_id task_id db) [
  | none ↦ none
  | some t ↦ some (record {
    task = t;
    runs = sort_by (λ r. r.started_at) (select (λ r. r.task_id == task_id) db.runs);
    events = sort_by (λ e. e.created_at) (select (λ e. e.task_id == some task_id) db.events);
    artifacts = sort_by (λ a. a.created_at) (select (λ a. a.task_id == task_id) db.artifacts);
  })
]
