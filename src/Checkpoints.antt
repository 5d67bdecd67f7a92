-- ===== src/Checkpoints.antt =====
-- Checkpoints of a running task: par/checkpoint.py.
pub mod Laws
use personal_agent_runtime.Base.{
  ℕ, String, Bool, true, false, Option, none, some, List, [], ◌∷◌, ◌++◌, ◌==◌, string_eq, option_eq,
  if◌then◌else◌, not, ◌&&◌, ltb, is_some,
}
use personal_agent_runtime.Base.Text.{is_blank}
use personal_agent_runtime.Base.Table.{select, find}
use personal_agent_runtime.Json.{Json, null, str, arr, obj, nil, end, opt_str, or_default, object}
use personal_agent_runtime.Store.{
  claimed, running, task_status_eq, run_status_eq, Task, Run, Checkpoint, Db, Error, value_error,
  key_error, runtime_error, integrity_error, Result, ok, raised, Call, task_by_id, insert_event,
}

-- The arguments of `write_checkpoint` beside the three identities
pub record NewCheckpoint : Type 0 where
  pub summary : String
  pub completed_steps : Option Json
  pub remaining_steps : Option Json
  pub evidence : Option Json
  pub blockers : Option Json
  pub resume_hint : Option String
  pub metadata : Option Json

-- `value is not None and not isinstance(value, list)`, negated
abbrev pub is_list : Option Json → Bool
is_list none = true
is_list (some (arr _)) = true
is_list (some _) = false

abbrev pub is_dict : Option Json → Bool
is_dict none = true
is_dict (some (obj _)) = true
is_dict (some _) = false

-- `_validate_shapes`: the first error that it raises, if any
unfoldable pub shape_error : NewCheckpoint → Option Error
shape_error n =
    if not (is_list n.completed_steps)
    then some (value_error "completed_steps must be a list")
    else if not (is_list n.remaining_steps)
    then some (value_error "remaining_steps must be a list")
    else if not (is_list n.evidence)
    then some (value_error "evidence must be a list")
    else if not (is_list n.blockers)
    then some (value_error "blockers must be a list")
    else if not (is_dict n.metadata)
    then some (value_error "metadata must be an object")
    else none

abbrev pub new_checkpoint : Call → String → String → String → NewCheckpoint → Checkpoint
new_checkpoint c task_id run_id worker n = record {
  id = c.uuid 0;
  task_id = task_id;
  run_id = run_id;
  worker = worker;
  summary = n.summary;
  completed_steps = or_default n.completed_steps (arr nil);
  remaining_steps = or_default n.remaining_steps (arr nil);
  evidence = or_default n.evidence (arr nil);
  blockers = or_default n.blockers (arr nil);
  resume_hint = n.resume_hint;
  metadata = or_default n.metadata (obj end);
  created_at = c.now;
}

abbrev pub checkpoint_payload : Call → String → NewCheckpoint → Json
checkpoint_payload c run_id n = object (
    ("checkpoint_id", str (c.uuid 0))
    ∷ ("run_id", str run_id)
    ∷ ("summary", str n.summary)
    ∷ ("completed_steps", or_default n.completed_steps (arr nil))
    ∷ ("remaining_steps", or_default n.remaining_steps (arr nil))
    ∷ ("evidence", or_default n.evidence (arr nil))
    ∷ ("blockers", or_default n.blockers (arr nil))
    ∷ ("resume_hint", opt_str n.resume_hint)
    ∷ ("metadata", or_default n.metadata (obj end))
    ∷ [])

-- `lease_expires_at IS NOT NULL AND lease_expires_at>?`
abbrev pub lease_after : ℕ → Task → Bool
lease_after ts t = elim t.lease_expires_at [ none ↦ false | some e ↦ ltb ts e ]

-- The WHERE of the two SELECTs that check the ownership, under the write lock
unfoldable pub is_active_owner : ℕ → String → String → Task → Bool
is_active_owner ts task_id worker t =
    t.id == task_id && (t.status == claimed && (t.claimed_by == some worker && lease_after ts t))

unfoldable pub is_active_run : String → String → String → Run → Bool
is_active_run run_id task_id worker r =
    r.id == run_id && (r.task_id == task_id && (r.worker == worker && r.status == running))

-- The two INSERTs
unfoldable pub store_checkpoint :
    Call → String → String → String → NewCheckpoint → Db → Result (Checkpoint × Db)
unfolding insert_event
store_checkpoint c task_id run_id worker n db =
    if is_some (find (λ k. k.id == c.uuid 0) db.checkpoints)
    then raised integrity_error
    else elim (insert_event (c.uuid 1) task_id "task.checkpointed" (some worker)
        (checkpoint_payload c run_id n) c.now
        (record db {
          checkpoints = db.checkpoints ++ new_checkpoint c task_id run_id worker n ∷ [];
        })) [
          | raised e ↦ raised e
          | ok (_, db') ↦ ok (new_checkpoint c task_id run_id worker n, db')
        ]

-- The checks of the ownership, and the INSERTs
unfoldable pub checkpoint_owned :
    Call → String → String → String → NewCheckpoint → Db → Result (Checkpoint × Db)
unfolding store_checkpoint is_active_owner is_active_run
checkpoint_owned c task_id run_id worker n db =
    if is_some (find (is_active_owner c.now task_id worker) db.tasks)
    then (if is_some (find (is_active_run run_id task_id worker) db.runs)
        then store_checkpoint c task_id run_id worker n db
        else raised (runtime_error "run is not active for this worker/task"))
    else raised (runtime_error "task is not actively owned by this worker")

unfoldable pub write_checkpoint :
    Call → String → String → String → NewCheckpoint → Db → Result (Checkpoint × Db)
unfolding checkpoint_owned shape_error
write_checkpoint c task_id run_id worker n db =
    if is_blank n.summary
    then raised (value_error "summary must be non-empty")
    else elim (shape_error n) [
      | some e ↦ raised e
      | none ↦ checkpoint_owned c task_id run_id worker n db
    ]

-- `ORDER BY created_at DESC, rowid DESC LIMIT 1`
unfoldable pub latest : List Checkpoint → Option Checkpoint
latest [] = none
latest (k ∷ ks) = elim (latest ks) [
  | none ↦ some k
  | some l ↦ if ltb l.created_at k.created_at then some k else some l
]

unfoldable pub latest_checkpoint : String → Db → Option Checkpoint
unfolding latest
latest_checkpoint task_id db = latest (select (λ k. k.task_id == task_id) db.checkpoints)

pub record ResumeContext : Type 0 where
  pub task : Task
  pub checkpoint : Option Checkpoint
  pub resume_available : Bool

unfoldable pub resume_context : String → Db → Result ResumeContext
unfolding latest_checkpoint
resume_context task_id db = elim (task_by_id task_id db) [
  | none ↦ raised (key_error task_id)
  | some task ↦ ok (record {
    task = task;
    checkpoint = latest_checkpoint task_id db;
    resume_available = is_some (latest_checkpoint task_id db);
  })
]
