-- ===== src/Advancement.antt =====
-- One step of automatic advancement: par/advancement.py.
pub mod Laws
use personal_agent_runtime.Base.{
  ℕ, ℤ, pos, zero, negsuc, String, ◌<>◌, Bool, true, false, Option, none, some, List, [], ◌∷◌, ◌==◌,
  string_eq, if◌then◌else◌, not, ◌&&◌, length, is_same,
}
use personal_agent_runtime.Base.Text.{strip, is_empty, take_text}
use personal_agent_runtime.Json.{Json, str, arr, Items, nil, cons, Fields, end, field, get, fields}
use personal_agent_runtime.Store.{Task, Db, Error, runtime_error, Result, ok, raised, Call}
use personal_agent_runtime.Tasks.{NewTask, create_task, TaskView, get_task, members}
use personal_agent_runtime.Scheduler.{
  Decision, DecisionKind, materialize_next, decision_kind_eq, decide,
}

-- The numbers of tasks, runs and events
pub record Counts : Type 0 where
  pub tasks : ℕ
  pub runs : ℕ
  pub events : ℕ

unfoldable pub state_counts : Db → Counts
state_counts db = record {
  tasks = length db.tasks;
  runs = length db.runs;
  events = length db.events;
}

-- `after != before`
abbrev pub same_counts : Counts → Counts → Bool
same_counts a b = is_same a.tasks b.tasks && (is_same a.runs b.runs && is_same a.events b.events)

pub data Advance : Type 0 where
  -- The decision is not to materialize anything, or the task is not read-only.
  unchanged await_human : Decision → Advance
  -- with whether the counts changed, the successor's id and its key
  advanced : Decision → Bool → String → Option String → Advance

-- `parent_context.get("required_capabilities")`, where it is a list with a member
abbrev pub inherited_capabilities : Option Json → Fields
inherited_capabilities (some (arr (cons v rest))) =
    field "required_capabilities" (arr (cons v rest)) end
inherited_capabilities _ = end

abbrev pub successor_context : String → Fields → Fields
successor_context task_id parent_context = field "parent_task_id" (str task_id) (
    field "materialized_by" (str "scheduler.advance")
      (inherited_capabilities (get "required_capabilities" parent_context)))

-- `int(parent.get("priority") or 100)`
abbrev pub successor_priority : ℤ → ℤ
successor_priority (pos zero) = pos 100
successor_priority p = p

abbrev pub text_of : Option String → String
text_of none = ""
text_of (some s) = s

-- `hexdigest` stands for the SHA-256 digest of a text's UTF-8 encoding, in hexadecimal digits.
module _ (hexdigest : String → String) where
  unfoldable pub successor_idempotency_key : String → String → String
  successor_idempotency_key parent_task_id next_action =
      "scheduler-next:" <> (parent_task_id <> (":" <> take_text 24 (hexdigest (strip next_action))))

  abbrev pub successor_task : Task → String → Fields → NewTask
  successor_task parent next_action parent_context = record {
    goal = next_action;
    repo = parent.repo;
    mode = "read-only";
    context = successor_context parent.id parent_context;
    priority = successor_priority parent.priority;
    idempotency_key = some (successor_idempotency_key parent.id next_action);
    max_attempts = pos 3;
    actor = "human";
  }

  -- `create_task`, and the counts around it
  unfoldable pub materialize_successor :
      Call → Decision → Task → String → Fields → Db → Result (Advance × Db)
  unfolding successor_idempotency_key state_counts
  materialize_successor c decision parent next_action parent_context db =
      elim (create_task c (successor_task parent next_action parent_context) db) [
        | raised e ↦ raised e
        | ok (successor, db') ↦ ok (
          advanced decision (not (same_counts (state_counts db') (state_counts db))) successor.id
              successor.idempotency_key,
          db',
        )
      ]

  abbrev pub advance_parent : Call → Decision → Task → Db → Result (Advance × Db)
  advance_parent c decision parent db =
      if not (parent.mode == "read-only")
      then ok (await_human decision, db)
      else if is_empty (strip (text_of parent.next_action))
      then raised (runtime_error "materialize_next decision is missing next_action")
      else elim (members parent.context) [
        | raised e ↦ raised e
        | ok parent_context ↦
            materialize_successor c decision parent (strip (text_of parent.next_action))
              parent_context db
      ]

  abbrev pub advance_selected : Call → Decision → Option TaskView → Db → Result (Advance × Db)
  advance_selected c decision none db =
      raised (runtime_error "scheduler selected a missing parent task")
  advance_selected c decision (some view) db = advance_parent c decision view.task db

  unfoldable pub advance_once : Call → Option String → Db → Result (Advance × Db)
  unfolding materialize_successor
  advance_once c worker db = elim (decide c.now worker none db) [
    | raised e ↦ raised e
    | ok decision ↦
        if decision.decision == materialize_next
        then advance_selected c decision (get_task (text_of decision.task_id) db) db
        else ok (unchanged decision, db)
  ]
