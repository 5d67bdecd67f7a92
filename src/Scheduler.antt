-- ===== src/Scheduler.antt =====
-- `decide` of par/scheduler.py: the one thing to do next. It only reads.
pub mod Laws
pub mod Idle
use text.Mathlib.Text.{is_lt}
use Prim.Native.String.{compare}
use personal_agent_runtime.Base.{
  ℕ, String, Bool, true, false, Option, none, some, List, [], ◌∷◌, ◌==◌, string_eq, if◌then◌else◌,
  not, ltb, Eq,
}
use personal_agent_runtime.Base.Text.{is_empty}
use personal_agent_runtime.Base.Table.{first_by}
use personal_agent_runtime.Store.{Task, Db, Result, ok, raised, task_by_id}
use personal_agent_runtime.Tasks.{next_task}
use personal_agent_runtime.Capabilities.{Eligibility, evaluate_worker_eligibility}
use personal_agent_runtime.Reconcile.{
  FindingType, pending_independent_review, rejected_independent_review, dead_lettered, stale_lease,
  failed_work, retry_budget_exhausted, independent_review_evidence_gap, completion_evidence_gap,
  unmaterialized_next_action, orphan_running_run, Finding, Reconciliation, reconcile,
}

-- `_DECISION_PRIORITY`. Every type of a finding is among its keys, so every finding is actionable.
unfoldable pub decision_priority : FindingType → ℕ
decision_priority stale_lease = 0
decision_priority orphan_running_run = 0
decision_priority failed_work = 1
decision_priority retry_budget_exhausted = 1
decision_priority dead_lettered = 1
decision_priority rejected_independent_review = 2
decision_priority pending_independent_review = 2
decision_priority independent_review_evidence_gap = 2
decision_priority completion_evidence_gap = 3
decision_priority unmaterialized_next_action = 4

pub data DecisionKind : Type 0 where
  resume retry dead_letter review rework verify_review verify : DecisionKind
  materialize_next execute await_capable_worker idle : DecisionKind

DecisionKind-discrete : Discrete DecisionKind
DecisionKind-discrete = hlevel

instance unfoldable pub decision_kind_eq : Eq DecisionKind
unfolding DecisionKind-discrete
decision_kind_eq = record { dec = DecisionKind-discrete }

-- The `finding_type` of a decision: that of its finding, `worker_capability_gap`, or None
pub data Cause : Type 0 where
  found : FindingType → Cause
  worker_capability_gap no_cause : Cause

-- A decision; `none` stands for a key that its dict does not have, or for None.
pub record Decision : Type 0 where
  pub decision : DecisionKind
  pub task_id : Option String
  pub run_id : Option String
  pub reason : String
  pub finding_type : Cause
  pub attempt_count : Option ℕ
  pub max_attempts : Option ℕ
  pub next_action : Option String
  pub worker : Option String
  pub eligibility : Option Eligibility
  pub requires_human : Bool
  pub safe_to_auto_execute : Bool

abbrev pub of_finding : Finding → DecisionKind → String → Bool → Decision
of_finding f kind reason human = record {
  decision = kind;
  task_id = some f.task_id;
  run_id = f.run_id;
  reason = reason;
  finding_type = found f.type;
  attempt_count = none;
  max_attempts = none;
  next_action = none;
  worker = none;
  eligibility = none;
  requires_human = human;
  safe_to_auto_execute = false;
}

abbrev pub with_attempts : Finding → Decision → Decision
with_attempts f d = record d { attempt_count = f.attempt_count; max_attempts = f.max_attempts }

-- `a or b`, of texts or None
abbrev pub or_else : Option String → Option String → Option String
or_else none b = b
or_else (some a) b = if is_empty a then b else some a

-- `task = get_task(task_id, path=path) if task_id else None`, then `(task or {}).get("next_action")`
abbrev pub stored_action : Finding → Db → Option String
stored_action f db =
    if is_empty f.task_id
    then none
    else elim (task_by_id f.task_id db) [ none ↦ none | some t ↦ t.next_action ]

abbrev pub decision_of_type : FindingType → Finding → Db → Decision
decision_of_type stale_lease f db =
    of_finding f resume
      "Runtime state indicates interrupted or stale in-progress work that must be reconciled before new work."
      false
decision_of_type orphan_running_run f db =
    of_finding f resume
      "Runtime state indicates interrupted or stale in-progress work that must be reconciled before new work."
      false
decision_of_type failed_work f db = with_attempts f (
    of_finding f retry
      "Failed work is within its retry budget but automatic retry is not authorized by this projection."
      true)
decision_of_type retry_budget_exhausted f db = with_attempts f (
    of_finding f dead_letter
      "Retry budget is exhausted or the task is already terminal; automatic retry is forbidden."
      true)
decision_of_type dead_lettered f db = with_attempts f (
    of_finding f dead_letter
      "Retry budget is exhausted or the task is already terminal; automatic retry is forbidden."
      true)
decision_of_type pending_independent_review f db =
    of_finding f review "Durable state requires an independent review before closure." false
decision_of_type rejected_independent_review f db =
    of_finding f rework
      "Independent review rejected the work; the durable next step is inspection and rework, not idle."
      true
decision_of_type independent_review_evidence_gap f db =
    of_finding f verify_review "Task closure lacks accepted independent review evidence." false
decision_of_type completion_evidence_gap f db =
    of_finding f verify
      "Task is marked completed but objective completion evidence is missing or incomplete." false
decision_of_type unmaterialized_next_action f db =
    record (of_finding f materialize_next
      "Completed task has a persisted next_action that is not represented by an active successor task."
      false) { next_action = or_else f.next_action (stored_action f db) }

-- `_decision_from_finding`
unfoldable pub decision_from_finding : Finding → Db → Decision
decision_from_finding f db = decision_of_type f.type f db

-- The order of the sort key: the priority, then the ids of the task and the run as texts
abbrev pub text_or_empty : Option String → String
text_or_empty none = ""
text_or_empty (some s) = s

unfoldable pub goes_before : Finding → Finding → Bool
unfolding decision_priority
goes_before f g =
    let p = decision_priority f.type in
    let q = decision_priority g.type in
    if ltb p q
    then true
    else if ltb q p
    then false
    else if f.task_id == g.task_id
    then is_lt (compare (text_or_empty f.run_id) (text_or_empty g.run_id))
    else is_lt (compare f.task_id g.task_id)

abbrev pub of_task : Task → DecisionKind → String → Bool → Bool → Decision
of_task task kind reason human safe = record {
  decision = kind;
  task_id = some task.id;
  run_id = none;
  reason = reason;
  finding_type = no_cause;
  attempt_count = none;
  max_attempts = none;
  next_action = none;
  worker = none;
  eligibility = none;
  requires_human = human;
  safe_to_auto_execute = safe;
}

abbrev pub is_read_only : Task → Bool
is_read_only task = task.mode == "read-only"

-- The decision about the task at the head of the queue
abbrev pub decision_on : Task → Option String → Eligibility → List String → Decision
decision_on task worker e [] =
    of_task task execute
      "Eligible queued task is available and no higher-priority reconciliation finding exists."
      (not (is_read_only task)) (is_read_only task)
decision_on task worker e (_ ∷ _) =
    if not e.eligible
    then record (of_task task await_capable_worker e.reason false false) {
      finding_type = worker_capability_gap;
      worker = worker;
      eligibility = some e;
    }
    else record (of_task task execute
        "Eligible queued task is available and the worker satisfies all required capabilities."
        (not (is_read_only task)) (is_read_only task)) { worker = worker; eligibility = some e }

abbrev pub idle_decision : Decision
idle_decision = record {
  decision = idle;
  task_id = none;
  run_id = none;
  reason = "No reconciliation finding or eligible queued task requires action.";
  finding_type = no_cause;
  attempt_count = none;
  max_attempts = none;
  next_action = none;
  worker = none;
  eligibility = none;
  requires_human = false;
  safe_to_auto_execute = false;
}

-- With no finding: what `next_task` offers
abbrev pub decide_task : Option Task → Option String → Db → Result Decision
decide_task none worker db = ok idle_decision
decide_task (some task) worker db = elim (evaluate_worker_eligibility task worker db) [
  | raised e ↦ raised e
  | ok e ↦ ok (decision_on task worker e e.required_capabilities)
]

-- `decide` with the reconciliation that it was given
unfoldable pub decide_with : ℕ → Option String → Reconciliation → Db → Result Decision
unfolding decision_from_finding goes_before
decide_with now worker reconciliation db = elim (first_by goes_before reconciliation.findings) [
  | some f ↦ ok (decision_from_finding f db)
  | none ↦ decide_task (next_task now db) worker db
]

-- `decide`; `now` is the time that both `reconcile` and `next_task` read.
unfoldable pub decide : ℕ → Option String → Option Reconciliation → Db → Result Decision
unfolding decide_with
decide now worker given db = elim given [
  | some reconciliation ↦ decide_with now worker reconciliation db
  | none ↦ decide_with now worker (reconcile now db) db
]
