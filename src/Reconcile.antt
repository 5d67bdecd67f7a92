-- ===== src/Reconcile.antt =====
-- `reconcile` of par/reconcile.py: what the durable state says is left to do. It only reads.
pub mod Reports
pub mod Due
pub mod Owed
use text.Mathlib.Text.{starts_with}
use personal_agent_runtime.Base.{
  ℕ, String, Bool, true, false, Option, none, some, List, [], ◌∷◌, ◌++◌, ◌==◌, string_eq,
  if◌then◌else◌, not, ◌&&◌, ◌||◌, Eq, ltb, leb, any, length,
}
use personal_agent_runtime.Base.Text.{is_empty}
use personal_agent_runtime.Base.Table.{select, sort_by, last}
use personal_agent_runtime.Json.{Json, Items, arr, nil, obj, Fields, end, get, is_str_at, truthy_at}
use personal_agent_runtime.Store.{
  TaskStatus, pending, claimed, review_pending, review_rejected, dead_letter, RunStatus, running,
  task_status_eq, run_status_eq, Task, Run, Db,
}
use personal_agent_runtime.Tasks.{lease_expired}

pub data FindingType : Type 0 where
  pending_independent_review rejected_independent_review dead_lettered stale_lease : FindingType
  failed_work retry_budget_exhausted independent_review_evidence_gap : FindingType
  completion_evidence_gap unmaterialized_next_action orphan_running_run : FindingType

FindingType-discrete : Discrete FindingType
FindingType-discrete = hlevel

instance unfoldable pub finding_type_eq : Eq FindingType
unfolding FindingType-discrete
finding_type_eq = record { dec = FindingType-discrete }

-- A finding; `none` stands for a key that its dict does not have.
pub record Finding : Type 0 where
  pub type : FindingType
  pub task_id : String
  pub run_id : Option String
  pub action : String
  pub next_action : Option String
  pub attempt_count : Option ℕ
  pub max_attempts : Option ℕ
  pub retryable : Option Bool
  pub recoverable : Option Bool
  pub automatic_retry : Option Bool
  pub requires_human : Option Bool

abbrev pub plain : FindingType → String → String → Finding
plain type task_id action = record {
  type = type;
  task_id = task_id;
  run_id = none;
  action = action;
  next_action = none;
  attempt_count = none;
  max_attempts = none;
  retryable = none;
  recoverable = none;
  automatic_retry = none;
  requires_human = none;
}

-- `_json_list`, as far as it is used: whether there is a list with a member.
abbrev pub has_items : Json → Bool
has_items (arr nil) = false
has_items (arr _) = true
has_items _ = false

-- `_json_obj`
abbrev pub json_obj : Json → Fields
json_obj (obj d) = d
json_obj _ = end

abbrev pub has_accepted_verdict : Fields → Bool
has_accepted_verdict metadata = elim (get "review" metadata) [
  | some (obj review) ↦ is_str_at "verdict" "accepted" review
  | _ ↦ false
]

abbrev pub is_critic : Run → Bool
is_critic r = is_str_at "role" "critic" (json_obj r.metadata)

-- `_accepted_independent_review`
unfoldable pub accepted_independent_review : List Run → Bool
accepted_independent_review = any (λ r. is_critic r && has_accepted_verdict (json_obj r.metadata))

-- `part in text`
unfoldable pub is_substring : String → String → Bool
is_substring part String.[] = is_empty part
is_substring part (String.◌∷◌ c text) =
    starts_with (String.◌∷◌ c text) part || is_substring part text

-- The text of a task's next action that is not empty
abbrev pub pending_action : Task → Option String
pending_action t = elim t.next_action [ none ↦ none | some a ↦ if is_empty a then none else some a ]

-- `other["lease_expires_at"] and other["lease_expires_at"] >= now`
abbrev pub lease_live : ℕ → Task → Bool
lease_live now t = elim t.lease_expires_at [ none ↦ false | some e ↦ leb now e ]

abbrev pub is_active : ℕ → Task → Bool
is_active now t = t.status == pending || (t.status == claimed && lease_live now t)

-- `_represents_successor`
unfoldable pub represents_successor : ℕ → Task → Task → Bool
unfolding is_substring
represents_successor now parent other =
    not (other.id == parent.id)
    && (is_str_at "parent_task_id" parent.id (json_obj other.context)
        || (is_active now other
            && elim (pending_action parent) [ none ↦ false | some a ↦ is_substring a other.goal ]))

-- `runs_by_task[task["id"]]`, in order of time
abbrev pub task_runs : String → List Run → List Run
task_runs task_id runs = select (λ r. r.task_id == task_id) runs

abbrev pub is_failed_run : Option Run → Bool
is_failed_run none = false
is_failed_run (some r) = r.status == RunStatus.failed

abbrev pub when : Bool → Finding → List Finding
when b f = if b then f ∷ [] else []

abbrev pub unless : Bool → List Finding → List Finding
unless b fs = if b then [] else fs

-- The run that has to show evidence: the last one that is not a critic's, or else the last one
abbrev pub evidence_run : List Run → Option Run
evidence_run runs = elim (last (select (λ r. not (is_critic r)) runs)) [
  | some r ↦ some r
  | none ↦ last runs
]

abbrev pub lacks_evidence : Option Run → Bool
lacks_evidence none = true
lacks_evidence (some r) = not (r.status == RunStatus.completed) || not (has_items r.evidence)

abbrev pub needs_review : Task → Bool
needs_review t = truthy_at "requires_independent_review" (json_obj t.context)

-- The conditions of the branches, in the order of the code
unfoldable pub has_stale_lease : ℕ → Task → Bool
has_stale_lease now t = t.status == claimed && lease_expired now t

unfoldable pub has_failed : Task → List Run → Bool
has_failed t runs =
    t.status == TaskStatus.failed || (is_failed_run (last runs) && not (t.status == dead_letter))

unfoldable pub is_retryable : Task → Bool
is_retryable t = ltb t.attempt_count t.max_attempts

unfoldable pub lacks_review : Task → List Run → Bool
unfolding accepted_independent_review
lacks_review t runs =
    t.status == TaskStatus.completed && (needs_review t && not (accepted_independent_review runs))

unfoldable pub lacks_completion : Task → List Run → Bool
lacks_completion t runs = t.status == TaskStatus.completed && lacks_evidence (evidence_run runs)

unfoldable pub lacks_successor : ℕ → List Task → Task → Bool
unfolding represents_successor
lacks_successor now tasks t = t.status == TaskStatus.completed && elim (pending_action t) [
  | none ↦ false
  | some _ ↦ not (any (represents_successor now t) tasks)
]

-- A run of a task that is not claimed, and is still marked as running
abbrev pub is_running : Run → Bool
is_running r = r.status == running

abbrev pub orphan : Task → Run → Finding
orphan t r = record (plain orphan_running_run t.id "inspect_state_mismatch") { run_id = some r.id }

unfoldable pub orphans : Task → List Run → List Finding
orphans t [] = []
orphans t (r ∷ rs) = when (is_running r) (orphan t r) ++ orphans t rs

abbrev pub failure : Task → Bool → Finding
failure t retryable =
    record (plain (if retryable then failed_work else retry_budget_exhausted) t.id
      (if retryable then "classify_retry" else "dead_letter")) {
        attempt_count = some t.attempt_count;
        max_attempts = some t.max_attempts;
        retryable = some retryable;
        automatic_retry = some false;
        requires_human = some true;
      }

-- The body of the loop over the tasks
unfoldable pub findings_of : ℕ → List Task → Task → List Run → List Finding
unfolding orphans
findings_of now tasks t runs =
    when (t.status == review_pending)
      (record (plain pending_independent_review t.id "request_independent_review") {
        requires_human = some false;
      })
    ++ (when (t.status == review_rejected)
          (record (plain rejected_independent_review t.id "inspect_review_and_rework") {
            automatic_retry = some false;
            requires_human = some true;
          })
        ++ (when (t.status == dead_letter)
              (record (plain dead_lettered t.id "inspect_terminal_failure") {
                attempt_count = some t.attempt_count;
                max_attempts = some t.max_attempts;
                automatic_retry = some false;
                requires_human = some true;
              })
            ++ (when (has_stale_lease now t)
                  (record (plain stale_lease t.id "resume_or_reclaim") { recoverable = some true })
                ++ (when (has_failed t runs) (failure t (is_retryable t))
                    ++ (when (lacks_review t runs)
                          (plain independent_review_evidence_gap t.id "verify_independent_review")
                        ++ (when (lacks_completion t runs)
                              (plain completion_evidence_gap t.id "verify")
                            ++ (when (lacks_successor now tasks t)
                                  (record (plain unmaterialized_next_action t.id "materialize") {
                                    next_action = t.next_action;
                                  })
                                ++ unless (t.status == claimed) (orphans t runs))))))))

unfoldable pub all_findings : ℕ → List Task → List Run → List Task → List Finding
unfolding findings_of
all_findings now tasks runs [] = []
all_findings now tasks runs (t ∷ ts) =
    findings_of now tasks t (task_runs t.id runs) ++ all_findings now tasks runs ts

pub record Reconciliation : Type 0 where
  pub healthy_idle : Bool
  pub finding_count : ℕ
  pub findings : List Finding

abbrev pub is_nil : List Finding → Bool
is_nil [] = true
is_nil (_ ∷ _) = false

-- `ORDER BY created_at`, `ORDER BY started_at`
abbrev pub tasks_by_time : Db → List Task
tasks_by_time db = sort_by (λ t. t.created_at) db.tasks

abbrev pub runs_by_time : Db → List Run
runs_by_time db = sort_by (λ r. r.started_at) db.runs

unfoldable pub reconcile : ℕ → Db → Reconciliation
unfolding all_findings
reconcile now db =
    let findings = all_findings now (tasks_by_time db) (runs_by_time db) (tasks_by_time db) in
    record { healthy_idle = is_nil findings; finding_count = length findings; findings = findings }
