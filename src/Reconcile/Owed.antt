-- ===== src/Reconcile/Owed.antt =====
-- What is left to do, said of the stored rows alone, without the sorting, grouping and scans of
-- `reconcile`.
pub mod Runs
pub mod Laws
use mathlib.Core.List.{Memᴰ}
use personal_agent_runtime.Base.{
  ℕ, String, true, false, some, string_eq, ◌==◌, ◌≡◌, ◌≢◌, ◌↔◌, ◌⊎◌, ◌<◌, ◌≤◌, inl, inr, arith, All,
}
use personal_agent_runtime.Base.Table.Latest.{IsLastBy}
use personal_agent_runtime.Json.{Json, Items, arr, cons, obj, str, Fields, get, truthy}
use personal_agent_runtime.Store.{
  TaskStatus, pending, claimed, review_pending, review_rejected, dead_letter, RunStatus, running,
  Task, Run, Db,
}
use personal_agent_runtime.Reconcile.{
  FindingType, pending_independent_review, rejected_independent_review, dead_lettered, stale_lease,
  failed_work, retry_budget_exhausted, independent_review_evidence_gap, completion_evidence_gap,
  unmaterialized_next_action, orphan_running_run, is_substring,
}

-- The value is a dict that has this text under a key.
abbrev pub HasText : String → String → Json → Type 0
HasText key text j = (d : Fields) × (j ≡ obj d) × (get key d ≡ some (str text))

abbrev pub IsOf : String → Run → Type 0
IsOf task_id r = r.task_id ≡ task_id

abbrev pub IsCritic : Run → Type 0
IsCritic r = HasText "role" "critic" r.metadata

-- The run holds a review that accepts.
abbrev pub Accepts : Run → Type 0
Accepts r =
    (d : Fields) × (v : Fields) × (r.metadata ≡ obj d)
    × (get "review" d ≡ some (obj v))
    × (get "verdict" v ≡ some (str "accepted"))

-- A run of the task that is no critic's
abbrev pub IsWorkOf : String → Run → Type 0
IsWorkOf task_id r = IsOf task_id r × ¬ IsCritic r

-- Of the stored runs with `P`, the one that started last
abbrev pub IsLastRun : (Run → Type 0) → Db → Run → Type 0
IsLastRun P db r = IsLastBy P (λ s. s.started_at) db.runs r

-- The task failed, or its last run did and it is not in the dead letter.
abbrev pub Failed : Db → Task → Type 0
Failed db t =
    (t.status ≡ TaskStatus.failed)
    ⊎ (((r : Run) × IsLastRun (IsOf t.id) db r × (r.status ≡ RunStatus.failed))
        × (t.status ≢ dead_letter))

-- The run that has to show the task's evidence: its last run that is no critic's, or, where all its
-- runs are a critic's, its last run
abbrev pub AnswersFor : Db → Task → Run → Type 0
AnswersFor db t r =
    IsLastRun (IsWorkOf t.id) db r
    ⊎ (All (λ s. ¬ IsWorkOf t.id s) db.runs × IsLastRun (IsOf t.id) db r)

-- A completed run answers for the task and lists evidence.
abbrev pub ShowsEvidence : Db → Task → Type 0
ShowsEvidence db t =
    (r : Run) × AnswersFor db t r
    × (r.status ≡ RunStatus.completed)
    × ((first : Json) × (rest : Items) × (r.evidence ≡ arr (cons first rest)))

abbrev pub RequiresReview : Task → Type 0
RequiresReview t =
    (d : Fields) × (v : Json) × (t.context ≡ obj d)
    × (get "requires_independent_review" d ≡ some v)
    × (truthy v ≡ true)

-- A stored run of a critic accepts the task's work.
abbrev pub IsAccepted : Db → Task → Type 0
IsAccepted db t = (r : Run) × Memᴰ r db.runs × IsOf t.id r × IsCritic r × Accepts r

-- The task is pending, or is claimed under a lease that lasts.
abbrev pub IsActive : ℕ → Task → Type 0
IsActive now u =
    (u.status ≡ pending)
    ⊎ ((u.status ≡ claimed)
        × ((expires : ℕ) × (u.lease_expires_at ≡ some expires) × (now ≤ expires)))

-- Another task names this one as its parent, or is active and has the action in its goal.
abbrev pub Represents : ℕ → Task → String → Task → Type 0
Represents now t action u =
    (u.id ≢ t.id)
    × (HasText "parent_task_id" t.id u.context
        ⊎ (IsActive now u × (is_substring action u.goal ≡ true)))

-- What the stored rows leave to do about a task
abbrev pub Owed : FindingType → ℕ → Db → Task → Type 0
Owed pending_independent_review now db t = t.status ≡ review_pending
Owed rejected_independent_review now db t = t.status ≡ review_rejected
Owed dead_lettered now db t = t.status ≡ dead_letter
Owed stale_lease now db t =
    (t.status ≡ claimed) × ((expires : ℕ) × (t.lease_expires_at ≡ some expires) × (expires < now))
Owed failed_work now db t = Failed db t × (t.attempt_count < t.max_attempts)
Owed retry_budget_exhausted now db t = Failed db t × (t.max_attempts ≤ t.attempt_count)
Owed independent_review_evidence_gap now db t =
    (t.status ≡ TaskStatus.completed) × RequiresReview t × ¬ IsAccepted db t
Owed completion_evidence_gap now db t = (t.status ≡ TaskStatus.completed) × ¬ ShowsEvidence db t
Owed unmaterialized_next_action now db t =
    (t.status ≡ TaskStatus.completed)
    × ((action : String) × (t.next_action ≡ some action)
        × (action ≢ "")
        × ¬ ((u : Task) × Memᴰ u db.tasks × Represents now t action u))
Owed orphan_running_run now db t =
    (t.status ≢ claimed) × ((r : Run) × Memᴰ r db.runs × IsOf t.id r × (r.status ≡ running))
