-- ===== src/Reconcile/Due.antt =====
-- What `reconcile` reports, type by type, in the terms of its own tests on the sorted rows.
use personal_agent_runtime.Base.{
  ℕ, String, true, false, Option, none, some, List, [], ◌∷◌, string_eq, ◌≡◌, ◌≢◌, ◌↔◌, ◌⊎◌, ◌<◌,
  ◌≤◌, Option-cases, refl, inl, inr, arith, any, ◌∙◌,
}
use personal_agent_runtime.Base.Table.{last}
use personal_agent_runtime.Base.Table.Keys.{Distinct}
use personal_agent_runtime.Store.{
  TaskStatus, claimed, review_pending, review_rejected, dead_letter, RunStatus, run_status_eq,
  task_status_eq, Task, Run, Db, task_by_id,
}
use personal_agent_runtime.Reconcile.{is_nil}
use personal_agent_runtime.Reconcile.{
  Finding, FindingType, pending_independent_review, rejected_independent_review, dead_lettered,
  stale_lease, failed_work, retry_budget_exhausted, independent_review_evidence_gap,
  completion_evidence_gap, unmaterialized_next_action, orphan_running_run, has_items,
  accepted_independent_review, represents_successor, pending_action, evidence_run, needs_review,
  is_running, has_stale_lease, has_failed, is_retryable, lacks_review, lacks_completion,
  lacks_successor, task_runs, tasks_by_time, runs_by_time, reconcile,
}
use personal_agent_runtime.Reconcile.Reports.{reports, is_found, reconcile-is_found}

abbrev pub IsPast : ℕ → Option ℕ → Type 0
IsPast now none = ⊥
IsPast now (some e) = e < now

abbrev pub HasStatus : RunStatus → Option Run → Type 0
HasStatus s none = ⊥
HasStatus s (some r) = r.status ≡ s

-- The task failed, or its latest run did and it was not given up.
abbrev pub HasFailed : Task → List Run → Type 0
HasFailed t runs =
    (t.status ≡ TaskStatus.failed)
    ⊎ (HasStatus RunStatus.failed (last runs) × (t.status ≢ dead_letter))

-- There is no run to show evidence, or it did not complete, or its evidence is no list or empty.
abbrev pub ShowsNothing : Option Run → Type 0
ShowsNothing none = Unit
ShowsNothing (some r) = (r.status ≢ RunStatus.completed) ⊎ (has_items r.evidence ≡ false)

-- A next action is recorded, and no stored task represents it.
abbrev pub IsUnrepresented : ℕ → List Task → Task → Option String → Type 0
IsUnrepresented now tasks t none = ⊥
IsUnrepresented now tasks t (some _) = any (represents_successor now t) tasks ≡ false

-- What is due for a task with these runs
abbrev pub IsDue : FindingType → ℕ → List Task → Task → List Run → Type 0
IsDue pending_independent_review now tasks t runs = t.status ≡ review_pending
IsDue rejected_independent_review now tasks t runs = t.status ≡ review_rejected
IsDue dead_lettered now tasks t runs = t.status ≡ dead_letter
IsDue stale_lease now tasks t runs = (t.status ≡ claimed) × IsPast now t.lease_expires_at
IsDue failed_work now tasks t runs = HasFailed t runs × (t.attempt_count < t.max_attempts)
IsDue retry_budget_exhausted now tasks t runs =
    HasFailed t runs × (t.max_attempts ≤ t.attempt_count)
IsDue independent_review_evidence_gap now tasks t runs =
    (t.status ≡ TaskStatus.completed)
    × (needs_review t ≡ true)
    × (accepted_independent_review runs ≡ false)
IsDue completion_evidence_gap now tasks t runs =
    (t.status ≡ TaskStatus.completed) × ShowsNothing (evidence_run runs)
IsDue unmaterialized_next_action now tasks t runs =
    (t.status ≡ TaskStatus.completed) × IsUnrepresented now tasks t (pending_action t)
IsDue orphan_running_run now tasks t runs = (t.status ≢ claimed) × (any is_running runs ≡ true)

module _ (now : ℕ) (tasks : List Task) (t : Task) (runs : List Run) where
  is_found-IsDue :
      (type : FindingType) → (is_found type now tasks t runs ≡ true) ↔ IsDue type now tasks t runs
  unfolding has_stale_lease has_failed is_retryable lacks_review lacks_completion lacks_successor
  is_found-IsDue pending_independent_review = (λ h. ground arith, λ d. ground arith)
  is_found-IsDue rejected_independent_review = (λ h. ground arith, λ d. ground arith)
  is_found-IsDue dead_lettered = (λ h. ground arith, λ d. ground arith)
  is_found-IsDue stale_lease = (λ h. ground arith, λ d. ground arith)
  is_found-IsDue failed_work = (λ h. ground arith, λ d. ground arith)
  is_found-IsDue retry_budget_exhausted = (λ h. ground arith, λ d. ground arith)
  is_found-IsDue independent_review_evidence_gap = (λ h. ground arith, λ d. ground arith)
  is_found-IsDue completion_evidence_gap = (λ h. ground arith, λ d. ground arith)
  is_found-IsDue unmaterialized_next_action = (λ h. ground arith, λ d. ground arith)
  is_found-IsDue orphan_running_run = (λ h. ground arith, λ d. ground arith)

-- What is due for a stored task, by the state of the whole database
abbrev pub Due : FindingType → ℕ → Db → Task → Type 0
Due type now db t = IsDue type now (tasks_by_time db) t (task_runs t.id (runs_by_time db))

-- Where task ids are unique, a finding of each type is reported about a stored task exactly when it is
-- due.
pub reconcile-Due :
    (type : FindingType) (k : String) (now : ℕ) (db : Db) (t : Task)
    → Distinct (λ u. u.id) db.tasks
    → task_by_id k db ≡ some t
    → (any (reports type k) (reconcile now db).findings ≡ true) ↔ Due type now db t
reconcile-Due type k now db t d here =
    let e : any (reports type k) (reconcile now db).findings
        ≡ is_found type now (tasks_by_time db) t (task_runs t.id (runs_by_time db)) =
      rw here at (reconcile-is_found type k now db d) in
    rw e (is_found-IsDue now (tasks_by_time db) t (task_runs t.id (runs_by_time db)) type)

-- A reported type is due for a stored task.
pub reported-Due :
    (type : FindingType) (k : String) (now : ℕ) (db : Db)
    → Distinct (λ u. u.id) db.tasks
    → any (reports type k) (reconcile now db).findings ≡ true
    → (t : Task) × (task_by_id k db ≡ some t) × Due type now db t
reported-Due type k now db d e = elim (Option-cases (task_by_id k db)) [
  | inl absent ↦ absurd (ground (arith, e, absent, reconcile-is_found type k now db d))
  | inr (t, here) ↦ (t, here, (reconcile-Due type k now db t d here).0 e)
]

pub reports_self : (f : Finding) → reports f.type f.task_id f ≡ true
reports_self f = ground arith

first_finding :
    (now : ℕ) (db : Db) (f : Finding) (fs : List Finding)
    → Distinct (λ u. u.id) db.tasks
    → (reconcile now db).findings ≡ f ∷ fs
    → (t : Task) × (task_by_id f.task_id db ≡ some t) × Due f.type now db t
first_finding now db f fs d e =
    reported-Due f.type f.task_id now db d (rw e (rw (reports_self f) refl))

List-cases :
    (fs : List Finding) → (fs ≡ []) ⊎ ((f : Finding) × (rest : List Finding) × (fs ≡ f ∷ rest))
List-cases [] = inl refl
List-cases (f ∷ rest) = inr (f, rest, refl)

healthy_idle-is_nil :
    (now : ℕ) (db : Db) → (reconcile now db).healthy_idle ≡ is_nil (reconcile now db).findings
unfolding reconcile
healthy_idle-is_nil now db = refl

pub healthy_idle-nil :
    (now : ℕ) (db : Db) → (reconcile now db).healthy_idle ≡ true → (reconcile now db).findings ≡ []
healthy_idle-nil now db e = elim (List-cases (reconcile now db).findings) [
  | inl n ↦ n
  | inr (f, rest, s) ↦ absurd (ground (arith, healthy_idle-is_nil now db, e, s))
]

pub nil-healthy_idle :
    (now : ℕ) (db : Db) → (reconcile now db).findings ≡ [] → (reconcile now db).healthy_idle ≡ true
nil-healthy_idle now db e = healthy_idle-is_nil now db ∙ rw e refl

-- Nothing of any type is due for any stored task.
abbrev pub NothingDue : ℕ → Db → Type 0
NothingDue now db =
    (k : String) (t : Task) (type : FindingType) → task_by_id k db ≡ some t → ¬ Due type now db t

idle→NothingDue :
    (now : ℕ) (db : Db)
    → Distinct (λ u. u.id) db.tasks
    → (reconcile now db).healthy_idle ≡ true
    → NothingDue now db
idle→NothingDue now db d idle k t type here due = elim (List-cases (reconcile now db).findings) [
  | inl e ↦
      let found : any (reports type k) (reconcile now db).findings ≡ true =
        (reconcile-Due type k now db t d here).1 due in
      cc (rw e at found)
  | inr (f, rest, e) ↦ ground (arith, healthy_idle-is_nil now db, idle, e)
]

NothingDue→idle :
    (now : ℕ) (db : Db)
    → Distinct (λ u. u.id) db.tasks
    → NothingDue now db
    → (reconcile now db).healthy_idle ≡ true
NothingDue→idle now db d none_due = elim (List-cases (reconcile now db).findings) [
  | inl e ↦ healthy_idle-is_nil now db ∙ rw e
  | inr (f, rest, e) ↦
      let (t, here, due) = first_finding now db f rest d e in
      absurd (none_due f.task_id t f.type here due)
]

-- Where task ids are unique, the state is reported as idle exactly when nothing of any type is due for any stored task.
pub reconcile-healthy_idle :
    (now : ℕ) (db : Db)
    → Distinct (λ u. u.id) db.tasks
    → ((reconcile now db).healthy_idle ≡ true) ↔ NothingDue now db
reconcile-healthy_idle now db d = (idle→NothingDue now db d, NothingDue→idle now db d)
