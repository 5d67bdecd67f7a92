-- ===== src/Reconcile/Reports.antt =====
-- Which findings the loop of `reconcile` makes about a task.
use personal_agent_runtime.Base.{
  ℕ, String, Bool, true, false, List, [], ◌∷◌, ◌==◌, string_eq, not, ◌&&◌, ◌≡◌, refl, ◌∙◌, arith,
  any, any-append, some, none,
}
use personal_agent_runtime.Base.Table.{any-sort_by}
use personal_agent_runtime.Base.Table.Keys.{Distinct, any-by_key}
use personal_agent_runtime.Store.{
  claimed, review_pending, review_rejected, dead_letter, task_status_eq, Task, Run, Db, task_by_id,
}
use personal_agent_runtime.Reconcile.{
  FindingType, pending_independent_review, rejected_independent_review, dead_lettered, stale_lease,
  failed_work, retry_budget_exhausted, independent_review_evidence_gap, completion_evidence_gap,
  unmaterialized_next_action, orphan_running_run, finding_type_eq, Finding, when, unless, orphans,
  is_running, has_stale_lease, has_failed, is_retryable, lacks_review, lacks_completion,
  lacks_successor, findings_of, all_findings, task_runs, tasks_by_time, runs_by_time, reconcile,
}

-- A finding of this type about this task
abbrev pub reports : FindingType → String → Finding → Bool
reports type k f = f.type == type && f.task_id == k

-- The test under which the loop makes a finding of a type
abbrev pub is_found : FindingType → ℕ → List Task → Task → List Run → Bool
is_found pending_independent_review now tasks t runs = t.status == review_pending
is_found rejected_independent_review now tasks t runs = t.status == review_rejected
is_found dead_lettered now tasks t runs = t.status == dead_letter
is_found stale_lease now tasks t runs = has_stale_lease now t
is_found failed_work now tasks t runs = has_failed t runs && is_retryable t
is_found retry_budget_exhausted now tasks t runs = has_failed t runs && not (is_retryable t)
is_found independent_review_evidence_gap now tasks t runs = lacks_review t runs
is_found completion_evidence_gap now tasks t runs = lacks_completion t runs
is_found unmaterialized_next_action now tasks t runs = lacks_successor now tasks t
is_found orphan_running_run now tasks t runs = not (t.status == claimed) && any is_running runs

any-when : (p : Finding → Bool) (b : Bool) (f : Finding) → any p (when b f) ≡ (b && p f)
any-when p true f = ground arith
any-when p false f = refl

any-orphans :
    (type : FindingType) (k : String) (t : Task) (runs : List Run)
    → any (reports type k) (orphans t runs)
      ≡ (any is_running runs && (orphan_running_run == type && t.id == k))
unfolding orphans
any-orphans type k t [] = refl
any-orphans type k t (r ∷ rs) =
    rw any-append (rw any-when (rw (any-orphans type k t rs) (ground arith)))

any-unless :
    (p : Finding → Bool) (b : Bool) (fs : List Finding) → any p (unless b fs) ≡ (not b && any p fs)
any-unless p true fs = refl
any-unless p false fs = refl

and-false : (b : Bool) → (b && false) ≡ false
and-false true = refl
and-false false = refl

ruleset finding_laws = (any-append, any-when, any-unless, any-orphans, and-false)

module _ (k : String) (now : ℕ) (tasks : List Task) (t : Task) (runs : List Run) where
  -- The loop's body reports a type about a task exactly under its test.
  findings_of-is_found :
      (type : FindingType)
      → any (reports type k) (findings_of now tasks t runs)
        ≡ (t.id == k && is_found type now tasks t runs)
  unfolding findings_of finding_type_eq
  findings_of-is_found pending_independent_review = simp finding_laws (ground arith)
  findings_of-is_found rejected_independent_review = simp finding_laws (ground arith)
  findings_of-is_found dead_lettered = simp finding_laws (ground arith)
  findings_of-is_found stale_lease = simp finding_laws (ground arith)
  findings_of-is_found failed_work = simp finding_laws (ground arith)
  findings_of-is_found retry_budget_exhausted = simp finding_laws (ground arith)
  findings_of-is_found independent_review_evidence_gap = simp finding_laws (ground arith)
  findings_of-is_found completion_evidence_gap = simp finding_laws (ground arith)
  findings_of-is_found unmaterialized_next_action = simp finding_laws (ground arith)
  findings_of-is_found orphan_running_run = simp finding_laws (ground arith)

all_findings-is_found :
    (type : FindingType) (k : String) (now : ℕ) (tasks : List Task) (runs : List Run)
    (ts : List Task)
    → any (reports type k) (all_findings now tasks runs ts)
      ≡ any (λ t. t.id == k && is_found type now tasks t (task_runs t.id runs)) ts
unfolding all_findings
all_findings-is_found type k now tasks runs [] = refl
all_findings-is_found type k now tasks runs (t ∷ ts) = rw any-append (
    rw (findings_of-is_found k now tasks t (task_runs t.id runs) type)
      (rw (all_findings-is_found type k now tasks runs ts)))

-- A type is reported about a task that is stored, and under the test of the loop.
pub reconcile-is_found :
    (type : FindingType) (k : String) (now : ℕ) (db : Db)
    → Distinct (λ t. t.id) db.tasks
    → any (reports type k) (reconcile now db).findings ≡ elim (task_by_id k db) [
      | some t ↦ is_found type now (tasks_by_time db) t (task_runs t.id (runs_by_time db))
      | none ↦ false
    ]
unfolding reconcile
reconcile-is_found type k now db d =
    all_findings-is_found type k now (tasks_by_time db) (runs_by_time db) (tasks_by_time db)
    ∙ any-sort_by
        (λ t.
          t.id == k && is_found type now (tasks_by_time db) t (task_runs t.id (runs_by_time db)))
        (λ t. t.created_at) db.tasks
    ∙ any-by_key (λ t. t.id) k
        (λ t. is_found type now (tasks_by_time db) t (task_runs t.id (runs_by_time db))) db.tasks d
