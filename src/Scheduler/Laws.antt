-- ===== src/Scheduler/Laws.antt =====
-- What `decide` chooses, against what is due in the durable state.
use personal_agent_runtime.Base.{
  ℕ, String, true, false, Option, none, some, List, [], ◌∷◌, ◌≡◌, ◌≤◌, inl, inr, refl, All, any,
  arith, Option-cases, string_eq,
}
use personal_agent_runtime.Base.Table.{first_by}
use personal_agent_runtime.Base.Table.Keys.{Distinct}
use personal_agent_runtime.Base.Table.Sorted.{
  All-first_by, first_by-none, first_by-rank, All-any_self,
}
use personal_agent_runtime.Store.{Task, Db, ok, task_by_id}
use personal_agent_runtime.Tasks.{next_task}
use personal_agent_runtime.Reconcile.{FindingType, Finding, reconcile}
use personal_agent_runtime.Reconcile.Reports.{reports}
use personal_agent_runtime.Reconcile.Due.{Due, reported-Due, reports_self, reconcile-Due}
use personal_agent_runtime.Scheduler.{
  decision_priority, goes_before, decision_from_finding, decide_task, decide_with, decide,
}

rises :
    (f g : Finding) → goes_before f g ≡ true → decision_priority f.type ≤ decision_priority g.type
unfolding goes_before
rises f g e = ground arith

falls :
    (f g : Finding) → goes_before f g ≡ false → decision_priority g.type ≤ decision_priority f.type
unfolding goes_before
falls f g e = ground arith

-- A reported type is that of a finding in the list.
reported_rank :
    (type : FindingType) (k : String) (n : ℕ) (fs : List Finding)
    → any (reports type k) fs ≡ true
    → All (λ f. n ≤ decision_priority f.type) fs
    → n ≤ decision_priority type
reported_rank type k n [] e a = cc
reported_rank type k n (f ∷ fs) e a = ground (arith, a.0, reported_rank type k n fs, a.1)

-- The first of the findings: one of them, and none is of a smaller priority.
module _ (now : ℕ) (worker : Option String) (db : Db) where
  pub decide-finding :
      (f : Finding)
      → first_by goes_before (reconcile now db).findings ≡ some f
      → decide now worker none db ≡ ok (decision_from_finding f db)
  unfolding decide
  decide-finding f e = rw (decide_with, e) refl

  pub decide-task :
      first_by goes_before (reconcile now db).findings ≡ none
      → decide now worker none db ≡ decide_task (next_task now db) worker db
  unfolding decide
  decide-task e = rw (decide_with, e) refl

  first-Due :
      (f : Finding)
      → Distinct (λ t. t.id) db.tasks
      → first_by goes_before (reconcile now db).findings ≡ some f
      → (t : Task) × (task_by_id f.task_id db ≡ some t) × Due f.type now db t
  first-Due f d e = reported-Due f.type f.task_id now db d (
      All-first_by goes_before
        (λ g. any (reports g.type g.task_id) (reconcile now db).findings ≡ true)
        (reconcile now db).findings {m = f}
        (All-any_self (λ g. reports g.type g.task_id) (reconcile now db).findings reports_self) e)

-- Where task ids are unique and something is due for a stored task, the decision is that of a finding which is itself due
-- for a stored task, and whose priority is not after that of anything that is due.
pub decide-urgent :
    (now : ℕ) (worker : Option String) (db : Db) (type : FindingType) (k : String) (s : Task)
    → Distinct (λ t. t.id) db.tasks
    → task_by_id k db ≡ some s
    → Due type now db s
    → (f : Finding) × (t : Task) × (decide now worker none db ≡ ok (decision_from_finding f db))
      × (task_by_id f.task_id db ≡ some t)
      × Due f.type now db t
      × (decision_priority f.type ≤ decision_priority type)
decide-urgent now worker db type k s d here due =
    let fs = (reconcile now db).findings in
    let found : any (reports type k) fs ≡ true = (reconcile-Due type k now db s d here).1 due in
    elim (Option-cases (first_by goes_before fs)) [
      | inl n ↦ absurd (cc (rw (first_by-none goes_before fs n) at found))
      | inr (f, e) ↦
          let (t, at, is_due) = first-Due now worker db f d e in
          (
            f,
            t,
            decide-finding now worker db f e,
            at,
            is_due,
            reported_rank type k (decision_priority f.type) fs found (
                first_by-rank goes_before (λ g. decision_priority g.type) rises falls fs {m = f} e),
          )
    ]
