-- ===== src/Tests/Work.antt =====
-- What is due, who may do it and what comes next, at concrete data.
use text.Mathlib.TextEquality.{eq_iff}
use personal_agent_runtime.Base.{
  All, String, true, false, none, some, List, [], ◌∷◌, ◌≡◌, refl, arith, pos, ◌≤◌, ◌↔◌, ◌⊎◌,
  string_eq, option_eq, any, contains,
}
use personal_agent_runtime.Base.Table.{find, first_by, select, sort_by}
use personal_agent_runtime.Base.Text.{is_blank}
use personal_agent_runtime.Json.{get, arr, str, nil, cons, object}
use personal_agent_runtime.Store.{
  TaskStatus, Task, Db, ok, raised, value_error, task_by_id, task_status_eq, run_status_eq,
}
use personal_agent_runtime.Tasks.{claim_task, next_task, is_claimable}
use personal_agent_runtime.Reconcile.{
  has_stale_lease, has_failed, lacks_review, lacks_completion, lacks_successor, stale_lease,
  completion_evidence_gap, Finding, reconcile,
}
use personal_agent_runtime.Reconcile.Reports.{reports}
use personal_agent_runtime.Reconcile.Due.{Due, NothingDue, reconcile-healthy_idle}
use personal_agent_runtime.Reconcile.Owed.{Owed}
use personal_agent_runtime.Reconcile.Owed.Laws.{reconcile-Owed}
use personal_agent_runtime.Capabilities.{
  required_capabilities, get_worker_capabilities, declare_worker_capabilities, eligibility_of,
  evaluate_worker_eligibility, row_of, with_eligibility, not_eligible, claim_task_if_eligible,
}
use personal_agent_runtime.Capabilities.Names.{lower, normalize_capabilities, sort_texts}
use personal_agent_runtime.Capabilities.Laws.{
  Serves, IsName, evaluate_worker_eligibility-Serves, claim_task_if_eligible-Serves,
  declare_worker_capabilities-replaces,
}
use personal_agent_runtime.Scheduler.{
  decision_priority, execute, decision_from_finding, decision_on, idle_decision, decide,
}
use personal_agent_runtime.Scheduler.Laws.{decide-urgent}
use personal_agent_runtime.Scheduler.Idle.{decide-safe, decide-idle, decide-raises}
use personal_agent_runtime.Tests.Data.{at, waiting, held, with_task}

held_stored : task_by_id "t2" (with_task held) ≡ some held
unfolding find string_eq
held_stored = refl

-- A completed task whose only run is still marked as running
abbrev hollow : Task
hollow = record held { status = TaskStatus.completed; lease_expires_at = none }

reconcile-Owed_example :
    (any (reports completion_evidence_gap "t2") (reconcile 1000 (with_task hollow)).findings ≡ true)
    ↔ Owed completion_evidence_gap 1000 (with_task hollow) hollow
unfolding find string_eq
reconcile-Owed_example =
    reconcile-Owed completion_evidence_gap "t2" 1000 (with_task hollow) hollow (refl, tt) refl

reconcile-healthy_idle_example :
    ((reconcile 900 (with_task held)).healthy_idle ≡ true) ↔ NothingDue 900 (with_task held)
unfolding find
reconcile-healthy_idle_example = reconcile-healthy_idle 900 (with_task held) (refl, tt)

decide-urgent_example :
    (f : Finding) × (t : Task) × (decide 1000 (some "w1") none (with_task held)
      ≡ ok (decision_from_finding f (with_task held)))
    × (task_by_id f.task_id (with_task held) ≡ some t)
    × Due f.type 1000 (with_task held) t
    × (decision_priority f.type ≤ 0)
unfolding decision_priority find
decide-urgent_example =
    decide-urgent 1000 (some "w1") (with_task held) stale_lease "t2" held (refl, tt) held_stored
      (refl, omega arith)

-- A task that requires a capability, and a worker that declared it
abbrev demanding : Task
demanding = record waiting {
  context = object (("required_capabilities", arr (cons (str " Repo.Read") nil)) ∷ []);
}

abbrev malformed : Task
malformed = record waiting { context = object (("required_capabilities", str "repo.read") ∷ []) }

abbrev staffed : Task → Db
staffed t = record (with_task t) { runs = []; worker_capabilities = row_of "w1" "repo.read" ∷ [] }

demanding_requires : required_capabilities demanding ≡ ok ("repo.read" ∷ [])
unfolding required_capabilities normalize_capabilities string_eq get
demanding_requires = refl

evaluate_worker_eligibility-Serves_example :
    (evaluate_worker_eligibility demanding (some "w1") (staffed demanding)
      ≡ ok (eligibility_of ("repo.read" ∷ []) (some "w1") (staffed demanding)))
    × (((eligibility_of ("repo.read" ∷ []) (some "w1") (staffed demanding)).eligible ≡ true)
        ↔ Serves ("repo.read" ∷ []) (some "w1") (staffed demanding))
evaluate_worker_eligibility-Serves_example =
    evaluate_worker_eligibility-Serves demanding (some "w1") ("repo.read" ∷ []) (staffed demanding)
      demanding_requires

demanding_stored : task_by_id "t1" (staffed demanding) ≡ some demanding
unfolding find string_eq
demanding_stored = refl

claim_task_if_eligible-Serves_example :
    (Serves ("repo.read" ∷ []) (some "w2") (staffed demanding)
      × (claim_task_if_eligible
            (at "b" 900)
            "t1"
            "w2"
            (pos 1)
            "worker"
            none
            none
            (staffed demanding)
          ≡ with_eligibility
              (eligibility_of ("repo.read" ∷ []) (some "w2") (staffed demanding))
              (claim_task (at "b" 900) "t1" "w2" (pos 1) "worker" none none (staffed demanding))))
    ⊎ ((¬ Serves ("repo.read" ∷ []) (some "w2") (staffed demanding))
        × (claim_task_if_eligible
              (at "b" 900)
              "t1"
              "w2"
              (pos 1)
              "worker"
              none
              none
              (staffed demanding)
            ≡ raised
                (not_eligible (eligibility_of ("repo.read" ∷ []) (some "w2") (staffed demanding)))))
claim_task_if_eligible-Serves_example =
    claim_task_if_eligible-Serves (at "b" 900) "t1" "w2" (pos 1) "worker" none none demanding
      ("repo.read" ∷ []) (staffed demanding) demanding_stored demanding_requires

declared_db : Db
declared_db = record (staffed waiting) {
  worker_capabilities = row_of "w1" "repo.read" ∷ row_of "w2" "web" ∷ [];
}

declare_worker_capabilities-replaces_example :
    (normalize_capabilities ("Web" ∷ []) ≡ ok ("web" ∷ []))
    × All IsName ("web" ∷ [])
    × (contains (get_worker_capabilities "w2" declared_db) "repo.read" ≡ false)
    × (get_worker_capabilities "w1" declared_db ≡ get_worker_capabilities "w1" (staffed waiting))
unfolding declared_db declare_worker_capabilities normalize_capabilities string_eq select is_blank
declare_worker_capabilities-replaces_example =
    declare_worker_capabilities-replaces "w2" "w1" "repo.read" ("Web" ∷ []) ("web" ∷ [])
      (staffed waiting) declared_db refl (λ e. ground (arith, e, eq_iff "w1" "w2"))

decide-safe_example :
    (t : Task) × (required : List String) × (next_task 900 (staffed demanding) ≡ some t)
    × (execute ≡ execute)
    × (some "t1" ≡ some t.id)
    × (t.mode ≡ "read-only")
    × (required_capabilities t ≡ ok required)
    × Serves required (some "w1") (staffed demanding)
    × NothingDue 900 (staffed demanding)
unfolding get decide reconcile next_task required_capabilities normalize_capabilities
    evaluate_worker_eligibility eligibility_of get_worker_capabilities sort_texts find select
    first_by sort_by string_eq task_status_eq run_status_eq is_claimable has_stale_lease has_failed
    lacks_review lacks_completion lacks_successor
decide-safe_example =
    decide-safe 900 (some "w1") (staffed demanding)
      (decision_on demanding (some "w1")
        (eligibility_of ("repo.read" ∷ []) (some "w1") (staffed demanding)) ("repo.read" ∷ []))
      (refl, tt) refl refl

decide-idle_example :
    (decide 900 none none (with_task held) ≡ ok idle_decision)
    ↔ (NothingDue 900 (with_task held) × All (λ t. is_claimable 900 t ≡ false) (held ∷ []))
unfolding find
decide-idle_example = decide-idle 900 none (with_task held) (refl, tt)

decide-raises_example :
    (t : Task) × (next_task 900 (staffed malformed) ≡ some t)
    × (required_capabilities t
        ≡ raised (value_error "task required_capabilities must be a list of strings"))
    × ((reconcile 900 (staffed malformed)).findings ≡ [])
unfolding get decide reconcile next_task required_capabilities evaluate_worker_eligibility find
    select first_by sort_by string_eq task_status_eq run_status_eq is_claimable has_stale_lease
    has_failed lacks_review lacks_completion lacks_successor
decide-raises_example =
    decide-raises 900 none (staffed malformed)
      (value_error "task required_capabilities must be a list of strings") refl

-- A set of names: stripped, in lower case, sorted, and none twice
names_are_normalized :
    normalize_capabilities ("Repo.Read " ∷ "a-b" ∷ "repo.read" ∷ []) ≡ ok ("a-b" ∷ "repo.read" ∷ [])
unfolding normalize_capabilities string_eq
names_are_normalized = refl

kelvin_is_lowered : lower "AK{u}2\\" ≡ "ak{u}2\\"
unfolding lower
kelvin_is_lowered = refl
