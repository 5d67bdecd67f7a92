-- ===== src/Lifecycle/Exclusive.antt =====
-- A claim gives a lease that no other worker can take.
use personal_agent_runtime.Base.{
  ℕ, ℤ, All, String, true, Option, some, ◌≡◌, ◌≢◌, ◌≤◌, arith, contains, string_eq,
}
use personal_agent_runtime.Store.{
  Task, Db, Call, ok, raised, runtime_error, plus_minutes, task_by_id,
}
use personal_agent_runtime.Tasks.{claim_task, role_values, is_claimable}
use personal_agent_runtime.Tasks.Claims.{MayTake, claim_task_refused}
use personal_agent_runtime.Lifecycle.{Command, worker_of}
use personal_agent_runtime.Lifecycle.Laws.{Holds}
use personal_agent_runtime.Lifecycle.Reach.{IsValid, History, run, run-held, run-IsValid_from}

-- A task that a worker holds may not be taken by anybody.
held_refuses :
    (c : Call) (k worker : String) (db : Db) (t : Task)
    → task_by_id k db ≡ some t
    → Holds worker c.now t
    → (u : Task) → MayTake c k db u
    → ⊥
unfolding is_claimable
held_refuses c k worker db t here held u may = ground arith

-- While `worker` holds a stored task of a valid database, other workers' commands of any kind and
-- number do not make it claimable: each claim at a time within the lease, by whomever, in a known role
-- and with a lease that ends before the largest date, raises.
pub claim_excluded :
    (h : History) (k worker : String) (expires : ℕ) (db : Db) (t : Task)
    → IsValid db
    → task_by_id k db ≡ some t
    → Holds worker expires t
    → All (λ (e : Call × Command). (e.0.now ≤ expires) × (worker_of e.1 ≢ some worker)) h
    → (c : Call) (claimer : String) (m : ℤ) (role : String) (provider model : Option String)
    → c.now ≤ expires
    → contains role_values role ≡ true
    → (until : ℕ) → plus_minutes c.now m ≡ ok until
    → claim_task c k claimer m role provider model (run h db)
      ≡ raised (runtime_error "task is not claimable or retry budget is exhausted")
claim_excluded h k worker expires db t v here held others c claimer m role provider model early
      known until fits =
    let v' : IsValid (run h db) = run-IsValid_from h db v in
    claim_task_refused c k claimer m role provider model (run h db) v'.ids known until fits (
      held_refuses c k worker (run h db) t (run-held h k worker expires db t here held others)
        (held.0, held.1, (held.2.0, held.2.1, omega (arith, held.2.2))))
