-- ===== src/Tasks/Claims.antt =====
-- When `claim_task` succeeds, and what it does then.
use personal_agent_runtime.Base.{
  ℕ, ℤ, String, true, Option, none, some, [], ◌∷◌, ◌++◌, ◌==◌, string_eq, contains, ◌&&◌, ◌≡◌, refl,
  inl, inr, arith, ltb, ◌<◌, ◌+◌, Option-cases,
}
use personal_agent_runtime.Base.Table.{find, count}
use personal_agent_runtime.Base.Table.Rows.{find-test}
use personal_agent_runtime.Base.Table.Keys.{Distinct, count-by_key, by_key-update}
use personal_agent_runtime.Json.{object, str, opt_str, arr, nil}
use personal_agent_runtime.Store.{
  claimed, running, Task, Run, Event, Db, Error, ok, raised, runtime_error, Call, plus_minutes,
  task_by_id,
}
use personal_agent_runtime.Tasks.Effects.{Result-cases, claim_task-ok}
use personal_agent_runtime.Tasks.{role_values, is_claimable, may_claim, claimed_row, claim_task}

-- A worker with a known role may take the task: it is stored, within its budget and claimable.
abbrev pub MayTake : Call → String → Db → Task → Type 0
MayTake c task_id db t =
    (task_by_id task_id db ≡ some t)
    × (t.attempt_count < t.max_attempts)
    × (is_claimable c.now t ≡ true)

-- The ids that the call draws for its run and its event are new.
abbrev pub FreshIds : Call → Db → Type 0
FreshIds c db =
    (find (λ (r : Run). r.id == c.uuid 0) db.runs ≡ none)
    × (find (λ (e : Event). e.id == c.uuid 1) db.events ≡ none)

-- The row that a worker has taken over until `expires`, field by field
abbrev pub taken_row : (now expires : ℕ) → String → Task → Task
taken_row now expires worker t = record {
  id = t.id;
  goal = t.goal;
  idempotency_key = t.idempotency_key;
  status = claimed;
  repo = t.repo;
  mode = t.mode;
  context = t.context;
  priority = t.priority;
  claimed_by = some worker;
  lease_expires_at = some expires;
  next_action = t.next_action;
  attempt_count = t.attempt_count + 1;
  max_attempts = t.max_attempts;
  created_at = t.created_at;
  updated_at = now;
}

-- The run that a claim starts, field by field
abbrev pub started_run : Call → String → String → String → Option String → Option String → Run
started_run c task_id worker role provider model = record {
  id = c.uuid 0;
  task_id = task_id;
  worker = worker;
  status = running;
  summary = none;
  evidence = arr nil;
  blockers = arr nil;
  metadata =
      object (("role", str role) ∷ ("provider", opt_str provider) ∷ ("model", opt_str model) ∷ []);
  started_at = c.now;
  finished_at = none;
}

module _ (c : Call) (task_id worker : String) (m : ℤ) (role : String)
    (provider model : Option String) (db : Db) (d : Distinct (λ t. t.id) db.tasks)
    (known : contains role_values role ≡ true) (expires : ℕ)
    (fits : plus_minutes c.now m ≡ ok expires) where
  matched : (t : Task) → MayTake c task_id db t → count (may_claim c.now task_id) db.tasks ≡ 1
  unfolding may_claim
  matched t may = ground (
    arith,
    count-by_key (λ t. t.id) task_id
        (λ t. ltb t.attempt_count t.max_attempts && is_claimable c.now t) db.tasks d,
  )

  not_raised :
      (t : Task) (e : Error)
      → MayTake c task_id db t
      → FreshIds c db
      → claim_task c task_id worker m role provider model db ≡ raised e
      → ⊥
  unfolding claim_task
  not_raised t e may fresh failed = ground (
    arith,
    matched t may,
    by_key-update (λ x. x.id) task_id (may_claim c.now task_id) (claimed_row c.now expires worker)
        db.tasks (λ x. refl),
  )

  -- Where task ids are unique, the ids drawn are new, the role is known and the lease ends before the
  -- largest date, a task that may be taken is claimed: the row is returned and stored with status
  -- claimed, the worker as its owner, the new lease and one more attempt, and is else as it was; and one
  -- running run of this worker is stored, under the id that is returned, with the role, provider and
  -- model of the claim.
  pub claim_task_succeeds :
      (t : Task)
      → MayTake c task_id db t
      → FreshIds c db
      → (db' : Db) × (claim_task c task_id worker m role provider model db
          ≡ ok ((taken_row c.now expires worker t, c.uuid 0), db'))
        × (task_by_id task_id db' ≡ some (taken_row c.now expires worker t))
        × (db'.runs ≡ db.runs ++ (started_run c task_id worker role provider model ∷ []))
  unfolding may_claim
  claim_task_succeeds t may fresh =
      elim (Result-cases (claim_task c task_id worker m role provider model db)) [
        | inr (e, failed) ↦ absurd (not_raised t e may fresh failed)
        | inl ((r, db'), done) ↦
            let (expires', fits', tasks, _, runs, _, row, run_id) =
              claim_task-ok c task_id worker m role provider model db db' r done in
            let e : expires' ≡ expires = ground (arith, fits, fits') in
            let e' : r.0 ≡ taken_row c.now expires worker t = ground (
              arith,
              by_key-update (λ x. x.id) task_id (may_claim c.now task_id)
                  (claimed_row c.now expires' worker) db.tasks (λ x. refl),
              find-test (λ x. x.id == task_id) db.tasks {x = t} may.0,
            ) in
            (db', ground arith, ground arith, runs)
      ]

  unmatched :
      ((t : Task) → MayTake c task_id db t → ⊥) → count (may_claim c.now task_id) db.tasks ≡ 0
  unfolding may_claim
  unmatched refused = elim (Option-cases (task_by_id task_id db)) [
    | inl n ↦ ground (
      arith,
      count-by_key (λ t. t.id) task_id
          (λ t. ltb t.attempt_count t.max_attempts && is_claimable c.now t) db.tasks d,
    )
    | inr (t, found) ↦ ground (
      arith,
      refused t,
      count-by_key (λ t. t.id) task_id
          (λ t. ltb t.attempt_count t.max_attempts && is_claimable c.now t) db.tasks d,
    )
  ]

  -- Where task ids are unique, the role is known and the lease ends before the largest date, a claim of
  -- a task that may not be taken raises, and so writes nothing.
  pub claim_task_refused :
      ((t : Task) → MayTake c task_id db t → ⊥)
      → claim_task c task_id worker m role provider model db
        ≡ raised (runtime_error "task is not claimable or retry budget is exhausted")
  unfolding claim_task
  claim_task_refused refused = ground (arith, unmatched refused)
