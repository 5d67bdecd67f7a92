-- ===== src/Tasks/Effects.antt =====
-- What a transaction of par/db.py that commits has written.
use personal_agent_runtime.Base.{
  ℕ, ◌<◌, pos, ℤ, String, Option, none, some, [], ◌∷◌, ◌++◌, ◌==◌, string_eq, option_eq, ◌≡◌, refl,
  ◌⊎◌, inl, inr, Option-cases, arith,
}
use personal_agent_runtime.Base.Table.{find, update, count}
use personal_agent_runtime.Base.Table.Keys.{by_key-append_new}
use personal_agent_runtime.Json.{Json, Fields, obj, object, str, opt_str, merge}
use personal_agent_runtime.Store.{
  Task, Run, Db, Error, Result, ok, raised, task_by_id, TaskStatus, task_status_eq, claimed, Call,
  plus_minutes,
}
use personal_agent_runtime.Tasks.{
  claim_task, claimed_row, may_claim, new_run, heartbeat, is_held_by, retry_task, has_id,
  retried_row, complete_task, Completion, status_after_completion, is_owned_by, is_run_of,
  completed_run, members, spread_members, fail_task, failed_run, create_task, NewTask, new_row,
  checked_max_attempts, insert_task, task_by_key,
}

pub Result-cases {ℓ} :
    {A : Type ℓ} (r : Result A) → ((a : A) × (r ≡ ok a)) ⊎ ((e : Error) × (r ≡ raised e))
Result-cases (ok a) = inl (a, refl)
Result-cases (raised e) = inr (e, refl)

members-eq-ok : (j : Json) (d : Fields) → members j ≡ ok d → j ≡ obj d
members-eq-ok (obj d') d e = ground arith
members-eq-ok _ d e = cc

spread_members-eq-ok : (j : Json) (d : Fields) → spread_members j ≡ ok d → j ≡ obj d
spread_members-eq-ok (obj d') d e = ground arith
spread_members-eq-ok _ d e = cc

-- The claim met one row that passes its test, and changed it; it added one running run.
pub claim_task-ok :
    (c : Call) (task_id worker : String) (m : ℤ) (role : String) (provider model : Option String)
    (db db' : Db) (r : Task × String)
    → claim_task c task_id worker m role provider model db ≡ ok (r, db')
    → (expires : ℕ) × (plus_minutes c.now m ≡ ok expires)
      × (db'.tasks ≡ update (may_claim c.now task_id) (claimed_row c.now expires worker) db.tasks)
      × (count (may_claim c.now task_id) db.tasks ≡ 1)
      × (db'.runs
          ≡ db.runs
            ++ (new_run c task_id worker (
                  object (
                    ("role", str role)
                    ∷ ("provider", opt_str provider)
                    ∷ ("model", opt_str model)
                    ∷ []))
                ∷ []))
      × (find (λ r. r.id == c.uuid 0) db.runs ≡ none)
      × (task_by_id task_id db' ≡ some r.0)
      × (r.1 ≡ c.uuid 0)
unfolding claim_task
claim_task-ok c task_id worker m role provider model db db' r done =
    elim (Result-cases (plus_minutes c.now m)) [
      | inr (e, failed) ↦ absurd (ground arith)
      | inl (expires, fits) ↦ (
        expires,
        fits,
        ground arith,
        ground arith,
        ground arith,
        ground arith,
        ground arith,
        ground arith,
      )
    ]

abbrev pub renewed_row : ℕ → ℕ → Task → Task
renewed_row ts expires t = record t { lease_expires_at = some expires; updated_at = ts }

pub heartbeat-ok :
    (c : Call) (task_id worker : String) (m : ℤ) (db db' : Db) (r : Unit {0})
    → heartbeat c task_id worker m db ≡ ok (r, db')
    → (expires : ℕ) × (plus_minutes c.now m ≡ ok expires)
      × (db'.tasks ≡ update (is_held_by task_id worker) (renewed_row c.now expires) db.tasks)
      × (count (is_held_by task_id worker) db.tasks ≡ 1)
      × (db'.runs ≡ db.runs)
unfolding heartbeat
heartbeat-ok c task_id worker m db db' r done = elim (Result-cases (plus_minutes c.now m)) [
  | inr (e, failed) ↦ absurd (ground arith)
  | inl (expires, fits) ↦ (expires, fits, ground arith, ground arith, ground arith)
]

pub retry_task-ok :
    (c : Call) (task_id actor : String) (db db' : Db) (r : Task)
    → retry_task c task_id actor db ≡ ok (r, db')
    → (read : Task) × (task_by_id task_id db ≡ some read)
      × (read.status ≡ TaskStatus.failed)
      × (db'.tasks ≡ update (has_id task_id) (retried_row c.now read) db.tasks)
      × (db'.runs ≡ db.runs)
      × (task_by_id task_id db' ≡ some r)
unfolding retry_task
retry_task-ok c task_id actor db db' r done = elim (Option-cases (task_by_id task_id db)) [
  | inl missing ↦ absurd (ground arith)
  | inr (read, found) ↦ elim (task_status_eq.dec read.status TaskStatus.failed) [
    | yes p ↦ (read, found, p, ground arith, ground arith, ground arith)
    | no n ↦ absurd (ground arith)
  ]
]

abbrev pub finished_row : ℕ → Option String → Fields → Task → Task
finished_row ts next_action context t = record t {
  status = status_after_completion context;
  next_action = next_action;
  lease_expires_at = none;
  updated_at = ts;
}

pub complete_task-ok :
    (c : Call) (task_id run_id worker : String) (d : Completion) (db db' : Db) (r : Unit {0})
    → complete_task c task_id run_id worker d db ≡ ok (r, db')
    → (task : Task) × (run : Run) × (existing : Fields) × (context : Fields) × (task_by_id task_id
          db
        ≡ some task)
      × (task.status ≡ claimed)
      × (task.claimed_by ≡ some worker)
      × (find (is_run_of run_id task_id worker) db.runs ≡ some run)
      × (run.metadata ≡ obj existing)
      × (task.context ≡ obj context)
      × (db'.tasks
          ≡ update (is_owned_by task_id worker) (finished_row c.now d.next_action context) db.tasks)
      × (db'.runs
          ≡ update
              (is_run_of run_id task_id worker)
              (completed_run c.now d (merge existing d.metadata))
              db.runs)
unfolding complete_task
complete_task-ok c task_id run_id worker d db db' r done =
    elim (Option-cases (task_by_id task_id db)) [
      | inl missing ↦ absurd (ground arith)
      | inr (task, found) ↦ elim (task_status_eq.dec task.status claimed) [
        | no n ↦ absurd (ground arith)
        | yes p ↦ elim (option_eq.dec task.claimed_by (some worker)) [
          | no n ↦ absurd (ground arith)
          | yes q ↦ elim (Option-cases (find (is_run_of run_id task_id worker) db.runs)) [
            | inl n ↦ absurd (ground arith)
            | inr (run, ran) ↦ elim (Result-cases (spread_members run.metadata)) [
              | inr n ↦ absurd (ground arith)
              | inl (existing, e) ↦ elim (Result-cases (members task.context)) [
                | inr n ↦ absurd (ground arith)
                | inl (context, e') ↦ (
                  task,
                  run,
                  existing,
                  context,
                  found,
                  p,
                  q,
                  ran,
                  spread_members-eq-ok run.metadata existing e,
                  members-eq-ok task.context context e',
                  ground arith,
                  ground arith,
                )
              ]
            ]
          ]
        ]
      ]
    ]

abbrev pub failed_row : ℕ → Task → Task
failed_row ts t = record t { status = TaskStatus.failed; lease_expires_at = none; updated_at = ts }

-- Nothing is asked of the rows that the two UPDATEs meet; only the task of the event must exist.
pub fail_task-ok :
    (c : Call) (task_id run_id worker summary : String) (blockers : Option Json) (db db' : Db)
    (r : Unit {0})
    → fail_task c task_id run_id worker summary blockers db ≡ ok (r, db')
    → (db'.tasks ≡ update (is_owned_by task_id worker) (failed_row c.now) db.tasks)
      × (db'.runs
          ≡ update (is_run_of run_id task_id worker) (failed_run c.now summary blockers) db.runs)
unfolding fail_task
fail_task-ok c task_id run_id worker summary blockers db db' r done = ground arith

abbrev pub Stored : Db → Db → Task → Task → Type 0
Stored db db' t r =
    (db'.tasks ≡ db.tasks ++ (t ∷ []))
    × (task_by_id t.id db ≡ none)
    × (r ≡ t)
    × (db'.runs ≡ db.runs)

abbrev pub KeyIsHeldBy : Option String → Db → Task → Type 0
KeyIsHeldBy none db r = ⊥
KeyIsHeldBy (some key) db r = task_by_key key db ≡ some r

-- The row that has the key already is returned, and nothing is written.
abbrev pub Replayed : Db → Db → Option String → Task → Type 0
Replayed db db' key r = (db' ≡ db) × KeyIsHeldBy key db r

abbrev pub KeyIsFree : Option String → Db → Type 0
KeyIsFree none db = Unit
KeyIsFree (some key) db = task_by_key key db ≡ none

insert_task-ok :
    (c : Call) (n : NewTask) (t : Task) (key : Option String) (db db' : Db) (r : Task)
    → insert_task c n t key db ≡ ok (r, db')
    → Replayed db db' key r ⊎ (Stored db db' t r × KeyIsFree key db)
unfolding insert_task
insert_task-ok c n t none db db' r done =
    inr (ground (arith, by_key-append_new (λ t. t.id) db.tasks t), tt)
insert_task-ok c n t (some key) db db' r done = elim (Option-cases (task_by_key key db)) [
  | inl e ↦ inr (ground (arith, by_key-append_new (λ t. t.id) db.tasks t), e)
  | inr (row, e) ↦ inl (ground arith, ground arith)
]

-- Either the key names a stored row, or the new row was added.
pub create_task-ok :
    (c : Call) (n : NewTask) (db db' : Db) (r : Task)
    → create_task c n db ≡ ok (r, db')
    → (max : ℕ) × (n.max_attempts ≡ pos max)
      × (0 < max)
      × (Replayed db db' n.idempotency_key r
          ⊎ (Stored db db' (new_row c n max) r × KeyIsFree n.idempotency_key db))
unfolding create_task
create_task-ok c n db db' r done = elim (Result-cases (checked_max_attempts n.max_attempts)) [
  | inr (e, failed) ↦ absurd (ground arith)
  | inl (max, fits) ↦ (
    max,
    ground arith,
    ground arith,
    insert_task-ok c n (new_row c n max) n.idempotency_key db db' r (ground arith),
  )
]
