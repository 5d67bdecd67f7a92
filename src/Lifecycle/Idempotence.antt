-- ===== src/Lifecycle/Idempotence.antt =====
-- Creating a task under an idempotency key happens once.
use personal_agent_runtime.Base.{
  ℕ, String, true, false, ◌&&◌, Option, none, some, [], ◌∷◌, ◌==◌, string_eq, option_eq, ◌≡◌, ◌<◌,
  ◌∙◌, pos, inl, inr, Option-cases, arith,
}
use mathlib.Core.Option.{some-injective}
use personal_agent_runtime.Base.Int.{fits_sqlite}
use personal_agent_runtime.Base.Text.{is_blank}
use personal_agent_runtime.Base.Table.Rows.{find-test, find-none, All-find}
use personal_agent_runtime.Base.Table.Keys.{Distinct-self, by_key-append_new}
use personal_agent_runtime.Store.{Task, Db, Call, ok, task_by_id}
use personal_agent_runtime.Tasks.{
  NewTask, create_task, insert_task, task_by_key, key_is_blank, new_row,
}
use personal_agent_runtime.Tasks.Effects.{create_task-ok, KeyIsHeldBy}
use personal_agent_runtime.Lifecycle.{create, step}
use personal_agent_runtime.Lifecycle.Laws.{SameJob, step-SameJob}
use personal_agent_runtime.Lifecycle.Reach.{IsValid, History, run, run-IsValid_from, step-IsValid}

-- The row of an id keeps its job, whatever commands follow.
pub run-SameJob :
    (h : History) (k : String) (db : Db) (t : Task)
    → task_by_id k db ≡ some t
    → (t' : Task) × (task_by_id k (run h db) ≡ some t') × SameJob t t'
unfolding run
run-SameJob [] k db t here = (t, here, ground arith)
run-SameJob ((c, cmd) ∷ rest) k db t here =
    let (t', after, same, _) = step-SameJob c cmd k db t here in
    let (t'', later, same') = run-SameJob rest k (step c cmd db) t' after in
    (t'', later, ground arith)

-- The row that a key finds is the row of its id.
key_row :
    (db : Db) (key : String) (x : Task)
    → IsValid db
    → task_by_key key db ≡ some x
    → (task_by_id x.id db ≡ some x) × (x.idempotency_key ≡ some key)
key_row db key x v e =
    let test : (x.idempotency_key == some key) ≡ true =
      find-test (λ (t : Task). t.idempotency_key == some key) db.tasks {x = x} e in
    (
      All-find (λ t. task_by_id t.id db ≡ some t) (λ t. t.idempotency_key == some key) db.tasks
          {x = x} (Distinct-self (λ t. t.id) db.tasks v.ids) e,
      ground arith,
    )

-- A row with a key is the one that the key finds.
found_by_key :
    (db : Db) (key k : String) (t : Task)
    → IsValid db
    → task_by_id k db ≡ some t
    → t.idempotency_key ≡ some key
    → (x : Task) × (task_by_key key db ≡ some x) × (x.id ≡ k)
found_by_key db key k t v here has = elim (Option-cases (task_by_key key db)) [
  | inl free ↦
      let other : (t.idempotency_key == some key) ≡ false =
        find-none (λ x. x.id == k) (λ x. x.idempotency_key == some key) db.tasks {x = t} free
          here in
      absurd (ground arith)
  | inr (x, e) ↦
      let (here', has') = key_row db key x v e in (x, e, v.keys x.id k key x t here' here has' has)
]

-- The row that `create_task` returns under a key is stored under its id, with the key.
created_row :
    (c : Call) (n : NewTask) (db db' : Db) (r : Task) (key : String)
    → IsValid db
    → n.idempotency_key ≡ some key
    → create_task c n db ≡ ok (r, db')
    → (task_by_id r.id db' ≡ some r) × (r.idempotency_key ≡ some key)
created_row c n db db' r key v has done =
    let (max, _, _, how) = create_task-ok c n db db' r done in
    elim how [
      | inl (unchanged, held) ↦
          let held' : task_by_key key db ≡ some r = rw has at held in
          rw unchanged (key_row db key r v held')
      | inr ((tasks, new, e, _), _) ↦
          (rw (tasks, e) (by_key-append_new (λ x. x.id) db.tasks (new_row c n max) new), rw e has)
    ]

created-IsValid :
    (c : Call) (n : NewTask) (db db' : Db) (r : Task)
    → IsValid db
    → create_task c n db ≡ ok (r, db')
    → IsValid db'
unfolding step
created-IsValid c n db db' r v done = rw done at (step-IsValid c (create n) db v)

insert_held :
    (c : Call) (n : NewTask) (t : Task) (key : Option String) (db : Db) (x : Task)
    → KeyIsHeldBy key db x
    → insert_task c n t key db ≡ ok (x, db)
unfolding insert_task
insert_held c n t none db x held = absurd held
insert_held c n t (some key) db x held = rw (held, insert_task)

-- The checks of `create_task` on its arguments
abbrev pub IsAcceptable : NewTask → Type 0
IsAcceptable n =
    (key_is_blank n.idempotency_key ≡ false)
    × ((max : ℕ) × (n.max_attempts ≡ pos max) × (0 < max))
    × (is_blank n.actor ≡ false)
    × ((fits_sqlite n.priority && fits_sqlite n.max_attempts) ≡ true)

replay :
    (c : Call) (n : NewTask) (db : Db) (x : Task)
    → IsAcceptable n
    → KeyIsHeldBy n.idempotency_key db x
    → create_task c n db ≡ ok (x, db)
unfolding create_task
replay c n db x (filled, (max, allowed, positive), actor, fits) held =
    ground (arith, insert_held c n (new_row c n max) n.idempotency_key db x held)

-- Once a task was created in a valid database under a key, any later acceptable request under this key, after any
-- history of commands, writes nothing and returns that same task: the row with its id, its goal, its
-- context and its limits as they were.
pub create_task-idempotent :
    (c : Call) (n : NewTask) (db db' : Db) (r : Task) (key : String)
    → IsValid db
    → n.idempotency_key ≡ some key
    → create_task c n db ≡ ok (r, db')
    → (h : History) (c' : Call) (n' : NewTask) → n'.idempotency_key ≡ some key
    → IsAcceptable n'
    → (r' : Task) × (create_task c' n' (run h db') ≡ ok (r', run h db')) × SameJob r r'
create_task-idempotent c n db db' r key v has done h c' n' has' acceptable =
    let (here, keyed) = created_row c n db db' r key v has done in
    let (t, later, same) = run-SameJob h r.id db' r here in
    let v' : IsValid (run h db') = run-IsValid_from h db' (created-IsValid c n db db' r v done) in
    let (_, _, _, _, _, _, same_key, _, _) = same in
    let (x, e, id) = found_by_key (run h db') key r.id t v' later (same_key ∙ keyed) in
    let here' : task_by_id x.id (run h db') ≡ some x = (key_row (run h db') key x v' e).0 in
    let x_is_t : x ≡ t = some-injective x t (ground arith) in
    (x, replay c' n' (run h db') x acceptable (rw has' e), rw x_is_t same)
