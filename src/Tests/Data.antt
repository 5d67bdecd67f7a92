-- ===== src/Tests/Data.antt =====
-- Two tasks, a worker and a clock.
use personal_agent_runtime.Base.{
  ℕ, String, none, some, [], ◌∷◌, pos, ◌<>◌, ◌≡◌, ◌==◌, string_eq, zero, suc, arith, Bool-cases,
  inl, inr, refl,
}
use personal_agent_runtime.Base.Table.{find}
use personal_agent_runtime.Json.{end, obj, arr, nil}
use personal_agent_runtime.Store.{pending, claimed, RunStatus, Task, Run, Db, Call, task_by_id}
use personal_agent_runtime.Tasks.{NewTask}
use personal_agent_runtime.Lifecycle.Validity.{IsValidRow}
use personal_agent_runtime.Lifecycle.Reach.{IsValid}
use mathlib.Core.Path.{subst}
use mathlib.Core.Option.{some-injective}

abbrev uuid : String → ℕ → String
uuid prefix zero = prefix <> "-0"
uuid prefix (suc zero) = prefix <> "-1"
uuid prefix (suc (suc _)) = prefix <> "-2"

abbrev pub at : String → ℕ → Call
at prefix now = record { now = now; uuid = uuid prefix }

abbrev pub request : NewTask
request = record {
  goal = "inspect";
  repo = some "o/r";
  mode = "read-only";
  context = end;
  priority = pos 100;
  idempotency_key = some "k";
  max_attempts = pos 3;
  actor = "human";
}

abbrev pub waiting : Task
waiting = record {
  id = "t1";
  goal = "inspect";
  idempotency_key = some "k1";
  status = pending;
  repo = none;
  mode = "read-only";
  context = obj end;
  priority = pos 100;
  claimed_by = none;
  lease_expires_at = none;
  next_action = none;
  attempt_count = 0;
  max_attempts = 3;
  created_at = 10;
  updated_at = 10;
}

abbrev pub held : Task
held = record waiting {
  id = "t2";
  idempotency_key = none;
  status = claimed;
  claimed_by = some "w1";
  lease_expires_at = some 900;
  attempt_count = 1;
}

abbrev pub run_of : String → String → Run
run_of id task_id = record {
  id = id;
  task_id = task_id;
  worker = "w1";
  status = RunStatus.running;
  summary = none;
  evidence = arr nil;
  blockers = arr nil;
  metadata = obj end;
  started_at = 20;
  finished_at = none;
}

abbrev pub with_task : Task → Db
with_task t = record {
  tasks = t ∷ [];
  runs = run_of "r1" t.id ∷ [];
  events = [];
  artifacts = [];
  checkpoints = [];
  worker_capabilities = [];
}

one_row :
    (t : Task)
    → IsValidRow t
    → (k : String) (u : Task) → task_by_id k (with_task t) ≡ some u
    → IsValidRow u
unfolding find
one_row t v k u e = elim (Bool-cases (t.id == k)) [
  | inl p ↦ subst IsValidRow (some-injective t u (ground arith)) v
  | inr p ↦ absurd (ground arith)
]

same_row :
    (t : Task) (k j : String) (u w : Task)
    → task_by_id k (with_task t) ≡ some u
    → task_by_id j (with_task t) ≡ some w
    → k ≡ j
unfolding find
same_row t k j u w e e' = ground arith

-- A database with one valid row is valid.
pub with_task-IsValid : (t : Task) → IsValidRow t → IsValid (with_task t)
unfolding find
with_task-IsValid t v = record {
  ids = (refl, tt);
  rows = λ k u e. one_row t v k u e;
  keys = λ k j key u w e e' h h'. same_row t k j u w e e';
}
