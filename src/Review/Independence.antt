-- ===== src/Review/Independence.antt =====
-- A review is independent of the work that it reviews, and it settles the task.
use mathlib.Core.List.{Memᴰ}
use personal_agent_runtime.Base.{
  ℕ, String, some, none, [], ◌∷◌, ◌++◌, ◌<>◌, ◌==◌, string_eq, ◌≡◌, ◌≢◌, ◌≤◌, ◌⊎◌, ◌∙◌, inl, inr,
  refl, arith, true, false, All, contains, pos,
}
use personal_agent_runtime.Base.Table.{select}
use personal_agent_runtime.Base.Table.Rows.{find-test}
use personal_agent_runtime.Base.Table.Keys.{by_key-update}
use personal_agent_runtime.Base.Table.Sorted.{
  All-select, All-of_select, All-test, All-first_by, All-map_of, first_by-least, All-Mem,
}
use personal_agent_runtime.Json.{Json, str, int, obj, arr, nil, object, fields, opt_str, or_default}
use personal_agent_runtime.Store.{
  TaskStatus, review_pending, review_rejected, RunStatus, task_status_eq, run_status_eq, Task, Run,
  Db, ok, Call, task_by_id,
}
use personal_agent_runtime.Tasks.{has_id}
use personal_agent_runtime.Review.{
  Review, ReviewResult, verdicts, started_later, is_completed_run, reviewed_run, reviewed_row,
  submit_review,
}
use personal_agent_runtime.Review.Effects.{submit_review-ok}

-- A stored, completed run of the task, and no completed run of the task started later
pub record IsLatestWork (task_id : String) (db : Db) (run : Run) : Type 0 where
  pub is_stored : Memᴰ run db.runs
  pub is_of_task : run.task_id ≡ task_id
  pub is_completed : run.status ≡ RunStatus.completed
  pub is_latest :
      All
        (λ (r : Run).
          r.task_id ≡ task_id → r.status ≡ RunStatus.completed → r.started_at ≤ run.started_at)
        db.runs

reviewed_run-IsLatestWork :
    (task_id : String) (db : Db) (run : Run)
    → reviewed_run task_id db ≡ some run
    → IsLatestWork task_id db run
unfolding reviewed_run
reviewed_run-IsLatestWork task_id db run e =
    let work = select (is_completed_run task_id) db.runs in
    let passed : is_completed_run task_id run ≡ true =
      All-first_by started_later (λ r. is_completed_run task_id r ≡ true) work {m = run}
        (All-test (is_completed_run task_id) db.runs) e in
    record {
      is_stored =
          All-first_by started_later (λ r. Memᴰ r db.runs) work {m = run}
            (All-select (λ r. Memᴰ r db.runs) (is_completed_run task_id) db.runs (All-Mem db.runs))
            e;
      is_of_task = ground (arith, passed);
      is_completed = ground (arith, passed);
      is_latest =
          All-map_of db.runs (λ r h of_task done. ground (arith, h, of_task, done))
            (All-of_select (λ r. started_later r run ≡ false) (is_completed_run task_id) db.runs
              (first_by-least started_later (λ r. ground arith) (λ r s h. ground arith)
                (λ r s t h k. ground arith) work {m = run} e));
    }

-- The status that a verdict gives to the task
abbrev pub Settles : String → TaskStatus → Type 0
Settles verdict status =
    ((verdict ≡ "accepted") × (status ≡ TaskStatus.completed))
    ⊎ ((verdict ≡ "rejected") × (status ≡ review_rejected))

-- A task that was settled at `now`: it has no owner and no lease, and is else as it was.
abbrev pub settled_task : ℕ → TaskStatus → Task → Task
settled_task now status t = record {
  id = t.id;
  goal = t.goal;
  idempotency_key = t.idempotency_key;
  status = status;
  repo = t.repo;
  mode = t.mode;
  context = t.context;
  priority = t.priority;
  claimed_by = none;
  lease_expires_at = none;
  next_action = t.next_action;
  attempt_count = t.attempt_count;
  max_attempts = t.max_attempts;
  created_at = t.created_at;
  updated_at = now;
}

-- What the critic's run says of itself and of the run that it reviewed
abbrev pub critique : Review → String → Json
critique v reviewed_run_id = object (
    ("role", str "critic")
    ∷ ("provider", opt_str v.provider)
    ∷ ("model", opt_str v.model)
    ∷ ("cost_usd", int (pos 0))
    ∷ (
      "review",
      obj (
          fields (
            ("findings", or_default v.findings (arr nil))
            ∷ ("severity", str v.severity)
            ∷ ("evidence_gap", or_default v.evidence_gap (arr nil))
            ∷ ("recommended_action", str v.recommended_action)
            ∷ ("verdict", str v.verdict)
            ∷ [])),
    )
    ∷ ("reviewed_run_id", str reviewed_run_id)
    ∷ [])

-- The run of the critic, field by field
abbrev pub critic_run : Call → String → Review → String → Run
critic_run c task_id v reviewed_run_id = record {
  id = c.uuid 0;
  task_id = task_id;
  worker = v.reviewer;
  status = RunStatus.completed;
  summary = some ("Independent critic review: " <> v.verdict);
  evidence = arr nil;
  blockers = arr nil;
  metadata = critique v reviewed_run_id;
  started_at = c.now;
  finished_at = some c.now;
}

settled_row :
    (now : ℕ) (verdict : String) (t : Task)
    → contains verdicts verdict ≡ true
    → (status : TaskStatus) × Settles verdict status
      × (reviewed_row now verdict t ≡ settled_task now status t)
settled_row now verdict t known = elim (string_eq.dec verdict "accepted") [
  | yes p ↦ (TaskStatus.completed, inl (p, refl), ground (arith, p))
  | no n ↦ elim (string_eq.dec verdict "rejected") [
    | yes q ↦ (review_rejected, inr (q, refl), ground (arith, n))
    | no m ↦ absurd (ground (arith, known, n, m))
  ]
]

-- A review that was submitted: the stored task awaited one; the reviewed run is a completed run of the
-- task than which none started later, and its worker is not the reviewer; the task is completed where
-- the verdict is "accepted" and rejected where it is "rejected", without owner and lease and else as it
-- was; and one completed run of the reviewer was added, in the role of the critic, which holds the
-- review and names the run that it reviews.
pub submit_review-independent :
    (c : Call) (task_id : String) (v : Review) (db db' : Db) (r : ReviewResult)
    → submit_review c task_id v db ≡ ok (r, db')
    → (task : Task) × (run : Run) × (status : TaskStatus) × (task_by_id task_id db ≡ some task)
      × (task.status ≡ review_pending)
      × IsLatestWork task_id db run
      × (run.worker ≢ v.reviewer)
      × Settles v.verdict status
      × (task_by_id task_id db' ≡ some (settled_task c.now status task))
      × (db'.runs ≡ db.runs ++ critic_run c task_id v run.id ∷ [])
submit_review-independent c task_id v db db' r e =
    let ((task, run, here, awaits, ran, differs, (tasks, runs, _)), verdict) =
      submit_review-ok c task_id v db db' r e in
    let own = find-test (λ t. t.id == task_id) db.tasks {x = task} here in
    let (status, settles, row) = settled_row c.now v.verdict task verdict in
    (
      task,
      run,
      status,
      here,
      awaits,
      reviewed_run-IsLatestWork task_id db run ran,
      differs,
      settles,
      rw tasks (
          by_key-update (λ t. t.id) task_id (has_id task_id) (reviewed_row c.now v.verdict) db.tasks
            (λ t. refl)
          ∙ rw here (rw own (rw row refl))),
      runs,
    )
