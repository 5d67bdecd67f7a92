-- ===== src/Tasks/Finish.antt =====
-- What `complete_task` stores, for the worker that holds the task.
use personal_agent_runtime.Base.{
  ℕ, String, Bool, true, false, Option, none, some, List, [], ◌∷◌, ◌++◌, ◌==◌, string_eq, option_eq,
  if◌then◌else◌, ◌&&◌, ◌≡◌, ◌⊎◌, ◌∙◌, refl, inl, inr, arith, Bool-cases, Option-cases,
}
use personal_agent_runtime.Base.Table.{find, update}
use personal_agent_runtime.Base.Table.Rows.{find-test}
use personal_agent_runtime.Base.Table.Keys.{by_key-update}
use personal_agent_runtime.Json.{
  Json, bool, str, arr, nil, obj, Fields, object, merge, or_default, opt_str, get, truthy,
  truthy_at,
}
use personal_agent_runtime.Store.{
  TaskStatus, claimed, review_pending, task_status_eq, RunStatus, Task, Run, Event, Db, Call, ok,
  task_by_id, insert_event,
}
use personal_agent_runtime.Tasks.{
  Completion, complete_task, completed_run, requires_review, is_owned_by, is_run_of,
}
use personal_agent_runtime.Tasks.Effects.{Result-cases, finished_row}

-- The context asks for an independent review.
abbrev pub AsksForReview : Fields → Type 0
AsksForReview context =
    (v : Json) × (get "requires_independent_review" context ≡ some v) × (truthy v ≡ true)

-- The status that the task has afterwards
abbrev pub Awaits : Fields → TaskStatus → Bool → Type 0
Awaits context status review =
    (AsksForReview context × (status ≡ review_pending) × (review ≡ true))
    ⊎ ((¬ AsksForReview context) × (status ≡ TaskStatus.completed) × (review ≡ false))

-- The row of a task that was completed at `now`
abbrev pub done_task : ℕ → TaskStatus → Option String → Task → Task
done_task now status next_action t = record {
  id = t.id;
  goal = t.goal;
  idempotency_key = t.idempotency_key;
  status = status;
  repo = t.repo;
  mode = t.mode;
  context = t.context;
  priority = t.priority;
  claimed_by = t.claimed_by;
  lease_expires_at = none;
  next_action = next_action;
  attempt_count = t.attempt_count;
  max_attempts = t.max_attempts;
  created_at = t.created_at;
  updated_at = now;
}

-- Its run: what the worker says of it, over what its metadata said before
abbrev pub done_run : ℕ → Completion → Fields → Run → Run
done_run now d before r = record {
  id = r.id;
  task_id = r.task_id;
  worker = r.worker;
  status = RunStatus.completed;
  summary = some d.summary;
  evidence = or_default d.evidence (arr nil);
  blockers = or_default d.blockers (arr nil);
  metadata = obj (merge before d.metadata);
  started_at = r.started_at;
  finished_at = some now;
}

-- The event of a completion
abbrev pub done_event : Call → String → String → String → Option String → Bool → Event
done_event c task_id run_id worker next_action review = record {
  id = c.uuid 0;
  task_id = some task_id;
  type = if review then "task.review_requested" else "task.completed";
  actor = some worker;
  payload = object (
      ("run_id", str run_id)
      ∷ ("next_action", opt_str next_action)
      ∷ ("requires_independent_review", bool review)
      ∷ []);
  created_at = c.now;
}

requires_review-Awaits :
    (context : Fields)
    → (status : TaskStatus) × Awaits context status (requires_review context)
      × (status ≡ (if requires_review context then review_pending else TaskStatus.completed))
unfolding truthy_at
requires_review-Awaits context = elim (Bool-cases (requires_review context)) [
  | inl y ↦ (review_pending, inl (asked context y, refl, y), rw y refl)
  | inr n ↦ (TaskStatus.completed, inr (λ (v, e, t). ground (arith, n, e, t), refl, n), rw n refl)
]
  where
    asked : (d : Fields) → requires_review d ≡ true → AsksForReview d
    asked d y = elim (Option-cases (get "requires_independent_review" d)) [
      | inl none_there ↦ absurd (ground (arith, y, none_there))
      | inr (v, e) ↦ (v, e, ground (arith, y, e))
    ]

-- A row that is found by its id is the one found by its id and more.
find_both :
    (id : String) (p : Run → Bool) (rows : List Run) (r : Run)
    → find (λ (x : Run). x.id == id) rows ≡ some r
    → p r ≡ true
    → find (λ (x : Run). x.id == id && p x) rows ≡ some r
unfolding find
find_both id p [] r e h = cc
find_both id p (x ∷ xs) r e h = elim (string_eq.dec x.id id) [
  | yes q ↦ ground (arith, e, q, h)
  | no n ↦ ground (arith, find_both id p xs r, e, n, h)
]

-- The task is claimed by the worker, and the run is one of the worker for it.
abbrev pub IsAtWork : String → String → Task → Run → Type 0
IsAtWork task_id worker t r =
    (t.status ≡ claimed)
    × (t.claimed_by ≡ some worker)
    × (r.task_id ≡ task_id)
    × (r.worker ≡ worker)

module _ (c : Call) (task_id run_id worker : String) (d : Completion) (db : Db) (t : Task) (r : Run)
    (context before : Fields) (here : task_by_id task_id db ≡ some t)
    (ran : find (λ (x : Run). x.id == run_id) db.runs ≡ some r)
    (at_work : IsAtWork task_id worker t r) (has_context : t.context ≡ obj context)
    (had : r.metadata ≡ obj before)
    (free : find (λ (e : Event). e.id == c.uuid 0) db.events ≡ none) where
  own_run : find (is_run_of run_id task_id worker) db.runs ≡ some r
  unfolding is_run_of
  own_run =
      find_both run_id (λ x. x.task_id == task_id && x.worker == worker) db.runs r ran
        (ground (arith, at_work))

  row_after :
      find
        (λ u. u.id == task_id)
        (update (is_owned_by task_id worker) (finished_row c.now d.next_action context) db.tasks)
      ≡ some (finished_row c.now d.next_action context t)
  unfolding is_owned_by
  row_after =
      by_key-update (λ u. u.id) task_id (is_owned_by task_id worker)
        (finished_row c.now d.next_action context) db.tasks (λ u. refl)
      ∙ rw here (ground (arith, find-test (λ u. u.id == task_id) db.tasks {x = t} here, at_work))

  run_after :
      find
        (λ (x : Run). x.id == run_id)
        (update
          (is_run_of run_id task_id worker)
          (completed_run c.now d (merge before d.metadata))
          db.runs)
      ≡ some (done_run c.now d before r)
  unfolding is_run_of
  run_after =
      by_key-update (λ x. x.id) run_id (is_run_of run_id task_id worker)
        (completed_run c.now d (merge before d.metadata)) db.runs (λ x. refl)
      ∙ rw ran
          (ground (arith, find-test (λ (x : Run). x.id == run_id) db.runs {x = r} ran, at_work))

  -- Where the new event's id is free, and the task's context and the run's metadata are objects, a worker
  -- completes a stored task that is claimed by it, with a run of its own for this task: the row awaits a review where the task's context asks for one and is
  -- completed where it does not, has the next action and no lease, and is else as it was; the run is
  -- completed with what the worker says of it; and one event says which of the two happened.
  pub complete_task_finishes :
      (db' : Db) × (status : TaskStatus) × (review : Bool) × (complete_task c task_id run_id worker
          d db
        ≡ ok (tt, db'))
      × Awaits context status review
      × (task_by_id task_id db' ≡ some (done_task c.now status d.next_action t))
      × (find (λ (x : Run). x.id == run_id) db'.runs ≡ some (done_run c.now d before r))
      × (db'.events ≡ db.events ++ done_event c task_id run_id worker d.next_action review ∷ [])
  unfolding complete_task insert_event
  complete_task_finishes =
      let (status, awaits, is) = requires_review-Awaits context in
      elim (Result-cases (complete_task c task_id run_id worker d db)) [
        | inr (x, e) ↦
            absurd (ground (arith, e, here, own_run, at_work, has_context, had, free, row_after))
        | inl ((u, db'), e) ↦ (
          db',
          status,
          requires_review context,
          e,
          awaits,
          ground (arith, e, here, own_run, at_work, has_context, had, free, row_after, is),
          ground (arith, e, here, own_run, at_work, has_context, had, free, row_after, run_after),
          ground (arith, e, here, own_run, at_work, has_context, had, free, row_after),
        )
      ]
