-- ===== src/Materialization/Repeat.antt =====
-- An event that became a task does so again: the task under its key, with the same job.
use mathlib.Core.Path.{subst}
use personal_agent_runtime.Base.{
  String, Option, none, some, string_eq, option_eq, ◌≡◌, inl, inr, refl, sym, ap, ◌∙◌, arith,
  Option-cases,
}
use personal_agent_runtime.Base.Int.{int_eq}
use personal_agent_runtime.Json.Canonical.{json_eq}
use personal_agent_runtime.Store.{bind-ok, Task, Db, Result, ok, Call}
use personal_agent_runtime.Approvals.{Approval}
use personal_agent_runtime.Tasks.{NewTask, create_task, checked_max_attempts}
use personal_agent_runtime.Tasks.Effects.{Result-cases}
use personal_agent_runtime.Ingress.{IngressEvent, get_event}
use personal_agent_runtime.Materialization.{Runtime, TaskRequest, task_request}
use personal_agent_runtime.Materialization.Create.{
  task_context, new_event_task, event_task_key, assert_existing_task_matches, approval_id,
  Materialization, materialized, matching_approval, store_event_task, materialize_request,
  materialize_ingress_event,
}
use personal_agent_runtime.Materialization.Untouched.{
  materialize_request-SameTables, materialize_ingress_event-SameTables,
}
use personal_agent_runtime.Lifecycle.Laws.{SameJob}
use personal_agent_runtime.Lifecycle.Reach.{IsValid, History, run}
use personal_agent_runtime.Lifecycle.Idempotence.{IsAcceptable, create_task-idempotent}

create_task-IsAcceptable :
    (c : Call) (n : NewTask) (db db' : Db) (r : Task)
    → create_task c n db ≡ ok (r, db')
    → IsAcceptable n
unfolding create_task
create_task-IsAcceptable c n db db' r h =
    elim (Result-cases (checked_max_attempts n.max_attempts)) [
      | inr (e, failed) ↦ absurd (ground (arith, h, failed))
      | inl (max, fits) ↦ (
        ground (arith, h),
        (max, ground (arith, fits), ground (arith, fits)),
        ground (arith, h),
        ground (arith, h),
      )
    ]

-- The check looks at nothing but the job.
assert_existing_task_matches-SameJob :
    (t t' : Task) (event : IngressEvent) (q : TaskRequest) (a : Option Approval)
    → SameJob t t'
    → assert_existing_task_matches t' q event.id (task_context event q a)
      ≡ assert_existing_task_matches t q event.id (task_context event q a)
unfolding assert_existing_task_matches
assert_existing_task_matches-SameJob t t' event q a
      (_, goal, repo, mode, context, priority, _, _, _) =
    rw (goal, repo, mode, context, priority) refl

store_event_task-from :
    (c : Call) (event : IngressEvent) (q : TaskRequest) (a : Option Approval) (rt : Runtime)
    (db : Db) (task : Task) (u : Unit)
    → create_task c (new_event_task event q (task_context event q a)) rt.db ≡ ok (task, db)
    → assert_existing_task_matches task q event.id (task_context event q a) ≡ ok u
    → store_event_task c event q a rt
      ≡ (ok (materialized (approval_id a) task), record rt { db = db })
unfolding store_event_task
store_event_task-from c event q a rt db task u created passed =
    rw (store_event_task, created) (rw passed refl)

-- Task commands between two materializations
abbrev pub later : History → Runtime → Runtime
later h rt = record rt { db = run h rt.db }

-- A second time, a task with the same job is returned and nothing is written.
abbrev Again :
    (Runtime → Result Materialization × Runtime) → History → Runtime → Option String → Task → Type 0
Again f h rt approval task =
    (task' : Task) × (f (later h rt) ≡ (ok (materialized approval task'), later h rt))
    × SameJob task task'

module _ (c c' : Call) (h : History) where
  store_event_task-Again :
      (event : IngressEvent) (q : TaskRequest) (a : Option Approval) (rt rt' : Runtime)
      (approval : Option String) (task : Task)
      → IsValid rt.db
      → store_event_task c event q a rt ≡ (ok (materialized approval task), rt')
      → Again (store_event_task c' event q a) h rt' approval task
  unfolding store_event_task
  store_event_task-Again event q a rt rt' approval task v done =
      let n = new_event_task event q (task_context event q a) in
      elim (Result-cases (create_task c n rt.db)) [
        | inr (x, e) ↦ absurd (ground (arith, done, e))
        | inl ((t, db'), e) ↦
            let done' = rw (store_event_task, e) at done in
            let (u, passed, same) =
              bind-ok (assert_existing_task_matches t q event.id (task_context event q a)) _
                (materialized approval task) (ap (λ p. p.0) done') in
            let t_is : t ≡ task = ground (arith, same) in
            let approval_is : approval_id a ≡ approval = ground (arith, same) in
            let (t', again, job) =
              create_task-idempotent c n rt.db db' t (event_task_key event.id) v refl e h c' n refl
                (create_task-IsAcceptable c n rt.db db' t e) in
            let checked = assert_existing_task_matches-SameJob t t' event q a job ∙ passed in
            subst (λ x. Again (store_event_task c' event q a) h x approval task)
              (ap (λ p. p.1) done')
              (
                t',
                store_event_task-from c' event q a (later h (record rt { db = db' })) (run h db') t'
                      u again checked
                    ∙ ap (λ x. (ok (materialized x t'), later h (record rt { db = db' })))
                        approval_is,
                subst (λ x. SameJob x t') t_is job,
              )
      ]

  materialize_request-Again :
      (event : IngressEvent) (q : TaskRequest) (rt rt' : Runtime) (approval : Option String)
      (task : Task)
      → IsValid rt.db
      → materialize_request c event q rt ≡ (ok (materialized approval task), rt')
      → Again (materialize_request c' event q) h rt' approval task
  unfolding materialize_request
  materialize_request-Again event q rt rt' approval task v done =
      let kept : rt'.approvals ≡ rt.approvals =
        sym (ap (λ p. p.1.approvals) done) ∙ (materialize_request-SameTables c event q rt).1 in
      elim (string_eq.dec q.mode "read-only") [
        | yes mode ↦
            let (t, again, job) =
              store_event_task-Again event q none rt rt' approval task v
                (ground (arith, done, mode)) in
            (t, ground (arith, mode, again), job)
        | no other ↦ elim (Result-cases (matching_approval event.id q rt.approvals)) [
          | inr (x, e) ↦ absurd (ground (arith, done, other, e))
          | inl (none, e) ↦ absurd (ground (arith, done, other, e))
          | inl (some a, e) ↦
              let (t, again, job) =
                store_event_task-Again event q (some a) rt rt' approval task v
                  (ground (arith, done, other, e)) in
              let e' = ap (matching_approval event.id q) kept ∙ e in
              (t, ground (arith, other, e', again), job)
        ]
      ]

  -- An event that became a task does so again after any task commands: the task that is returned is
  -- the one under the event's key, with the same job, and nothing is written.
  pub materialize_ingress_event-idempotent :
      (event_id : String) (rt rt' : Runtime) (approval : Option String) (task : Task)
      → IsValid rt.db
      → materialize_ingress_event c event_id rt ≡ (ok (materialized approval task), rt')
      → (task' : Task) × (materialize_ingress_event c' event_id (later h rt')
          ≡ (ok (materialized approval task'), later h rt'))
        × SameJob task task'
  unfolding materialize_ingress_event
  materialize_ingress_event-idempotent event_id rt rt' approval task v done =
      let kept : rt'.ingress ≡ rt.ingress =
        sym (ap (λ p. p.1.ingress) done) ∙ (materialize_ingress_event-SameTables c event_id rt).0 in
      elim (Option-cases (get_event event_id rt.ingress)) [
        | inl n ↦ absurd (ground (arith, done, n))
        | inr (event, here) ↦ elim (Result-cases (task_request event)) [
          | inr (x, e) ↦ absurd (ground (arith, done, here, e))
          | inl (q, e) ↦
              let (t, again, job) =
                materialize_request-Again event q rt rt' approval task v
                  (ground (arith, done, here, e)) in
              let here' = ap (get_event event_id) kept ∙ here in
              (t, ground (arith, here', e, again), job)
        ]
      ]
