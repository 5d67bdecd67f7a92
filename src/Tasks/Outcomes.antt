-- ===== src/Tasks/Outcomes.antt =====
-- What `fail_task` does, whoever calls it.
use personal_agent_runtime.Base.{
  ℕ, ◌≢◌, ◌⊎◌, String, Option, none, some, [], ◌∷◌, ◌++◌, ◌==◌, string_eq, option_eq, if◌then◌else◌,
  ◌≡◌, ◌∙◌, refl, inl, inr, arith,
}
use personal_agent_runtime.Base.Table.{find, update}
use personal_agent_runtime.Base.Table.Keys.{by_key-update}
use personal_agent_runtime.Json.{Json, str, object}
use personal_agent_runtime.Store.{TaskStatus, Task, Event, Db, Call, ok, task_by_id, insert_event}
use personal_agent_runtime.Tasks.{fail_task, is_owned_by}
use personal_agent_runtime.Base.Table.Rows.{find-test}
use personal_agent_runtime.Tasks.Effects.{failed_row, Result-cases}

-- The row after a failure that `worker` reports: it is failed and without a lease, and else as it was,
-- where this worker is its owner; where it has another owner, or none, it is as it was.
abbrev pub FailsFor : String → ℕ → Task → Task → Type 0
FailsFor worker now t t' =
    ((t.claimed_by ≡ some worker)
      × (t' ≡ record t { status = TaskStatus.failed; lease_expires_at = none; updated_at = now }))
    ⊎ ((t.claimed_by ≢ some worker) × (t' ≡ t))

module _ (c : Call) (k run_id worker summary : String) (blockers : Option Json) (db : Db) where
  row_after :
      (t : Task)
      → task_by_id k db ≡ some t
      → find (λ u. u.id == k) (update (is_owned_by k worker) (failed_row c.now) db.tasks)
        ≡ some (if is_owned_by k worker t then failed_row c.now t else t)
  row_after t here =
      by_key-update (λ u. u.id) k (is_owned_by k worker) (failed_row c.now) db.tasks (λ u. refl)
      ∙ rw here refl

  owner-FailsFor :
      (t : Task)
      → task_by_id k db ≡ some t
      → FailsFor worker c.now t (if is_owned_by k worker t then failed_row c.now t else t)
  unfolding is_owned_by
  owner-FailsFor t here =
      let own = find-test (λ u. u.id == k) db.tasks {x = t} here in
      elim (option_eq.dec t.claimed_by (some worker)) [
        | yes p ↦ inl (p, ground (arith, p, own))
        | no n ↦ inr (n, ground (arith, n, own))
      ]

  -- The event of a failure
  abbrev pub failure_event : Event
  failure_event = record {
    id = c.uuid 0;
    task_id = some k;
    type = "task.failed";
    actor = some worker;
    payload = object (("run_id", str run_id) ∷ []);
    created_at = c.now;
  }

  -- Where the new event's id is free, a failure is recorded for any stored task, in any status and from
  -- any worker: the row fails if the worker is the one that it is claimed by, also where it was
  -- completed or awaits a review, and is as it was if it is claimed by another one or by nobody; and an
  -- event says that the task failed in all cases.
  pub fail_task_any :
      (t : Task)
      → task_by_id k db ≡ some t
      → find (λ (e : Event). e.id == c.uuid 0) db.events ≡ none
      → (db' : Db) × (fail_task c k run_id worker summary blockers db ≡ ok (tt, db'))
        × ((t' : Task) × (task_by_id k db' ≡ some t') × FailsFor worker c.now t t')
        × (db'.events ≡ db.events ++ failure_event ∷ [])
  unfolding fail_task insert_event
  fail_task_any t here free =
      let row = row_after t here in
      elim (Result-cases (fail_task c k run_id worker summary blockers db)) [
        | inr (x, e) ↦ absurd (ground (arith, e, here, free, row))
        | inl ((u, db'), e) ↦ (
          db',
          e,
          (
            if is_owned_by k worker t then failed_row c.now t else t,
            ground (arith, e, here, free, row),
            owner-FailsFor t here,
          ),
          ground (arith, e, here, free, row),
        )
      ]
