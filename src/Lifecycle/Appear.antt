-- ===== src/Lifecycle/Appear.antt =====
-- A row that is in the task table after a command was there before, or is the one that
-- `create_task` wrote.
use personal_agent_runtime.Base.{
  ℕ, String, Bool, none, some, [], ◌∷◌, ◌++◌, ◌==◌, string_eq, ◌≡◌, refl, ◌⊎◌, inl, inr,
  Option-cases, arith, ◌<◌, ap,
}
use personal_agent_runtime.Base.Table.{update}
use personal_agent_runtime.Base.Table.Rows.{find-append}
use personal_agent_runtime.Base.Table.Keys.{
  by_key-update, Distinct, Distinct-update, Distinct-append,
}
use personal_agent_runtime.Store.{Task, Db, Call, task_by_id}
use personal_agent_runtime.Tasks.{
  NewTask, create_task, new_row, claim_task, heartbeat, retry_task, complete_task, fail_task,
}
use personal_agent_runtime.Tasks.Effects.{
  Result-cases, create_task-ok, KeyIsFree, claim_task-ok, heartbeat-ok, retry_task-ok,
  complete_task-ok, fail_task-ok,
}
use personal_agent_runtime.Review.{submit_review}
use personal_agent_runtime.Review.Effects.{submit_review-ok}
use personal_agent_runtime.Lifecycle.{
  Command, create, claim, renew, retry, complete, fail, review, step,
}

-- How the task table came from another: by an UPDATE that leaves the ids, or by the INSERT of a row
-- whose id and key are new
pub data Change (c : Call) (db db' : Db) : Type 0 where
  unchanged : db'.tasks ≡ db.tasks → Change c db db'
  updates :
      (p : Task → Bool) (f : Task → Task)
      → ((x : Task) → (f x).id ≡ x.id)
      → db'.tasks ≡ update p f db.tasks
      → Change c db db'
  inserts :
      (n : NewTask) (max : ℕ)
      → 0 < max
      → task_by_id (c.uuid 0) db ≡ none
      → KeyIsFree n.idempotency_key db
      → db'.tasks ≡ db.tasks ++ (new_row c n max ∷ [])
      → Change c db db'

pub step-Change : (c : Call) (cmd : Command) (db : Db) → Change c db (step c cmd db)
unfolding step
step-Change c (create n) db = elim (Result-cases (create_task c n db)) [
  | inr (_, e) ↦ rw e (unchanged refl)
  | inl ((r, db'), e) ↦
      let (max, _, some_allowed, how) = create_task-ok c n db db' r e in
      rw e (elim how [
        | inl replayed ↦ unchanged (ap (λ x. x.tasks) replayed.0)
        | inr ((tasks, new, _, _), free) ↦ inserts n max some_allowed new free tasks
      ])
]
step-Change c (claim task_id w m role p mo) db =
    elim (Result-cases (claim_task c task_id w m role p mo db)) [
      | inr (_, e) ↦ rw e (unchanged refl)
      | inl ((r, db'), e) ↦
          let (expires, _, tasks, _, _, _, _, _) =
            claim_task-ok c task_id w m role p mo db db' r e in
          rw e (updates _ _ (λ x. refl) tasks)
    ]
step-Change c (renew task_id w m) db = elim (Result-cases (heartbeat c task_id w m db)) [
  | inr (_, e) ↦ rw e (unchanged refl)
  | inl ((r, db'), e) ↦
      let (expires, _, tasks, _, _) = heartbeat-ok c task_id w m db db' r e in
      rw e (updates _ _ (λ x. refl) tasks)
]
step-Change c (retry task_id a) db = elim (Result-cases (retry_task c task_id a db)) [
  | inr (_, e) ↦ rw e (unchanged refl)
  | inl ((r, db'), e) ↦
      let (_, _, _, tasks, _, _) = retry_task-ok c task_id a db db' r e in
      rw e (updates _ _ (λ x. refl) tasks)
]
step-Change c (complete task_id run_id w d) db =
    elim (Result-cases (complete_task c task_id run_id w d db)) [
      | inr (_, e) ↦ rw e (unchanged refl)
      | inl ((r, db'), e) ↦
          let (_, _, _, _, _, _, _, _, _, _, tasks, _) =
            complete_task-ok c task_id run_id w d db db' r e in
          rw e (updates _ _ (λ x. refl) tasks)
    ]
step-Change c (fail task_id run_id w s b) db =
    elim (Result-cases (fail_task c task_id run_id w s b db)) [
      | inr (_, e) ↦ rw e (unchanged refl)
      | inl ((r, db'), e) ↦
          rw e (updates _ _ (λ x. refl) (fail_task-ok c task_id run_id w s b db db' r e).0)
    ]
step-Change c (review task_id v) db = elim (Result-cases (submit_review c task_id v db)) [
  | inr (_, e) ↦ rw e (unchanged refl)
  | inl ((r, db'), e) ↦
      let (reviewed, _) = submit_review-ok c task_id v db db' r e in
      let (_, _, _, _, _, _, recorded) = reviewed in rw e (updates _ _ (λ x. refl) recorded.0)
]

-- Where the row of an id comes from
abbrev pub Origin : Call → String → Db → Task → Type 0
Origin c k db t' =
    ((t : Task) × (task_by_id k db ≡ some t))
    ⊎ ((n : NewTask) × (max : ℕ) × (0 < max)
        × (t' ≡ new_row c n max)
        × (task_by_id k db ≡ none)
        × KeyIsFree n.idempotency_key db)

pub Change-Origin :
    (c : Call) (k : String) (db db' : Db) (t' : Task)
    → Change c db db'
    → task_by_id k db' ≡ some t'
    → Origin c k db t'
Change-Origin c k db db' t' (unchanged e) there = inl (t', rw (← e) there)
Change-Origin c k db db' t' (updates p f same e) there = elim (Option-cases (task_by_id k db)) [
  | inr found ↦ inl found
  | inl absent ↦ absurd (ground (arith, by_key-update (λ x. x.id) k p f db.tasks same))
]
Change-Origin c k db db' t' (inserts n max some_allowed new free e) there =
    elim (Option-cases (task_by_id k db)) [
      | inr found ↦ inl found
      | inl absent ↦ inr (
        n,
        max,
        some_allowed,
        ground (arith, find-append (λ x. x.id == k) db.tasks (new_row c n max)),
        absent,
        free,
      )
    ]

pub Change-Distinct :
    (c : Call) (db db' : Db)
    → Change c db db'
    → Distinct (λ x. x.id) db.tasks
    → Distinct (λ x. x.id) db'.tasks
Change-Distinct c db db' (unchanged e) d = rw e d
Change-Distinct c db db' (updates p f same e) d =
    rw e (Distinct-update (λ x. x.id) p f db.tasks same d)
Change-Distinct c db db' (inserts n max some_allowed new free e) d =
    rw e (Distinct-append (λ x. x.id) db.tasks (new_row c n max) new d)
