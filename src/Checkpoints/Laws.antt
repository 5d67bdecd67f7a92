-- ===== src/Checkpoints/Laws.antt =====
-- A checkpoint is written by the live owner of a task only, and is the one to resume from.
use personal_agent_runtime.Base.{
  ℕ, ◌≤◌, ◌<◌, String, true, some, List, [], ◌∷◌, ◌++◌, ◌==◌, string_eq, option_eq, ◌≡◌, inl, inr,
  arith, All, Bool-cases, Option-cases,
}
use personal_agent_runtime.Base.Text.{is_blank}
use personal_agent_runtime.Base.Table.{select, find}
use personal_agent_runtime.Base.Table.Rows.{find-test, All-find}
use personal_agent_runtime.Base.Table.Keys.{Distinct, Distinct-self}
use personal_agent_runtime.Store.{
  claimed, running, task_status_eq, run_status_eq, Task, Run, Checkpoint, Db, ok, Call, task_by_id,
  insert_event,
}
use personal_agent_runtime.Checkpoints.{
  NewCheckpoint, shape_error, new_checkpoint, is_active_owner, is_active_run, store_checkpoint,
  checkpoint_owned, write_checkpoint, latest, latest_checkpoint,
}

-- A row that no other is later than, at the end of the table
latest-append :
    (k : Checkpoint) (ks : List Checkpoint)
    → All (λ l. l.task_id ≡ k.task_id → l.created_at ≤ k.created_at) ks
    → latest (select (λ l. l.task_id == k.task_id) (ks ++ k ∷ [])) ≡ some k
unfolding latest select
latest-append k [] a = ground arith
latest-append k (l ∷ ks) a = ground (arith, latest-append k ks a.1, a.0)

-- The worker holds the task, and the lease has not run out.
abbrev pub IsLiveOwner : ℕ → String → Task → Type 0
IsLiveOwner ts worker t =
    (t.status ≡ claimed)
    × (t.claimed_by ≡ some worker)
    × ((e : ℕ) × (t.lease_expires_at ≡ some e) × (ts < e))

is_active_owner-IsLiveOwner :
    (ts : ℕ) (task_id worker : String) (t : Task)
    → is_active_owner ts task_id worker t ≡ true
    → (t.id ≡ task_id) × IsLiveOwner ts worker t
unfolding is_active_owner
is_active_owner-IsLiveOwner ts task_id worker t e = elim (Option-cases t.lease_expires_at) [
  | inl n ↦ absurd (ground arith)
  | inr (x, s) ↦ (ground arith, (ground arith, ground arith, (x, s, ground arith)))
]

-- The run is the worker's, of this task, and running.
abbrev pub IsActiveRun : String → String → String → Run → Type 0
IsActiveRun run_id task_id worker r =
    (r.id ≡ run_id) × (r.task_id ≡ task_id) × (r.worker ≡ worker) × (r.status ≡ running)

module _ (c : Call) (task_id run_id worker : String) (n : NewCheckpoint) (db db' : Db)
    (k : Checkpoint) where
  store_checkpoint-ok :
      store_checkpoint c task_id run_id worker n db ≡ ok (k, db')
      → (k ≡ new_checkpoint c task_id run_id worker n)
        × (db'.tasks ≡ db.tasks)
        × (db'.runs ≡ db.runs)
        × (db'.checkpoints ≡ db.checkpoints ++ new_checkpoint c task_id run_id worker n ∷ [])
  unfolding store_checkpoint insert_event
  store_checkpoint-ok e = ground arith

  checkpoint_owned-ok :
      checkpoint_owned c task_id run_id worker n db ≡ ok (k, db')
      → (t : Task) × (r : Run) × (find (is_active_owner c.now task_id worker) db.tasks ≡ some t)
        × (find (is_active_run run_id task_id worker) db.runs ≡ some r)
        × (store_checkpoint c task_id run_id worker n db ≡ ok (k, db'))
  unfolding checkpoint_owned
  checkpoint_owned-ok e =
      elim (Option-cases (find (is_active_owner c.now task_id worker) db.tasks)) [
        | inl none_owned ↦ absurd (cc (rw none_owned at e))
        | inr (t, owned) ↦
            elim (Option-cases (find (is_active_run run_id task_id worker) db.runs)) [
              | inl none_ran ↦ absurd (cc (rw (owned, none_ran) at e))
              | inr (r, ran) ↦ (t, r, owned, ran, rw (owned, ran) at e)
            ]
      ]

  is_active_run-IsActiveRun :
      (r : Run) → is_active_run run_id task_id worker r ≡ true → IsActiveRun run_id task_id worker r
  unfolding is_active_run
  is_active_run-IsActiveRun r e = ground arith

  write_checkpoint-owned :
      write_checkpoint c task_id run_id worker n db ≡ ok (k, db')
      → checkpoint_owned c task_id run_id worker n db ≡ ok (k, db')
  unfolding write_checkpoint
  write_checkpoint-owned e = elim (Bool-cases (is_blank n.summary)) [
    | inl b ↦ absurd (cc (rw b at e))
    | inr b ↦ elim (Option-cases (shape_error n)) [
      | inr (x, s) ↦ absurd (cc (rw (b, s) at e))
      | inl s ↦ rw (b, s) at e
    ]
  ]

  -- Where task ids are unique, of a checkpoint that was written: the worker holds the stored task with a lease that has not run out
  -- and has a running run of it; the tasks and the runs are as they were; and, where no earlier
  -- checkpoint of the task is from a later time, it is the one that is resumed from.
  pub write_checkpoint-ok :
      Distinct (λ t. t.id) db.tasks
      → All (λ l. l.task_id ≡ task_id → l.created_at ≤ c.now) db.checkpoints
      → write_checkpoint c task_id run_id worker n db ≡ ok (k, db')
      → (t : Task) × (r : Run) × (task_by_id task_id db ≡ some t)
        × IsLiveOwner c.now worker t
        × (find (is_active_run run_id task_id worker) db.runs ≡ some r)
        × IsActiveRun run_id task_id worker r
        × (db'.tasks ≡ db.tasks)
        × (db'.runs ≡ db.runs)
        × (latest_checkpoint task_id db' ≡ some k)
  unfolding latest_checkpoint
  write_checkpoint-ok distinct earlier e =
      let (t, r, owned, ran, stored) = checkpoint_owned-ok (write_checkpoint-owned e) in
      let (k_is, tasks, runs, checkpoints) = store_checkpoint-ok stored in
      let (id_is, live) =
        is_active_owner-IsLiveOwner c.now task_id worker t
          (find-test (is_active_owner c.now task_id worker) db.tasks {x = t} owned) in
      let self : task_by_id t.id db ≡ some t =
        All-find (λ u. task_by_id u.id db ≡ some u) (is_active_owner c.now task_id worker) db.tasks
          {x = t} (Distinct-self (λ u. u.id) db.tasks distinct) owned in
      (
        t,
        r,
        rw id_is at self,
        live,
        ran,
        is_active_run-IsActiveRun r
            (find-test (is_active_run run_id task_id worker) db.runs {x = r} ran),
        tasks,
        runs,
        rw (checkpoints, k_is)
            (latest-append (new_checkpoint c task_id run_id worker n) db.checkpoints earlier),
      )
