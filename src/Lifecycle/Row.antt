-- ===== src/Lifecycle/Row.antt =====
-- What one command does to one row of the task table.
use personal_agent_runtime.Base.{
  ℕ, String, Bool, true, Option, none, some, ◌==◌, string_eq, option_eq, if◌then◌else◌, ◌≡◌, refl,
  inl, inr, Bool-cases, arith, ◌<◌,
}
use personal_agent_runtime.Base.Table.{update}
use personal_agent_runtime.Base.Table.Rows.{find-test}
use personal_agent_runtime.Base.Table.Keys.{by_key-update, by_key-append_old}
use personal_agent_runtime.Json.{Fields, obj}
use personal_agent_runtime.Store.{
  TaskStatus, claimed, review_pending, task_status_eq, Task, Db, Call, ok, task_by_id,
}
use personal_agent_runtime.Tasks.{
  is_claimable, may_claim, claimed_row, is_held_by, has_id, retried_row, is_owned_by, Completion,
  create_task, claim_task, heartbeat, retry_task, complete_task, fail_task, NewTask, new_row,
}
use personal_agent_runtime.Tasks.Effects.{
  Result-cases, create_task-ok, claim_task-ok, heartbeat-ok, renewed_row, retry_task-ok,
  complete_task-ok, finished_row, fail_task-ok, failed_row,
}
use personal_agent_runtime.Review.{submit_review, reviewed_row}
use personal_agent_runtime.Review.Effects.{submit_review-ok}
use personal_agent_runtime.Lifecycle.{
  Command, create, claim, renew, retry, complete, fail, review, step, worker_of, claimant_of,
}

-- A row `t` before and `t'` after a command at the time of `c` in the name of `who`, which is a claim
-- if there is a `claimant`
pub data RowStep (c : Call) (who claimant : Option String) (t t' : Task) : Type 0 where
  same : t' ≡ t → RowStep c who claimant t t'
  claims :
      (worker : String) (expires : ℕ)
      → who ≡ some worker
      → claimant ≡ some worker
      → t.attempt_count < t.max_attempts
      → is_claimable c.now t ≡ true
      → t' ≡ claimed_row c.now expires worker t
      → RowStep c who claimant t t'
  renews :
      (worker : String) (expires : ℕ)
      → who ≡ some worker
      → claimant ≡ none
      → t.status ≡ claimed
      → t.claimed_by ≡ some worker
      → t' ≡ renewed_row c.now expires t
      → RowStep c who claimant t t'
  retries :
      claimant ≡ none
      → t.status ≡ TaskStatus.failed
      → t' ≡ retried_row c.now t t
      → RowStep c who claimant t t'
  finishes :
      (worker : String) (next_action : Option String) (context : Fields)
      → who ≡ some worker
      → claimant ≡ none
      → t.status ≡ claimed
      → t.claimed_by ≡ some worker
      → t.context ≡ obj context
      → t' ≡ finished_row c.now next_action context t
      → RowStep c who claimant t t'
  fails :
      (worker : String)
      → who ≡ some worker
      → claimant ≡ none
      → t.claimed_by ≡ some worker
      → t' ≡ failed_row c.now t
      → RowStep c who claimant t t'
  reviews :
      (verdict : String)
      → claimant ≡ none
      → t.status ≡ review_pending
      → t' ≡ reviewed_row c.now verdict t
      → RowStep c who claimant t t'

-- The row of a key after the command, if it had one before
abbrev pub Follows : Call → Option String → Option String → Task → Option Task → Type 0
Follows c who claimant t row = (t' : Task) × (row ≡ some t') × RowStep c who claimant t t'

module _ (c : Call) (k : String) (db : Db) (t : Task) (here : task_by_id k db ≡ some t) where
  stays : (who claimant : Option String) → Follows c who claimant t (task_by_id k db)
  stays who claimant = (t, here, same refl)

  -- The row after an UPDATE of the task table
  updated :
      (p : Task → Bool) (f : Task → Task) (same_id : (x : Task) → (f x).id ≡ x.id) (db' : Db)
      → db'.tasks ≡ update p f db.tasks
      → task_by_id k db' ≡ some (if p t then f t else t)
  updated p f same_id db' e =
      rw e (ground (arith, by_key-update (λ x. x.id) k p f db.tasks same_id))

  claim-Follows :
      (task_id worker : String) (db' : Db) (expires : ℕ)
      → db'.tasks ≡ update (may_claim c.now task_id) (claimed_row c.now expires worker) db.tasks
      → Follows c (some worker) (some worker) t (task_by_id k db')
  unfolding may_claim
  claim-Follows task_id worker db' expires e = elim (Bool-cases (may_claim c.now task_id t)) [
    | inl p ↦ (
      claimed_row c.now expires worker t,
      ground (arith, updated _ (claimed_row c.now expires worker) (λ x. refl) db' e),
      claims worker expires refl refl (ground arith) (ground arith) refl,
    )
    | inr p ↦ (
      t,
      ground (arith, updated _ (claimed_row c.now expires worker) (λ x. refl) db' e),
      same refl,
    )
  ]

  renew-Follows :
      (task_id worker : String) (db' : Db) (expires : ℕ)
      → db'.tasks ≡ update (is_held_by task_id worker) (renewed_row c.now expires) db.tasks
      → Follows c (some worker) none t (task_by_id k db')
  unfolding is_held_by
  renew-Follows task_id worker db' expires e = elim (Bool-cases (is_held_by task_id worker t)) [
    | inl p ↦ (
      renewed_row c.now expires t,
      ground (arith, updated _ (renewed_row c.now expires) (λ x. refl) db' e),
      renews worker expires refl refl (ground arith) (ground arith) refl,
    )
    | inr p ↦
        (t, ground (arith, updated _ (renewed_row c.now expires) (λ x. refl) db' e), same refl)
  ]

  -- The row that was read by its id is the one that an UPDATE of this id meets.
  read_row :
      (task_id : String) (read : Task)
      → task_by_id task_id db ≡ some read
      → t.id ≡ task_id
      → read ≡ t
  read_row task_id read found e =
      ground (arith, find-test (λ x. x.id == k) db.tasks {x = t} here, found)

  retry-Follows :
      (task_id : String) (db' : Db) (read : Task) (who : Option String)
      → task_by_id task_id db ≡ some read
      → read.status ≡ TaskStatus.failed
      → db'.tasks ≡ update (has_id task_id) (retried_row c.now read) db.tasks
      → Follows c who none t (task_by_id k db')
  retry-Follows task_id db' read who found failed e = elim (string_eq.dec t.id task_id) [
    | yes p ↦
        let same_row : read ≡ t = read_row task_id read found p in
        (
          retried_row c.now t t,
          ground (arith, updated _ (retried_row c.now read) (λ x. refl) db' e),
          retries refl (ground arith) refl,
        )
    | no n ↦ (t, ground (arith, updated _ (retried_row c.now read) (λ x. refl) db' e), same refl)
  ]

  finish-Follows :
      (task_id worker : String) (d : Completion) (db' : Db) (read : Task) (context : Fields)
      → task_by_id task_id db ≡ some read
      → read.status ≡ claimed
      → read.context ≡ obj context
      → db'.tasks
        ≡ update (is_owned_by task_id worker) (finished_row c.now d.next_action context) db.tasks
      → Follows c (some worker) none t (task_by_id k db')
  unfolding is_owned_by
  finish-Follows task_id worker d db' read context found held e' e =
      elim (Bool-cases (is_owned_by task_id worker t)) [
        | inl p ↦
            let same_row : read ≡ t = read_row task_id read found (ground arith) in
            (
              finished_row c.now d.next_action context t,
              ground
                  (arith, updated _ (finished_row c.now d.next_action context) (λ x. refl) db' e),
              finishes worker d.next_action context refl refl (ground arith) (ground arith)
                  (ground arith) refl,
            )
        | inr p ↦ (
          t,
          ground (arith, updated _ (finished_row c.now d.next_action context) (λ x. refl) db' e),
          same refl,
        )
      ]

  fail-Follows :
      (task_id worker : String) (db' : Db)
      → db'.tasks ≡ update (is_owned_by task_id worker) (failed_row c.now) db.tasks
      → Follows c (some worker) none t (task_by_id k db')
  unfolding is_owned_by
  fail-Follows task_id worker db' e = elim (Bool-cases (is_owned_by task_id worker t)) [
    | inl p ↦ (
      failed_row c.now t,
      ground (arith, updated _ (failed_row c.now) (λ x. refl) db' e),
      fails worker refl refl (ground arith) refl,
    )
    | inr p ↦ (t, ground (arith, updated _ (failed_row c.now) (λ x. refl) db' e), same refl)
  ]

  review-Follows :
      (task_id verdict : String) (db' : Db) (read : Task) (who : Option String)
      → task_by_id task_id db ≡ some read
      → read.status ≡ review_pending
      → db'.tasks ≡ update (has_id task_id) (reviewed_row c.now verdict) db.tasks
      → Follows c who none t (task_by_id k db')
  review-Follows task_id verdict db' read who found pending e = elim (string_eq.dec t.id task_id) [
    | yes p ↦
        let same_row : read ≡ t = read_row task_id read found p in
        (
          reviewed_row c.now verdict t,
          ground (arith, updated _ (reviewed_row c.now verdict) (λ x. refl) db' e),
          reviews verdict refl (ground arith) refl,
        )
    | no n ↦
        (t, ground (arith, updated _ (reviewed_row c.now verdict) (λ x. refl) db' e), same refl)
  ]

  create-Follows :
      (n : NewTask) (db' : Db) (r : Task)
      → create_task c n db ≡ ok (r, db')
      → Follows c none none t (task_by_id k db')
  create-Follows n db' r done =
      let (max, _, _, how) = create_task-ok c n db db' r done in
      elim how [
        | inr (stored, _) ↦ (
          t,
          rw (stored.0) (by_key-append_old (λ x. x.id) k db.tasks (new_row c n max) here),
          same refl,
        )
        | inl replayed ↦ (t, rw (replayed.0) here, same refl)
      ]

-- Every command leaves each row in the table, unchanged or changed in one of the listed ways.
pub step-Follows :
    (c : Call) (cmd : Command) (k : String) (db : Db) (t : Task)
    → task_by_id k db ≡ some t
    → Follows c (worker_of cmd) (claimant_of cmd) t (task_by_id k (step c cmd db))
unfolding step
step-Follows c (create n) k db t here = elim (Result-cases (create_task c n db)) [
  | inr (_, e) ↦ rw e (stays c k db t here none none)
  | inl ((r, db'), e) ↦ rw e (create-Follows c k db t here n db' r e)
]
step-Follows c (claim task_id w m role p mo) k db t here =
    elim (Result-cases (claim_task c task_id w m role p mo db)) [
      | inr (_, e) ↦ rw e (stays c k db t here (some w) (some w))
      | inl ((r, db'), e) ↦
          let (expires, _, tasks, _, _, _, _, _) =
            claim_task-ok c task_id w m role p mo db db' r e in
          rw e (claim-Follows c k db t here task_id w db' expires tasks)
    ]
step-Follows c (renew task_id w m) k db t here = elim (Result-cases (heartbeat c task_id w m db)) [
  | inr (_, e) ↦ rw e (stays c k db t here (some w) none)
  | inl ((r, db'), e) ↦
      let (expires, _, tasks, _, _) = heartbeat-ok c task_id w m db db' r e in
      rw e (renew-Follows c k db t here task_id w db' expires tasks)
]
step-Follows c (retry task_id a) k db t here = elim (Result-cases (retry_task c task_id a db)) [
  | inr (_, e) ↦ rw e (stays c k db t here none none)
  | inl ((r, db'), e) ↦
      let (read, found, failed, tasks, _, _) = retry_task-ok c task_id a db db' r e in
      rw e (retry-Follows c k db t here task_id db' read none found failed tasks)
]
step-Follows c (complete task_id run_id w d) k db t here =
    elim (Result-cases (complete_task c task_id run_id w d db)) [
      | inr (_, e) ↦ rw e (stays c k db t here (some w) none)
      | inl ((r, db'), e) ↦
          let (read, _, _, context, found, held, _, _, _, e', tasks, _) =
            complete_task-ok c task_id run_id w d db db' r e in
          rw e (finish-Follows c k db t here task_id w d db' read context found held e' tasks)
    ]
step-Follows c (fail task_id run_id w s b) k db t here =
    elim (Result-cases (fail_task c task_id run_id w s b db)) [
      | inr (_, e) ↦ rw e (stays c k db t here (some w) none)
      | inl ((r, db'), e) ↦ rw e (
          fail-Follows c k db t here task_id w db'
            (fail_task-ok c task_id run_id w s b db db' r e).0)
    ]
step-Follows c (review task_id v) k db t here = elim (Result-cases (submit_review c task_id v db)) [
  | inr (_, e) ↦ rw e (stays c k db t here none none)
  | inl ((r, db'), e) ↦
      let (reviewed, _) = submit_review-ok c task_id v db db' r e in
      let (read, _, found, pending, _, _, recorded) = reviewed in
      rw e (review-Follows c k db t here task_id v.verdict db' read none found pending recorded.0)
]
