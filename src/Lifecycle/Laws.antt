-- ===== src/Lifecycle/Laws.antt =====
-- What a command may and may not do to a task that is stored.
use personal_agent_runtime.Base.{
  ℕ, String, Option, none, some, ◌≡◌, ◌≢◌, ◌≤◌, ◌+◌, ◌⊎◌, ◌<◌, inl, inr, sym, ap, ◌∙◌, arith,
}
use mathlib.Core.Path.{subst}
use personal_agent_runtime.Store.{
  TaskStatus, pending, claimed, completed, failed, review_pending, review_rejected, dead_letter,
  Task, Db, Call, task_by_id, task_status_eq,
}
use personal_agent_runtime.Tasks.{is_claimable}
use personal_agent_runtime.Lifecycle.{Command, step, worker_of, claimant_of}
use personal_agent_runtime.Lifecycle.Row.{
  RowStep, same, claims, renews, retries, finishes, fails, reviews, step-Follows,
}
use personal_agent_runtime.Lifecycle.Validity.{IsValidRow}

-- The statuses that one command can give to a task of a status
abbrev pub IsEdge : TaskStatus → TaskStatus → Type 0
IsEdge pending s = (s ≡ pending) ⊎ (s ≡ claimed)
IsEdge claimed s = (s ≡ claimed) ⊎ ((s ≡ completed) ⊎ ((s ≡ review_pending) ⊎ (s ≡ failed)))
IsEdge completed s = (s ≡ completed) ⊎ (s ≡ failed)
IsEdge failed s = (s ≡ failed) ⊎ ((s ≡ pending) ⊎ (s ≡ dead_letter))
IsEdge review_pending s =
    (s ≡ review_pending) ⊎ ((s ≡ completed) ⊎ ((s ≡ review_rejected) ⊎ (s ≡ failed)))
IsEdge review_rejected s = s ≡ review_rejected
IsEdge dead_letter s = s ≡ dead_letter

RowStep-IsEdge :
    (c : Call) (who claimant : Option String) (t t' : Task)
    → IsValidRow t
    → RowStep c who claimant t t'
    → IsEdge t.status t'.status
unfolding is_claimable
RowStep-IsEdge c who claimant t t' v (same e) = ground arith
RowStep-IsEdge c who claimant t t' v (claims worker expires w m room claimable e) = ground arith
RowStep-IsEdge c who claimant t t' v (renews worker expires w m held owner e) = ground arith
RowStep-IsEdge c who claimant t t' v (retries m status e) = ground arith
RowStep-IsEdge c who claimant t t' v (finishes worker next context w m held owner ctx e) =
    ground arith
RowStep-IsEdge c who claimant t t' v (fails worker w m owner e) = ground arith
RowStep-IsEdge c who claimant t t' v (reviews verdict m status e) = ground arith

-- A command keeps a stored task whose row is valid stored, and moves it only along the edges of the
-- status machine.
pub step-IsEdge :
    (c : Call) (cmd : Command) (k : String) (db : Db) (t : Task)
    → IsValidRow t
    → task_by_id k db ≡ some t
    → (t' : Task) × (task_by_id k (step c cmd db) ≡ some t') × IsEdge t.status t'.status
step-IsEdge c cmd k db t v here =
    let (t', after, s) = step-Follows c cmd k db t here in
    (t', after, RowStep-IsEdge c (worker_of cmd) (claimant_of cmd) t t' v s)

-- What a task is about, and how often it may be tried
abbrev pub SameJob : Task → Task → Type 0
SameJob t t' =
    (t'.id ≡ t.id)
    × (t'.goal ≡ t.goal)
    × (t'.repo ≡ t.repo)
    × (t'.mode ≡ t.mode)
    × (t'.context ≡ t.context)
    × (t'.priority ≡ t.priority)
    × (t'.idempotency_key ≡ t.idempotency_key)
    × (t'.max_attempts ≡ t.max_attempts)
    × (t'.created_at ≡ t.created_at)

pub RowStep-SameJob :
    (c : Call) (who claimant : Option String) (t t' : Task)
    → RowStep c who claimant t t'
    → SameJob t t'
RowStep-SameJob c who claimant t t' (same e) = ground arith
RowStep-SameJob c who claimant t t' (claims worker expires w m room claimable e) = ground arith
RowStep-SameJob c who claimant t t' (renews worker expires w m held owner e) = ground arith
RowStep-SameJob c who claimant t t' (retries m status e) = ground arith
RowStep-SameJob c who claimant t t' (finishes worker next context w m held owner ctx e) =
    ground arith
RowStep-SameJob c who claimant t t' (fails worker w m owner e) = ground arith
RowStep-SameJob c who claimant t t' (reviews verdict m status e) = ground arith

-- Nobody took the task over: it is not claimed, or it was before, by the same worker.
abbrev pub IsNotTaken : Task → Task → Type 0
IsNotTaken t t' = (t'.status ≢ claimed) ⊎ ((t.status ≡ claimed) × (t'.claimed_by ≡ t.claimed_by))

-- Nobody holds the task: it is pending, or its lease ran out before `now`.
abbrev pub IsFree : ℕ → Task → Type 0
IsFree now t =
    (t.status ≡ pending)
    ⊎ ((t.status ≡ claimed)
        × ((expires : ℕ) × (t.lease_expires_at ≡ some expires) × (expires < now)))

-- `worker` took the task over, which counts as one attempt.
abbrev pub TakesOver : ℕ → String → Task → Task → Type 0
TakesOver now worker t t' =
    (t'.attempt_count ≡ t.attempt_count + 1)
    × (t'.attempt_count ≤ t.max_attempts)
    × IsFree now t
    × (t'.status ≡ claimed)
    × (t'.claimed_by ≡ some worker)

-- A claim leaves the row exactly as it was, or takes the task over and counts; any other command
-- leaves the attempt count, and nobody takes the task over.
abbrev pub CountsAttempt : ℕ → Option String → Task → Task → Type 0
CountsAttempt now none t t' = (t'.attempt_count ≡ t.attempt_count) × IsNotTaken t t'
CountsAttempt now (some worker) t t' = (t' ≡ t) ⊎ TakesOver now worker t t'

unchanged-CountsAttempt :
    (now : ℕ) (claimant : Option String) (t t' : Task) → t' ≡ t → CountsAttempt now claimant t t'
unchanged-CountsAttempt now (some worker) t t' e = inl e
unchanged-CountsAttempt now none t t' e = elim (task_status_eq.dec t.status claimed) [
  | yes p ↦ (ap (λ u. u.attempt_count) e, inr (p, ap (λ u. u.claimed_by) e))
  | no n ↦ (ap (λ u. u.attempt_count) e, inl (λ q. n (sym (ap (λ u. u.status) e) ∙ q)))
]

not_a_claim :
    (now : ℕ) (claimant : Option String) (t t' : Task)
    → claimant ≡ none
    → (t'.attempt_count ≡ t.attempt_count) × IsNotTaken t t'
    → CountsAttempt now claimant t t'
not_a_claim now claimant t t' m h = subst (λ x. CountsAttempt now x t t') (sym m) h

RowStep-CountsAttempt :
    (c : Call) (who claimant : Option String) (t t' : Task)
    → RowStep c who claimant t t'
    → CountsAttempt c.now claimant t t'
unfolding is_claimable
RowStep-CountsAttempt c who claimant t t' (same e) = unchanged-CountsAttempt c.now claimant t t' e
RowStep-CountsAttempt c who claimant t t' (claims worker expires w m room claimable e) =
    subst (λ x. CountsAttempt c.now x t t') (sym m) (inr (ground arith))
RowStep-CountsAttempt c who claimant t t' (renews worker expires w m held owner e) =
    not_a_claim c.now claimant t t' m (ground arith)
RowStep-CountsAttempt c who claimant t t' (retries m status e) =
    not_a_claim c.now claimant t t' m (ground arith, inl (λ q. ground (arith, e, q)))
RowStep-CountsAttempt c who claimant t t' (finishes worker next context w m held owner ctx e) =
    not_a_claim c.now claimant t t' m (ground arith, inl (λ q. ground (arith, e, q)))
RowStep-CountsAttempt c who claimant t t' (fails worker w m owner e) =
    not_a_claim c.now claimant t t' m (ground arith, inl (λ q. ground (arith, e, q)))
RowStep-CountsAttempt c who claimant t t' (reviews verdict m status e) =
    not_a_claim c.now claimant t t' m (ground arith, inl (λ q. ground (arith, e, q)))

-- No command changes a stored task's goal, repository, mode, context, priority, key, attempt limit or time
-- of creation. A claim leaves the row exactly as it was, or its worker takes a free task over, and then
-- the attempt count is one more and within the limit; any other command leaves the attempt count, and
-- leaves the task unclaimed or with the owner that it had.
pub step-SameJob :
    (c : Call) (cmd : Command) (k : String) (db : Db) (t : Task)
    → task_by_id k db ≡ some t
    → (t' : Task) × (task_by_id k (step c cmd db) ≡ some t')
      × SameJob t t'
      × CountsAttempt c.now (claimant_of cmd) t t'
step-SameJob c cmd k db t here =
    let (t', after, s) = step-Follows c cmd k db t here in
    (
      t',
      after,
      RowStep-SameJob c (worker_of cmd) (claimant_of cmd) t t' s,
      RowStep-CountsAttempt c (worker_of cmd) (claimant_of cmd) t t' s,
    )

-- `worker` holds the task, and its lease has not run out at `now`.
abbrev pub Holds : String → ℕ → Task → Type 0
Holds worker now t =
    (t.status ≡ claimed)
    × (t.claimed_by ≡ some worker)
    × ((expires : ℕ) × (t.lease_expires_at ≡ some expires) × (now ≤ expires))

RowStep-held :
    (c : Call) (who claimant : Option String) (worker : String) (t t' : Task)
    → Holds worker c.now t
    → who ≢ some worker
    → RowStep c who claimant t t'
    → t' ≡ t
unfolding is_claimable
RowStep-held c who claimant worker t t' held other (same e) = e
RowStep-held c who claimant worker t t' held other (claims w expires by m room claimable e) =
    absurd (ground arith)
RowStep-held c who claimant worker t t' held other (renews w expires by m status owner e) =
    absurd (ground arith)
RowStep-held c who claimant worker t t' held other (retries m status e) = absurd (ground arith)
RowStep-held c who claimant worker t t' held other
      (finishes w next context by m status owner ctx e) =
    absurd (ground arith)
RowStep-held c who claimant worker t t' held other (fails w by m owner e) = absurd (ground arith)
RowStep-held c who claimant worker t t' held other (reviews verdict m status e) =
    absurd (ground arith)

-- Until its lease has run out, a claimed task is the owner's alone: a command that is not in the
-- owner's name leaves the row exactly as it is.
pub step-held :
    (c : Call) (cmd : Command) (k worker : String) (db : Db) (t : Task)
    → task_by_id k db ≡ some t
    → Holds worker c.now t
    → worker_of cmd ≢ some worker
    → task_by_id k (step c cmd db) ≡ some t
step-held c cmd k worker db t here held other =
    let (t', after, s) = step-Follows c cmd k db t here in
    rw (← RowStep-held c (worker_of cmd) (claimant_of cmd) worker t t' held other s) after

-- A task that no command can leave: in the dead letter, rejected, or completed by a review
abbrev pub IsFinal : Task → Type 0
IsFinal t =
    (t.claimed_by ≡ none)
    × ((t.status ≡ dead_letter) ⊎ ((t.status ≡ review_rejected) ⊎ (t.status ≡ completed)))

RowStep-final :
    (c : Call) (who claimant : Option String) (t t' : Task)
    → IsFinal t
    → RowStep c who claimant t t'
    → t' ≡ t
unfolding is_claimable
RowStep-final c who claimant t t' final (same e) = e
RowStep-final c who claimant t t' final (claims w expires by m room claimable e) =
    absurd (ground arith)
RowStep-final c who claimant t t' final (renews w expires by m status owner e) =
    absurd (ground arith)
RowStep-final c who claimant t t' final (retries m status e) = absurd (ground arith)
RowStep-final c who claimant t t' final (finishes w next context by m status owner ctx e) =
    absurd (ground arith)
RowStep-final c who claimant t t' final (fails w by m owner e) = absurd (ground arith)
RowStep-final c who claimant t t' final (reviews verdict m status e) = absurd (ground arith)

-- No command changes a task that is in the dead letter, was rejected, or was completed by a review.
pub step-final :
    (c : Call) (cmd : Command) (k : String) (db : Db) (t : Task)
    → task_by_id k db ≡ some t
    → IsFinal t
    → task_by_id k (step c cmd db) ≡ some t
step-final c cmd k db t here final =
    let (t', after, s) = step-Follows c cmd k db t here in
    rw (← RowStep-final c (worker_of cmd) (claimant_of cmd) t t' final s) after
