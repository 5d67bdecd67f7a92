-- ===== src/Lifecycle/Validity.antt =====
-- Which rows the task table may hold, and that a command keeps to them.
use personal_agent_runtime.Base.{ℕ, String, true, Option, none, ◌≡◌, ◌≤◌, ◌<◌, arith, is_some}
use personal_agent_runtime.Store.{
  TaskStatus, pending, claimed, completed, failed, review_pending, review_rejected, dead_letter,
  Task, Call,
}
use personal_agent_runtime.Tasks.{NewTask, new_row, is_claimable}
use personal_agent_runtime.Lifecycle.Row.{
  RowStep, same, claims, renews, retries, finishes, fails, reviews,
}

-- The owner, the lease, and the attempts made of those allowed, as a status has them
abbrev pub Fits : TaskStatus → Option String → Option ℕ → ℕ → ℕ → Type 0
Fits pending owner lease made allowed = (owner ≡ none) × (lease ≡ none) × (made < allowed)
Fits claimed owner lease made allowed = (is_some owner ≡ true) × (is_some lease ≡ true) × (0 < made)
Fits completed owner lease made allowed = (lease ≡ none) × (0 < made)
Fits failed owner lease made allowed = (is_some owner ≡ true) × (lease ≡ none) × (0 < made)
Fits review_pending owner lease made allowed = (is_some owner ≡ true) × (lease ≡ none) × (0 < made)
Fits review_rejected owner lease made allowed = (owner ≡ none) × (lease ≡ none) × (0 < made)
Fits dead_letter owner lease made allowed = (owner ≡ none) × (lease ≡ none) × (made ≡ allowed)

pub record IsValidRow (t : Task) : Type 0 where
  pub attempts : t.attempt_count ≤ t.max_attempts
  pub some_allowed : 0 < t.max_attempts
  pub fits : Fits t.status t.claimed_by t.lease_expires_at t.attempt_count t.max_attempts

pub new_row-IsValidRow : (c : Call) (n : NewTask) (max : ℕ) → 0 < max → IsValidRow (new_row c n max)
new_row-IsValidRow c n max h = ground arith

pub RowStep-IsValidRow :
    (c : Call) (who claimant : Option String) (t t' : Task)
    → RowStep c who claimant t t'
    → IsValidRow t
    → IsValidRow t'
unfolding is_claimable
RowStep-IsValidRow c who claimant t t' (same e) v = ground arith
RowStep-IsValidRow c who claimant t t' (claims worker expires w m room claimable e) v = ground arith
RowStep-IsValidRow c who claimant t t' (renews worker expires w m held owner e) v = ground arith
RowStep-IsValidRow c who claimant t t' (retries m status e) v = ground arith
RowStep-IsValidRow c who claimant t t' (finishes worker next context w m held owner ctx e) v =
    ground arith
RowStep-IsValidRow c who claimant t t' (fails worker w m owner e) v = ground arith
RowStep-IsValidRow c who claimant t t' (reviews verdict m status e) v = ground arith
