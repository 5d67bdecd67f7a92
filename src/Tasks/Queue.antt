-- ===== src/Tasks/Queue.antt =====
-- `next_task` offers the first task in the queue that may be claimed.
use personal_agent_runtime.Base.{ℕ, All, false, none, string_eq, refl, ◌≡◌}
use personal_agent_runtime.Base.Table.{first_by}
use personal_agent_runtime.Base.Table.Sorted.{first_by-none, select-nil, nil-select}
use personal_agent_runtime.Store.{Db}
use personal_agent_runtime.Tasks.{is_before, is_claimable, next_task}

-- Nothing is offered only where no task may be claimed.
pub next_task-none :
    (now : ℕ) (db : Db) → next_task now db ≡ none → All (λ t. is_claimable now t ≡ false) db.tasks
unfolding next_task
next_task-none now db e = select-nil (is_claimable now) db.tasks (first_by-none is_before _ e)

-- Where no task may be claimed, nothing is offered.
pub none-next_task :
    (now : ℕ) (db : Db) → All (λ t. is_claimable now t ≡ false) db.tasks → next_task now db ≡ none
unfolding next_task first_by
none-next_task now db a = rw (nil-select (is_claimable now) db.tasks a) refl
