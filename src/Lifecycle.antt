-- ===== src/Lifecycle.antt =====
-- The transactions that change tasks (par/db.py, par/review.py) as one machine: a command that
-- raises is rolled back, and leaves the database as it was.
pub mod Row
pub mod Validity
pub mod Laws
pub mod Appear
pub mod Reach
pub mod Idempotence
pub mod Exclusive
use personal_agent_runtime.Base.{ℤ, String, Option, none, some}
use personal_agent_runtime.Json.{Json}
use personal_agent_runtime.Store.{Db, Call, committed}
use personal_agent_runtime.Tasks.{
  NewTask, Completion, create_task, claim_task, heartbeat, retry_task, complete_task, fail_task,
}
use personal_agent_runtime.Review.{Review, submit_review}

pub data Command : Type 0 where
  create : NewTask → Command
  claim :
      (task_id worker : String) → ℤ → (role : String) → (provider model : Option String) → Command
  renew : (task_id worker : String) → ℤ → Command
  retry : (task_id actor : String) → Command
  complete : (task_id run_id worker : String) → Completion → Command
  fail : (task_id run_id worker summary : String) → Option Json → Command
  review : (task_id : String) → Review → Command

unfoldable pub step : Call → Command → Db → Db
step c (create n) db = committed (create_task c n db) db
step c (claim t w m role p mo) db = committed (claim_task c t w m role p mo db) db
step c (renew t w m) db = committed (heartbeat c t w m db) db
step c (retry t a) db = committed (retry_task c t a db) db
step c (complete t r w d) db = committed (complete_task c t r w d db) db
step c (fail t r w s b) db = committed (fail_task c t r w s b db) db
step c (review t v) db = committed (submit_review c t v db) db

-- The worker in whose name a command claims, renews, completes or fails
abbrev pub worker_of : Command → Option String
worker_of (claim _ w _ _ _ _) = some w
worker_of (renew _ w _) = some w
worker_of (complete _ _ w _) = some w
worker_of (fail _ _ w _ _) = some w
worker_of _ = none

-- The worker of a claim; other commands take no task over.
abbrev pub claimant_of : Command → Option String
claimant_of (claim _ w _ _ _ _) = some w
claimant_of _ = none
