-- ===== src/Store/Rows.antt =====
-- The tables of par/db.py. A timestamp is the number of microseconds since the start of year 1,
-- in UTC; a JSON column holds the value that its text denotes.
use personal_agent_runtime.Base.{ℕ, ℤ, String, Option, List, Eq}
use personal_agent_runtime.Json.{Json}

pub data TaskStatus : Type 0 where
  pending claimed completed failed review_pending review_rejected dead_letter : TaskStatus

pub data RunStatus : Type 0 where
  running completed failed : RunStatus

TaskStatus-discrete : Discrete TaskStatus
TaskStatus-discrete = hlevel

RunStatus-discrete : Discrete RunStatus
RunStatus-discrete = hlevel

instance unfoldable pub task_status_eq : Eq TaskStatus
unfolding TaskStatus-discrete
task_status_eq = record { dec = TaskStatus-discrete }

instance unfoldable pub run_status_eq : Eq RunStatus
unfolding RunStatus-discrete
run_status_eq = record { dec = RunStatus-discrete }

pub record Task : Type 0 where
  pub id : String
  pub goal : String
  pub idempotency_key : Option String
  pub status : TaskStatus
  pub repo : Option String
  pub mode : String
  pub context : Json
  pub priority : ℤ
  pub claimed_by : Option String
  pub lease_expires_at : Option ℕ
  pub next_action : Option String
  pub attempt_count : ℕ
  pub max_attempts : ℕ
  pub created_at : ℕ
  pub updated_at : ℕ

pub record Run : Type 0 where
  pub id : String
  pub task_id : String
  pub worker : String
  pub status : RunStatus
  pub summary : Option String
  pub evidence : Json
  pub blockers : Json
  pub metadata : Json
  pub started_at : ℕ
  pub finished_at : Option ℕ

pub record Event : Type 0 where
  pub id : String
  pub task_id : Option String
  pub type : String
  pub actor : Option String
  pub payload : Json
  pub created_at : ℕ

pub record Artifact : Type 0 where
  pub id : String
  pub task_id : String
  pub run_id : Option String
  pub kind : String
  pub uri : String
  pub metadata : Json
  pub created_at : ℕ

-- The table of par/checkpoint.py
pub record Checkpoint : Type 0 where
  pub id : String
  pub task_id : String
  pub run_id : String
  pub worker : String
  pub summary : String
  pub completed_steps : Json
  pub remaining_steps : Json
  pub evidence : Json
  pub blockers : Json
  pub resume_hint : Option String
  pub metadata : Json
  pub created_at : ℕ

-- The table of par/capabilities.py
pub record WorkerCapability : Type 0 where
  pub worker : String
  pub capability : String

pub record Db : Type 0 where
  pub tasks : List Task
  pub runs : List Run
  pub events : List Event
  pub artifacts : List Artifact
  pub checkpoints : List Checkpoint
  pub worker_capabilities : List WorkerCapability
