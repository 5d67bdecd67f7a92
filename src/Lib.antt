-- ===== src/Lib.antt =====
-- The durable task runtime of personal-agent-runtime, the Python package par/.
--
-- The runtime keeps its state in one SQLite database. Events come in from people, schedules, GitHub
-- and supervisors; a dispatcher turns those that ask for a read-only task into one, and others wait for
-- an approval. Tasks are created, claimed under a lease by a worker, kept alive, completed or failed,
-- and reviewed; runs, task events, checkpoints and declared capabilities stand beside them. The
-- reconciliation lists what is left to do, the scheduler projects it into one decision, and one step of
-- advancement makes a task of a completed task's next action. The watchdog dispatches and then reads
-- both; the short commands only read them. The whole state can be exported to an archive and restored.
--
-- Which file models which part:
--   Base, Json        lists, numbers, texts, SQL on tables as lists, and JSON values; Json.Canonical has
--                     the text of a value with sorted keys, as the value with its keys in order
--   Store             the rows and the transactions of par/db.py (SCHEMA, connect)
--   Tasks             par/db.py: create_task, next_task, claim_task, heartbeat, retry_task,
--                     complete_task, fail_task, get_task; laws of single operations below it
--   Review            par/review.py: submit_review
--   Lifecycle         the commands of par/db.py and par/review.py as one step on the database, what a
--                     step does to a row, and histories of steps
--   Reconcile         par/reconcile.py: reconcile; Reconcile.Owed says what is left to do of the
--                     stored rows alone, without its sorting, grouping and scans
--   Capabilities      par/capabilities.py: the names, declarations and guarded claims
--   Scheduler         par/scheduler.py: decide
--   Approvals         par/approvals.py: the table of approval requests, and histories of calls on it
--   Checkpoints       par/checkpoint.py: write_checkpoint, latest_checkpoint, resume_context
--   Ingress           par/ingress.py: ingest_event, get_event, list_events, and histories of writes
--   Materialization   par/materialization.py: the reading of a request; Materialization.Create is
--                     materialize_ingress_event; its authority, context and repetition below it
--   Dispatcher        par/dispatcher.py: dispatch_event, dispatch_pending_events
--   Watchdog          par/watchdog.py: watchdog_wake
--   Advancement       par/advancement.py: advance_once
--   Commands          par/commands.py: resolve_command
--   GithubEvents      par/github_events.py: ingest_github_pr_event; GithubEvents.Identities is
--                     scripts/ingest_github_action_event.py
--   Supervisor        par/supervisor.py: adapt_supervisor_intent, submit_supervisor_intent; and the
--                     reading of a proposal in par/supervisor_adapter.py
--   Portability       par/portability.py: export_state, restore_state
--   Tests             runs at concrete data
--
-- How the state corresponds to the code. A table is the list of its rows in rowid order. An operation of
-- one transaction is a function from the database to a result: a value with the next database, or the
-- exception that it raises, in which case nothing is written, as a `with connect(path)` block commits or
-- rolls back as a whole. The operations that join several transactions (materialization, dispatch, the
-- watchdog) take a `Runtime` of the task tables, the events and the approvals, and return a result
-- beside the next runtime, since an exception keeps what was committed before it. UPDATE, SELECT and
-- INSERT are functions on lists; primary keys, foreign keys and the unique idempotency keys are checked
-- where a row is inserted. The clock and the values of `uuid.uuid4` are arguments (`Call`); a theorem
-- that needs new ids has them as a hypothesis. One call reads one time, also where the code asks the
-- clock more than once; the n-th dispatch of a batch is the n-th of its calls. Calls run one after
-- another: the interleavings of two processes inside a call that reads before it takes the write lock
-- (retry_task, complete_task, submit_review, decide_approval, the dispatcher) are not modelled.
--
-- A timestamp is the number of microseconds since the year 1; all are written by the same
-- `isoformat` in UTC, and so compare as texts like the numbers do (also where the microseconds are
-- zero and left out, since `+` is before `.`). `datetime.max` bounds the leases. A JSON column holds
-- the value that it encodes. An integer argument that SQLite stores raises beyond 64 bits. Rows that
-- an ORDER BY does not tell apart are taken in rowid order, which the SQL leaves open. `str.strip`
-- follows the code points that Python takes for white space, and `str.lower` is modelled for the
-- characters that a capability name can tell apart. All recursion is structural, so no fuel is needed.
--
-- What other libraries do is a parameter: the SHA-256 digest in Advancement (`hexdigest`), `json.loads`
-- of a proposal in Supervisor (`loads`), and in Portability (`Libraries`) the digest, the JSON text, the
-- compression and what SQLite does with files. What is
-- assumed of them stands as hypotheses in Portability.Roundtrip.
--
-- Not modelled: schema creation and migration (init_db, connect, _migrate, _ensure_schema), the command
-- line (par/__main__.py) and the mains of the scripts, which parse arguments and print; the metrics
-- (par/metrics.py), which add up floats; the processes that par/supervisor_runner.py and
-- par/supervisor_providers start; and the Go server in cmd/ and internal/, which does not share code
-- with the runtime.
pub mod Base
pub mod Json
pub mod Store
pub mod Tasks
pub mod Review
pub mod Lifecycle
mod Tests
pub mod Reconcile
pub mod Capabilities
pub mod Scheduler
pub mod Approvals
pub mod Checkpoints
pub mod Ingress
pub mod Materialization
pub mod Dispatcher
pub mod Watchdog
pub mod Advancement
pub mod Commands
pub mod GithubEvents
pub mod Supervisor
pub mod Portability
