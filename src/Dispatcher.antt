-- ===== src/Dispatcher.antt =====
-- Automatic dispatch of received ingress events: par/dispatcher.py.
pub mod Moves
pub mod Drain
pub mod Authority
use personal_agent_runtime.Base.{
  ℕ, ℤ, zero, suc, ◌+◌, String, ◌<>◌, Bool, true, false, Option, none, some, List, [], ◌∷◌, ◌++◌,
  ◌==◌, string_eq, option_eq, if◌then◌else◌, not, ◌&&◌, ◌||◌, any, length, take, is_one, is_some,
}
use personal_agent_runtime.Base.Table.{select, find, update, count}
use personal_agent_runtime.Base.Table.Order.{by_time_and_id}
use personal_agent_runtime.Json.{Json, obj, is_str_at}
use personal_agent_runtime.Store.{
  ◌|>>◌, checked_limit, Task, Db, Error, value_error, key_error, runtime_error, type_error,
  overflow_error, integrity_error, attribute_error, file_not_found, Result, ok, raised, Call,
}
use personal_agent_runtime.Tasks.{task_by_key}
use personal_agent_runtime.Ingress.{
  IngressStatus, received, blocked_auto_dispatch, invalid_auto_dispatch, ingress_status_eq,
  IngressEvent, Ingress, get_event,
}
use personal_agent_runtime.Materialization.{Runtime}
use personal_agent_runtime.Materialization.Create.{
  Materialization, approval_required, materialized, event_task_key, materialize_ingress_event,
}

-- The WHERE of `_transition_received`
unfoldable pub is_received : String → IngressEvent → Bool
is_received event_id e = e.id == event_id && e.status == received

abbrev pub moved_row : ℕ → IngressStatus → IngressEvent → IngressEvent
moved_row ts status e = record e { status = status; updated_at = ts }

-- `_transition_received`, with its result
unfoldable pub transition_received : Call → String → IngressStatus → Runtime → Bool × Runtime
unfolding is_received
transition_received c event_id status rt = (
  is_one (count (is_received event_id) rt.ingress),
  record rt { ingress = update (is_received event_id) (moved_row c.now status) rt.ingress },
)

-- `_task_exists`
unfoldable pub task_exists : String → Runtime → Bool
task_exists event_id rt = is_some (task_by_key (event_task_key event_id) rt.db)

-- `_dispatchable`: the reason why not, if so
unfoldable pub not_dispatchable : Json → Option String
not_dispatchable (obj d) =
    if not (is_str_at "type" "task" d)
    then some "requested_action.type must be task"
    else if not (is_str_at "mode" "read-only" d)
    then some "automatic dispatch is limited to read-only task materialization"
    else none
not_dispatchable _ = some "requested_action must be a JSON object"

pub data Dispatch : Type 0 where
  already_terminal : IngressStatus → Dispatch
  blocked : String → Dispatch
  invalid : Error → Dispatch
  already_materialized dispatched : String → Dispatch

-- `except (ValueError, RuntimeError, OverflowError)`
abbrev pub is_caught : Error → Bool
is_caught (value_error _) = true
is_caught (runtime_error _) = true
is_caught overflow_error = true
is_caught (key_error _) = false
is_caught type_error = false
is_caught integrity_error = false
is_caught attribute_error = false
is_caught file_not_found = false

-- The event moves, whatever the dispatch says of it.
abbrev pub moved : Call → String → IngressStatus → Dispatch → Runtime → Result Dispatch × Runtime
moved c event_id status d rt = (ok d, (transition_received c event_id status rt).1)

abbrev pub settled_task : Bool → Bool → String → Dispatch
settled_task existed transitioned task_id =
    if existed || not transitioned then already_materialized task_id else dispatched task_id

-- What the dispatcher makes of the result of the materialization
unfoldable pub after_materialization :
    Call → String → Bool → Result Materialization × Runtime → Result Dispatch × Runtime
unfolding transition_received
after_materialization c event_id existed (raised e, rt) =
    if is_caught e then moved c event_id invalid_auto_dispatch (invalid e) rt else (raised e, rt)
after_materialization c event_id existed (ok (approval_required _ _), rt) =
    moved c event_id blocked_auto_dispatch (blocked "approval_required") rt
after_materialization c event_id existed (ok (materialized _ task), rt) =
    let (transitioned, rt') = transition_received c event_id IngressStatus.materialized rt in
    (ok (settled_task existed transitioned task.id), rt')

unfoldable pub dispatch_received :
    Call → IngressEvent → String → Runtime → Result Dispatch × Runtime
unfolding after_materialization not_dispatchable task_exists
dispatch_received c event event_id rt = elim (not_dispatchable event.requested_action) [
  | some reason ↦ moved c event_id blocked_auto_dispatch (blocked reason) rt
  | none ↦
      after_materialization c event_id (task_exists event_id rt)
        (materialize_ingress_event c event_id rt)
]

unfoldable pub dispatch_event : Call → String → Runtime → Result Dispatch × Runtime
unfolding dispatch_received
dispatch_event c event_id rt = elim (get_event event_id rt.ingress) [
  | none ↦ (raised (key_error ("ingress event not found: " <> event_id)), rt)
  | some event ↦
      if not (event.status == received)
      then (ok (already_terminal event.status), rt)
      else dispatch_received c event event_id rt
]

abbrev pub is_pending : IngressEvent → Bool
is_pending e = e.status == received

-- Rows that `get_event` reads again
unfoldable pub read_events : Ingress → Ingress → Ingress
read_events rows [] = []
read_events rows (e ∷ es) =
    let rest = read_events rows es in
    elim (get_event e.id rows) [ none ↦ rest | some event ↦ event ∷ rest ]

-- `_pending_events`
unfoldable pub pending_events : ℕ → Ingress → Ingress
unfolding read_events
pending_events limit rows =
    read_events rows
      (take limit (by_time_and_id (λ e. e.created_at) (λ e. e.id) (select is_pending rows)))

-- `_has_pending_events`
abbrev pub has_pending_events : Ingress → Bool
has_pending_events rows = any is_pending rows

-- The loop over the batch, in which the n-th dispatch is the n-th call; an exception ends it.
unfoldable pub dispatch_all : (ℕ → Call) → Ingress → Runtime → Result (List Dispatch) × Runtime
unfolding dispatch_event
dispatch_all calls [] rt = (ok [], rt)
dispatch_all calls (e ∷ es) rt =
    let (result, rt') = dispatch_event (calls 0) e.id rt in
    let (results, rt'') = dispatch_all (λ n. calls (suc n)) es rt' in
    elim result [ raised x ↦ (raised x, rt') | ok d ↦ (results |>> λ ds. ok (d ∷ ds), rt'') ]

pub record Dispatched : Type 0 where
  pub scanned : ℕ
  pub materialized : ℕ
  pub already_materialized : ℕ
  pub blocked : ℕ
  pub has_more : Bool
  pub results : List Dispatch

abbrev pub is_materialized : Dispatch → Bool
is_materialized (dispatched _) = true
is_materialized _ = false

abbrev pub is_already_materialized : Dispatch → Bool
is_already_materialized (already_materialized _) = true
is_already_materialized _ = false

abbrev pub is_blocked : Dispatch → Bool
is_blocked (blocked _) = true
is_blocked (invalid _) = true
is_blocked _ = false

abbrev pub summary_of : ℕ → Bool → List Dispatch → Dispatched
summary_of scanned has_more results = record {
  scanned = scanned;
  materialized = count is_materialized results;
  already_materialized = count is_already_materialized results;
  blocked = count is_blocked results;
  has_more = has_more;
  results = results;
}

abbrev pub dispatch_batch : (ℕ → Call) → Ingress → Runtime → Result Dispatched × Runtime
dispatch_batch calls events rt =
    let (results, rt') = dispatch_all calls events rt in
    (results |>> λ ds. ok (summary_of (length events) (has_pending_events rt'.ingress) ds), rt')

unfoldable pub dispatch_pending_events : (ℕ → Call) → ℤ → Runtime → Result Dispatched × Runtime
unfolding dispatch_all pending_events
dispatch_pending_events calls limit rt = elim (checked_limit limit) [
  | raised e ↦ (raised e, rt)
  | ok n ↦ dispatch_batch calls (pending_events n rt.ingress) rt
]
