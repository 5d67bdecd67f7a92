-- ===== src/Watchdog.antt =====
-- One recovery wake: par/watchdog.py.
pub mod Laws
use personal_agent_runtime.Base.{ℕ, ℤ, String, Bool, Option, some, ◌==◌, not, ◌||◌, ltb}
use personal_agent_runtime.Store.{Result, ok, raised, Call}
use personal_agent_runtime.Reconcile.{Reconciliation, reconcile}
use personal_agent_runtime.Scheduler.{Decision, idle, decision_kind_eq, decide}
use personal_agent_runtime.Materialization.{Runtime}
use personal_agent_runtime.Dispatcher.{Dispatched, dispatch_pending_events}

pub record Wake : Type 0 where
  pub next_action_available : Bool
  pub runtime_state_mutated : Bool
  pub dispatch : Dispatched
  pub reconciliation : Reconciliation
  pub scheduler : Decision

abbrev pub woken : Dispatched → Reconciliation → Decision → Wake
woken dispatch reconciliation scheduler = record {
  next_action_available = not (scheduler.decision == idle) || dispatch.has_more;
  runtime_state_mutated = ltb 0 dispatch.scanned;
  dispatch = dispatch;
  reconciliation = reconciliation;
  scheduler = scheduler;
}

-- What follows the dispatch, which reads the state at `now`
abbrev pub projected : ℕ → Option String → Result Dispatched × Runtime → Result Wake × Runtime
projected now worker (raised e, rt) = (raised e, rt)
projected now worker (ok dispatch, rt) =
    let reconciliation = reconcile now rt.db in
    elim (decide now worker (some reconciliation) rt.db) [
      | raised e ↦ (raised e, rt)
      | ok scheduler ↦ (ok (woken dispatch reconciliation scheduler), rt)
    ]

unfoldable pub watchdog_wake : (ℕ → Call) → ℕ → ℤ → Option String → Runtime → Result Wake × Runtime
watchdog_wake calls now dispatch_limit worker rt =
    projected now worker (dispatch_pending_events calls dispatch_limit rt)
