-- ===== src/Tests/Wake.antt =====
-- A wake of the watchdog that blocks an event and finds nothing else, at concrete data.
use personal_agent_runtime.Base.{pos, false, none, [], ◌∷◌, ◌≡◌, ◌↔◌, refl, string_eq}
use personal_agent_runtime.Base.Table.{select, find, update, count, first_by, sort_by}
use personal_agent_runtime.Base.Table.Order.{by_time_and_id}
use personal_agent_runtime.Json.{get, is_str_at}
use personal_agent_runtime.Store.{ok, Result}
use personal_agent_runtime.Tasks.{next_task}
use personal_agent_runtime.Lifecycle.Reach.{empty_db}
use personal_agent_runtime.Ingress.{ingress_status_eq, get_event}
use personal_agent_runtime.Materialization.{Runtime}
use personal_agent_runtime.Dispatcher.{
  Dispatched, blocked, not_dispatchable, transition_received, dispatch_event,
  dispatch_pending_events,
}
use personal_agent_runtime.Reconcile.{reconcile}
use personal_agent_runtime.Scheduler.{decision_kind_eq, idle_decision, decide}
use personal_agent_runtime.Watchdog.{Wake, woken, watchdog_wake}
use personal_agent_runtime.Watchdog.Laws.{NothingLeft, watchdog_wake-NothingLeft}
use personal_agent_runtime.Tests.Automation.{deploy_event, calls}

abbrev waiting_runtime : Runtime
waiting_runtime = record { db = empty_db; ingress = deploy_event ∷ []; approvals = [] }

abbrev blocked_summary : Dispatched
blocked_summary = record {
  scanned = 1;
  materialized = 0;
  already_materialized = 0;
  blocked = 1;
  has_more = false;
  results = blocked "automatic dispatch is limited to read-only task materialization" ∷ [];
}

abbrev wake : Wake
wake = woken blocked_summary (reconcile 9 empty_db) idle_decision

woken_up : Result Wake × Runtime
unfolding watchdog_wake dispatch_pending_events dispatch_event not_dispatchable transition_received
    calls get_event find select update count by_time_and_id get is_str_at string_eq
    ingress_status_eq decide reconcile next_task first_by sort_by decision_kind_eq
woken_up = watchdog_wake calls 9 (pos 5) none waiting_runtime

woken_up_ok : watchdog_wake calls 9 (pos 5) none waiting_runtime ≡ (ok wake, woken_up.1)
unfolding woken_up
woken_up_ok = refl

watchdog_wake-NothingLeft_example : (wake.next_action_available ≡ false) ↔ NothingLeft 9 woken_up.1
unfolding woken_up
watchdog_wake-NothingLeft_example =
    watchdog_wake-NothingLeft calls 9 (pos 5) none waiting_runtime woken_up.1 wake tt woken_up_ok
