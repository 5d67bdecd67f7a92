-- ===== src/Tests/Successor.antt =====
-- A step that advances a completed task, and a proposal of a supervisor, at concrete data.
use personal_agent_runtime.Base.{
  String, true, false, none, some, Option, [], ◌∷◌, ◌≡◌, refl, string_eq, option_eq,
}
use personal_agent_runtime.Base.Table.{find, select, first_by, sort_by, count}
use personal_agent_runtime.Base.Text.{strip, is_blank, is_space}
use personal_agent_runtime.Json.{
  Json, Fields, str, obj, arr, nil, cons, end, object, get, truthy, truthy_at, is_str_at,
}
use personal_agent_runtime.Store.{
  TaskStatus, RunStatus, Task, Run, Db, Result, ok, raised, task_by_id, insert_event,
  task_status_eq, run_status_eq,
}
use personal_agent_runtime.Tasks.{create_task, insert_task, get_task}
use personal_agent_runtime.Reconcile.{
  Finding, unmaterialized_next_action, plain, reconcile, has_stale_lease, has_failed, lacks_review,
  lacks_completion, lacks_successor,
}
use personal_agent_runtime.Scheduler.{
  Decision, decision_of_type, materialize_next, decision_kind_eq, decide,
}
use personal_agent_runtime.Advancement.{
  Advance, advanced, advance_once, materialize_successor, state_counts, successor_idempotency_key,
  text_of,
}
use personal_agent_runtime.Advancement.Laws.{Succeeds, advance_once-Succeeds}
use personal_agent_runtime.Json.Canonical.{canonical, is_finite}
use personal_agent_runtime.Ingress.{
  IngressEvent, new_event, event_object, insert_ingress, ingest_event,
}
use personal_agent_runtime.Capabilities.Names.{lower}
use personal_agent_runtime.Reconcile.Due.{Due}
use personal_agent_runtime.Commands.{
  Target, Resolution, fix_proposed, matches_target, fix, resolve_command,
}
use personal_agent_runtime.Commands.Laws.{IsTheFinding, resolve_command-fix_proposed}
use personal_agent_runtime.Supervisor.{
  freeze, thaw, grants, adapt_supervisor_intent, submit_supervisor_intent,
}
use personal_agent_runtime.Supervisor.Laws.{submit_supervisor_intent-grants}
use personal_agent_runtime.Tests.Data.{at, waiting, run_of, with_task}

-- A completed read-only task whose next action nothing represents
abbrev finished : Task
finished = record waiting { status = TaskStatus.completed; next_action = some " read the report " }

abbrev finished_run : Run
finished_run = record (run_of "r1" "t1") {
  status = RunStatus.completed;
  evidence = arr (cons (str "log") nil);
  finished_at = some 40;
}

abbrev finished_db : Db
finished_db = record (with_task finished) { runs = finished_run ∷ [] }

abbrev digest : String → String
digest _ = "0123456789abcdef0123456789abcdef"

advanced_once : Result (Advance × Db)
unfolding advance_once materialize_successor state_counts successor_idempotency_key get_task
    create_task insert_task insert_event decide reconcile first_by sort_by select find
    has_stale_lease has_failed lacks_review lacks_completion lacks_successor truthy_at get truthy
    is_str_at string_eq option_eq task_status_eq run_status_eq decision_kind_eq strip is_blank
    is_space
advanced_once = advance_once digest (at "s" 50) none finished_db

abbrev chosen_decision : Decision
chosen_decision =
    decision_of_type unmaterialized_next_action
      (record (plain unmaterialized_next_action "t1" "materialize") {
        next_action = some " read the report ";
      })
      finished_db

abbrev successor_key : Option String
successor_key = some "scheduler-next:t1:0123456789abcdef01234567"

advanced_db : Db
unfolding advanced_once
advanced_db = elim advanced_once [ ok (_, db) ↦ db | raised _ ↦ finished_db ]

advanced_ok :
    advance_once digest (at "s" 50) none finished_db
    ≡ ok (advanced chosen_decision true "s-0" successor_key, advanced_db)
unfolding advanced_db
advanced_ok = refl

advance_once-Succeeds_example :
    (chosen : Decision) × (decide 50 none none finished_db ≡ ok chosen)
    × (chosen.decision ≡ materialize_next)
    × ((parent : Task) × (task_by_id (text_of chosen.task_id) finished_db ≡ some parent)
        × (parent.mode ≡ "read-only")
        × Succeeds digest parent finished_db "s-0" advanced_db)
advance_once-Succeeds_example =
    advance_once-Succeeds digest (at "s" 50) none chosen_decision true "s-0" successor_key
      finished_db advanced_db advanced_ok

abbrev proposal : Json
proposal = object (
    ("kind", str "request_action")
    ∷ ("payload", object (("why", str "nightly") ∷ []))
    ∷ (
      "requested_action",
      object (("type", str "task") ∷ ("action", str "inspect_repository") ∷ []),
    )
    ∷ [])

abbrev proposed_event : IngressEvent
proposed_event = new_event (at "v" 5) (record {
  idempotency_key = "k";
  source = "api";
  kind = "supervisor.request_action";
  payload = object (("why", str "nightly") ∷ []);
  requested_action = object (("action", str "inspect_repository") ∷ ("type", str "task") ∷ []);
  authority = obj end;
})

submit_supervisor_intent-grants_example :
    (proposed_event.source ≡ "api")
    × (proposed_event.authority ≡ obj end)
    × ((a : Fields) × (proposed_event.requested_action ≡ obj a) × (grants a ≡ false))
unfolding submit_supervisor_intent adapt_supervisor_intent freeze thaw get ingest_event
    insert_ingress event_object strip string_eq count canonical is_finite
submit_supervisor_intent-grants_example =
    submit_supervisor_intent-grants (at "v" 5) "sup" "k" proposal [] (proposed_event ∷ [])
      proposed_event refl

abbrev missing : Finding
missing = record (plain unmaterialized_next_action "t1" "materialize") {
  next_action = some " read the report ";
}

abbrev target : Target
target = record { finding_type = none; task_id = some "t1" }

fixed : Result Resolution
unfolding advanced_once resolve_command fix matches_target lower
fixed = resolve_command 50 " Fix " none target "state.db" (some finished_db)

fixed_ok :
    resolve_command 50 " Fix " none target "state.db" (some finished_db)
    ≡ ok (fix_proposed missing chosen_decision)
unfolding fixed
fixed_ok = refl

resolve_command-fix_proposed_example :
    IsTheFinding target 50 finished_db missing
    × ((t : Task) × (task_by_id "t1" finished_db ≡ some t)
        × Due unmaterialized_next_action 50 finished_db t)
    × (decide 50 none (some (reconcile 50 finished_db)) finished_db ≡ ok chosen_decision)
unfolding find
resolve_command-fix_proposed_example =
    resolve_command-fix_proposed 50 " Fix " none target "state.db" finished_db missing
      chosen_decision (refl, tt) fixed_ok
