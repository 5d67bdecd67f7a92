-- ===== src/Tests/Automation.antt =====
-- Automatic steps from events to tasks, and from tasks to their successors, at concrete data.
use native.Mathlib.Decide.{ℕ_discrete}
use personal_agent_runtime.Base.{
  ℕ, zero, suc, pos, false, none, some, Option, [], ◌∷◌, ◌+◌, ◌≡◌, refl, string_eq, option_eq, leb,
  ltb, if◌then◌else◌,
}
use personal_agent_runtime.Base.Int.{int_eq}
use personal_agent_runtime.Base.Table.{find, update, count, select}
use personal_agent_runtime.Base.Table.Order.{by_time_and_id}
use personal_agent_runtime.Base.Decimal.{decimal}
use personal_agent_runtime.Base.Text.{strip, is_blank}
use personal_agent_runtime.Json.{
  Fields, str, obj, arr, nil, cons, end, object, fields, get, merge, put, is_str_at,
}
use personal_agent_runtime.Json.Canonical.{json_eq, canonical, is_finite}
use personal_agent_runtime.Store.{Task, Result, ok, insert_event, Call}
use personal_agent_runtime.Tasks.{create_task, insert_task, new_row, task_by_key}
use personal_agent_runtime.Approvals.{Approval, approved, approval_status_eq, new_approval}
use personal_agent_runtime.Capabilities.Names.{normalize_capabilities}
use personal_agent_runtime.Lifecycle.{create}
use personal_agent_runtime.Lifecycle.Laws.{SameJob}
use personal_agent_runtime.Lifecycle.Reach.{empty_db, empty_db-IsValid}
use personal_agent_runtime.Ingress.{received, ingress_status_eq, IngressEvent, new_event, get_event}
use personal_agent_runtime.Materialization.{
  Runtime, TaskRequest, requested_capabilities, optional_object, canonical_json, task_request,
  checked_contract,
}
use personal_agent_runtime.Materialization.Create.{
  Materialization, materialized, new_event_task, task_context, sanitize_context, is_approval_of,
  first_in_scope, event_task_key, assert_existing_task_matches, store_event_task,
  materialize_ingress_event,
}
use personal_agent_runtime.Materialization.Authority.{
  Authority, Stored, materialize_ingress_event-Authority,
}
use personal_agent_runtime.Materialization.Repeat.{later, materialize_ingress_event-idempotent}
use personal_agent_runtime.Materialization.Context.{get-task_context}
use personal_agent_runtime.GithubEvents.Laws.{sorted_fields}
use personal_agent_runtime.Dispatcher.{
  is_pending, transition_received, Dispatch, dispatched, blocked, Dispatched, dispatch_event,
  dispatch_pending_events,
}
use personal_agent_runtime.Dispatcher.Authority.{Dispatches, dispatch_event-Dispatches}
use personal_agent_runtime.Dispatcher.Drain.{dispatch_pending_events-drains}
use personal_agent_runtime.Tests.Data.{at, request}
use personal_agent_runtime.Tests.Events.{inspection_event}

abbrev deploy_fields : Fields
deploy_fields = fields (
    ("type", str "task")
    ∷ ("action", str "deploy")
    ∷ ("goal", str "Deploy o/r ")
    ∷ ("mode", str "write")
    ∷ ("repo", str "o/r")
    ∷ ("scope", object (("repo", str "o/r") ∷ []))
    ∷ ("context", object (("note", str "soon") ∷ ("approval_id", str "forged") ∷ []))
    ∷ ("acceptance_criteria", arr (cons (str "deployed") nil))
    ∷ ("non_goals", arr (cons (str "no merge") nil))
    ∷ ("risk_permission_tier", str "high")
    ∷ ("evidence_required", arr (cons (str "url") nil))
    ∷ ("expected_next_state_transition", str "review")
    ∷ [])

abbrev pub deploy_event : IngressEvent
deploy_event = new_event (at "e" 5) (record {
  idempotency_key = "k";
  source = "human";
  kind = "deploy";
  payload = obj end;
  requested_action = obj deploy_fields;
  authority = obj end;
})

abbrev yes_to_deploy : Approval
yes_to_deploy =
    record (new_approval (at "p" 6) (record {
      idempotency_key = "p";
      subject_type = "ingress_event";
      subject_id = "e-0";
      action = "deploy";
      requested_by = "w1";
      scope = object (("repo", str "o/r") ∷ []);
    })) { status = approved; decided_by = some "human" }

abbrev approved_runtime : Runtime
approved_runtime = record {
  db = empty_db;
  ingress = deploy_event ∷ [];
  approvals = yes_to_deploy ∷ [];
}

abbrev deploy_request : TaskRequest
deploy_request = record {
  action = "deploy";
  goal = "Deploy o/r";
  mode = "write";
  repo = some "o/r";
  scope = fields (("repo", str "o/r") ∷ []);
  context = fields (("note", str "soon") ∷ ("approval_id", str "forged") ∷ []);
  required_capabilities = [];
  priority = pos 100;
  task_contract = record {
    acceptance_criteria = arr (cons (str "deployed") nil);
    non_goals = arr (cons (str "no merge") nil);
    risk_permission_tier = "high";
    evidence_required = arr (cons (str "url") nil);
    expected_next_state_transition = "review";
  };
}

abbrev deploy_task : Task
unfolding task_context
deploy_task =
    new_row (at "b" 7)
      (new_event_task deploy_event deploy_request
        (task_context deploy_event deploy_request (some yes_to_deploy)))
      3

deploy_read : task_request deploy_event ≡ ok deploy_request
unfolding task_request get string_eq strip is_blank is_str_at is_finite
deploy_read = refl

deployed : Result Materialization × Runtime
unfolding materialize_ingress_event get_event find select task_request get string_eq strip is_blank
    is_str_at is_finite is_approval_of approval_status_eq by_time_and_id first_in_scope
    canonical_json canonical json_eq store_event_task task_context merge put sanitize_context
    create_task insert_event assert_existing_task_matches option_eq int_eq
deployed = materialize_ingress_event (at "b" 7) "e-0" approved_runtime

deployed_ok :
    materialize_ingress_event (at "b" 7) "e-0" approved_runtime
    ≡ (ok (materialized (some "p-0") deploy_task), deployed.1)
unfolding deployed deploy_task insert_task ℕ_discrete
deployed_ok = refl

materialize_ingress_event-Authority_example :
    (event : IngressEvent) × (get_event "e-0" (deploy_event ∷ []) ≡ some event)
    × ((q : TaskRequest) × (task_request event ≡ ok q)
        × ((a : Option Approval) × Authority (yes_to_deploy ∷ []) event.id q a
            × Stored (at "b" 7) event q a approved_runtime (some "p-0") deploy_task deployed.1))
materialize_ingress_event-Authority_example =
    materialize_ingress_event-Authority (at "b" 7) "e-0" approved_runtime deployed.1 (some "p-0")
      deploy_task deployed_ok

materialize_ingress_event-idempotent_example :
    (task : Task) × (materialize_ingress_event
        (at "z" 9)
        "e-0"
        (later ((at "c" 8, create request) ∷ []) deployed.1)
      ≡ (ok (materialized (some "p-0") task), later ((at "c" 8, create request) ∷ []) deployed.1))
    × SameJob deploy_task task
materialize_ingress_event-idempotent_example =
    materialize_ingress_event-idempotent (at "b" 7) (at "z" 9) ((at "c" 8, create request) ∷ [])
      "e-0" approved_runtime deployed.1 (some "p-0") deploy_task empty_db-IsValid deployed_ok

-- The identity of an approval that the request brings is not the one that stands in the context.
get-task_context_example :
    get "approval_id" (task_context deploy_event deploy_request (some yes_to_deploy))
    ≡ some (str "p-0")
unfolding get put string_eq
get-task_context_example =
    get-task_context "approval_id" deploy_event deploy_request (some yes_to_deploy)

abbrev inspecting_runtime : Runtime
inspecting_runtime = record {
  db = empty_db;
  ingress = inspection_event ∷ deploy_event ∷ [];
  approvals = [];
}

inspected : Result Dispatch × Runtime
unfolding deployed dispatch_event sorted_fields update transition_received requested_capabilities
    normalize_capabilities optional_object checked_contract ingress_status_eq insert_task ℕ_discrete
    decimal count
inspected = dispatch_event (at "b" 7) "a-0" inspecting_runtime

inspected_ok :
    dispatch_event (at "b" 7) "a-0" inspecting_runtime ≡ (ok (dispatched "b-0"), inspected.1)
unfolding inspected
inspected_ok = refl

dispatch_event-Dispatches_example :
    (event : IngressEvent) × (get_event "a-0" inspecting_runtime.ingress ≡ some event)
    × (event.status ≡ received)
    × (task_by_key (event_task_key "a-0") empty_db ≡ none)
    × Dispatches (at "b" 7) event inspecting_runtime "b-0" inspected.1
dispatch_event-Dispatches_example =
    dispatch_event-Dispatches (at "b" 7) "a-0" "b-0" inspecting_runtime inspected.1 inspected_ok

unfoldable pub calls : ℕ → Call
calls zero = at "b" 7
calls (suc _) = at "c" 8

drained : Result Dispatched × Runtime
unfolding inspected dispatch_pending_events calls
drained = dispatch_pending_events calls (pos 5) inspecting_runtime

abbrev drained_summary : Dispatched
drained_summary = record {
  scanned = 2;
  materialized = 1;
  already_materialized = 0;
  blocked = 1;
  has_more = false;
  results =
      dispatched "b-0"
      ∷ blocked "automatic dispatch is limited to read-only task materialization"
      ∷ [];
}

drained_ok :
    dispatch_pending_events calls (pos 5) inspecting_runtime ≡ (ok drained_summary, drained.1)
unfolding drained
drained_ok = refl

dispatch_pending_events-drains_example :
    (count is_pending drained.1.ingress + drained_summary.scanned
      ≡ count is_pending inspecting_runtime.ingress)
    × (drained_summary.scanned ≡ (
        if leb 5 (count is_pending inspecting_runtime.ingress)
        then 5
        else count is_pending inspecting_runtime.ingress))
    × (drained_summary.materialized
          + (drained_summary.already_materialized + drained_summary.blocked)
        ≡ drained_summary.scanned)
    × (drained_summary.has_more ≡ ltb 5 (count is_pending inspecting_runtime.ingress))
    × (drained.1.approvals ≡ [])
unfolding find string_eq
dispatch_pending_events-drains_example =
    dispatch_pending_events-drains calls 5 inspecting_runtime drained.1 drained_summary
      (refl, (refl, tt)) drained_ok
