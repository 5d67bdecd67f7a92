-- ===== src/Materialization/Create.antt =====
-- `materialize_ingress_event`: the approval that a request needs, and the task that it becomes.
use personal_agent_runtime.Base.{
  pos, String, ◌<>◌, Bool, false, Option, none, some, List, [], ◌∷◌, ◌==◌, string_eq, option_eq,
  if◌then◌else◌, not, ◌&&◌, contains,
}
use personal_agent_runtime.Base.Int.{int_eq}
use personal_agent_runtime.Base.Table.{select}
use personal_agent_runtime.Base.Table.Order.{by_time_and_id}
use personal_agent_runtime.Json.{
  Json, str, arr, obj, Items, nil, cons, Fields, end, field, put, merge, object, fields, is_str_at,
}
use personal_agent_runtime.Json.Canonical.{json_eq}
use personal_agent_runtime.Store.{
  ◌|>>◌, Task, Error, key_error, runtime_error, Result, ok, raised, Call,
}
use personal_agent_runtime.Tasks.{NewTask, create_task}
use personal_agent_runtime.Approvals.{Approval, Approvals, approved, approval_status_eq}
use personal_agent_runtime.Ingress.{IngressEvent, get_event}
use personal_agent_runtime.Materialization.{
  Runtime, runtime_owned_context_keys, canonical_json, TaskContract, TaskRequest, task_request,
}

-- The WHERE of `_matching_approval`
unfoldable pub is_approval_of : String → String → Approval → Bool
is_approval_of event_id action a =
    a.status == approved
    && (a.subject_type == "ingress_event" && (a.subject_id == event_id && a.action == action))

-- The first of the rows whose scope is the one that is asked for
unfoldable pub first_in_scope : Json → Approvals → Result (Option Approval)
unfolding canonical_json
first_in_scope expected [] = ok none
first_in_scope expected (a ∷ rest) =
    let later = first_in_scope expected rest in
    elim (canonical_json a.scope) [
      | raised e ↦ raised e
      | ok scope ↦ if scope == expected then ok (some a) else later
    ]

unfoldable pub matching_approval : String → TaskRequest → Approvals → Result (Option Approval)
unfolding is_approval_of first_in_scope
matching_approval event_id q rows = canonical_json (obj q.scope) |>> λ expected.
    first_in_scope expected (
      by_time_and_id (λ a. a.created_at) (λ a. a.id)
        (select (is_approval_of event_id q.action) rows))

-- `_sanitize_context`
unfoldable pub sanitize_context : Fields → Fields
sanitize_context end = end
sanitize_context (field k v d) =
    let rest = sanitize_context d in
    if contains runtime_owned_context_keys k then rest else field k v rest

abbrev pub json_texts : List String → Items
json_texts [] = nil
json_texts (s ∷ ss) = cons (str s) (json_texts ss)

abbrev pub contract_json : TaskContract → Json
contract_json t = object (
    ("acceptance_criteria", t.acceptance_criteria)
    ∷ ("non_goals", t.non_goals)
    ∷ ("risk_permission_tier", str t.risk_permission_tier)
    ∷ ("evidence_required", t.evidence_required)
    ∷ ("expected_next_state_transition", str t.expected_next_state_transition)
    ∷ [])

-- What the runtime itself writes into the context
abbrev pub provenance : IngressEvent → TaskRequest → Fields
provenance event q = fields (
    ("task_contract", contract_json q.task_contract)
    ∷ ("source_ingress_event_id", str event.id)
    ∷ ("ingress_source", str event.source)
    ∷ ("ingress_kind", str event.kind)
    ∷ ("materialization_action", str q.action)
    ∷ ("materialization_scope", obj q.scope)
    ∷ ("required_capabilities", arr (json_texts q.required_capabilities))
    ∷ [])

abbrev pub with_approval : Option Approval → Fields → Fields
with_approval none d = d
with_approval (some a) d = put "approval_id" (str a.id) d

unfoldable pub task_context : IngressEvent → TaskRequest → Option Approval → Fields
unfolding sanitize_context merge put
task_context event q approval =
    with_approval approval (merge (sanitize_context q.context) (provenance event q))

abbrev pub event_task_key : String → String
event_task_key event_id = "ingress-event:" <> event_id

abbrev pub new_event_task : IngressEvent → TaskRequest → Fields → NewTask
new_event_task event q context = record {
  goal = q.goal;
  repo = q.repo;
  mode = q.mode;
  context = context;
  priority = q.priority;
  idempotency_key = some (event_task_key event.id);
  max_attempts = pos 3;
  actor = "ingress:" <> event.source;
}

abbrev pub collided : Error
collided = runtime_error "ingress materialization idempotency key collided with a different task"

abbrev pub owned_context : String → Json → Bool
owned_context event_id (obj d) = is_str_at "source_ingress_event_id" event_id d
owned_context event_id _ = false

-- `_assert_existing_task_matches`
unfoldable pub assert_existing_task_matches :
    Task → TaskRequest → String → Fields → Result (Unit {0})
assert_existing_task_matches task q event_id context =
    if not (task.goal == q.goal && (task.repo == q.repo && task.mode == q.mode))
    then raised collided
    else if not (task.priority == q.priority)
    then raised collided
    else canonical_json task.context |>> λ existing. canonical_json (obj context) |>> λ expected.
        if not (existing == expected)
        then raised collided
        else if owned_context event_id task.context
        then ok tt
        else raised
            (runtime_error "ingress materialization idempotency key is not owned by this event")

pub data Materialization : Type 0 where
  -- with the action and the mode
  approval_required : String → String → Materialization
  -- with the approval, if one was needed, and the task
  materialized : Option String → Task → Materialization

abbrev pub approval_id : Option Approval → Option String
approval_id none = none
approval_id (some a) = some a.id

-- `create_task` is a transaction of its own: the check that follows it does not undo it.
unfoldable pub store_event_task :
    Call → IngressEvent → TaskRequest → Option Approval → Runtime → Result Materialization × Runtime
unfolding assert_existing_task_matches task_context
store_event_task c event q approval rt =
    let context = task_context event q approval in
    elim (create_task c (new_event_task event q context) rt.db) [
      | raised e ↦ (raised e, rt)
      | ok (task, db') ↦ (
        assert_existing_task_matches task q event.id context |>> λ _.
            ok (materialized (approval_id approval) task),
        record rt { db = db' },
      )
    ]

abbrev pub approved_or_not :
    Call → IngressEvent → TaskRequest → Option Approval → Runtime → Result Materialization × Runtime
approved_or_not c event q none rt = (ok (approval_required q.action q.mode), rt)
approved_or_not c event q (some a) rt = store_event_task c event q (some a) rt

-- The approval that a request needs, if its mode is not read-only
unfoldable pub materialize_request :
    Call → IngressEvent → TaskRequest → Runtime → Result Materialization × Runtime
unfolding matching_approval store_event_task
materialize_request c event q rt =
    if q.mode == "read-only"
    then store_event_task c event q none rt
    else elim (matching_approval event.id q rt.approvals) [
      | raised e ↦ (raised e, rt)
      | ok approval ↦ approved_or_not c event q approval rt
    ]

unfoldable pub materialize_ingress_event :
    Call → String → Runtime → Result Materialization × Runtime
unfolding materialize_request
materialize_ingress_event c event_id rt = elim (get_event event_id rt.ingress) [
  | none ↦ (raised (key_error ("ingress event not found: " <> event_id)), rt)
  | some event ↦ elim (task_request event) [
    | raised e ↦ (raised e, rt)
    | ok q ↦ materialize_request c event q rt
  ]
]
