-- ===== src/Materialization.antt =====
-- Turning an ingress event into a task: par/materialization.py.
pub mod Create
pub mod Authority
pub mod Context
pub mod Untouched
pub mod Repeat
use personal_agent_runtime.Base.{
  ℕ, ℤ, pos, String, ◌<>◌, Bool, true, false, Option, none, some, List, [], ◌∷◌, ◌++◌, ◌==◌,
  string_eq, option_eq, if◌then◌else◌, not, ◌&&◌, ◌||◌, contains, any, map,
}
use personal_agent_runtime.Base.Int.{fits_sqlite, int_eq}
use personal_agent_runtime.Base.Text.{strip, is_empty, is_blank}
use personal_agent_runtime.Base.Table.{select}
use personal_agent_runtime.Base.Table.Order.{by_time_and_id}
use personal_agent_runtime.Json.{
  Json, null, bool, int, str, arr, obj, Items, nil, cons, Fields, end, field, get, put, merge,
  object, fields, is_str_at,
}
use personal_agent_runtime.Json.Canonical.{json_eq, canonical, is_finite, are_finite}
use personal_agent_runtime.Store.{
  ◌|>>◌, Task, Db, Error, value_error, key_error, runtime_error, Result, ok, raised, Call,
}
use personal_agent_runtime.Tasks.{NewTask, create_task}
use personal_agent_runtime.Capabilities.{texts}
use personal_agent_runtime.Capabilities.Names.{normalize_capabilities}
use personal_agent_runtime.Approvals.{Approval, Approvals, approved, approval_status_eq}
use personal_agent_runtime.Ingress.{IngressEvent, Ingress, get_event}

-- The tables that the module and its callers touch, beside those of par/db.py
pub record Runtime : Type 0 where
  pub db : Db
  pub ingress : Ingress
  pub approvals : Approvals

abbrev pub runtime_owned_context_keys : List String
runtime_owned_context_keys =
    "parent_task_id" ∷ "source_ingress_event_id" ∷ "ingress_source" ∷ "ingress_kind"
    ∷ "materialization_action" ∷ "materialization_scope" ∷ "approval_id" ∷ "required_capabilities"
    ∷ []

-- `_READ_ONLY_ACTION_CAPABILITIES.get`
abbrev pub read_only_action_capabilities : String → Option (List String)
read_only_action_capabilities action =
    if action == "inspect_repository"
    then some ("repo-read" ∷ [])
    else if action == "inspect_github_pull_request_state"
    then some ("repo-read" ∷ [])
    else none

-- `_required_string`
abbrev pub required_string : String → Option Json → Result String
required_string name (some (str s)) =
    if is_blank s
    then raised (value_error (name <> " must be a non-empty string"))
    else ok (strip s)
required_string name _ = raised (value_error (name <> " must be a non-empty string"))

-- `_required_list`
abbrev pub required_list : String → Option Json → Result Json
required_list name (some (arr (cons v rest))) = ok (arr (cons v rest))
required_list name _ = raised (value_error (name <> " must be a non-empty list"))

-- `_object`
unfoldable pub optional_object : String → Option Json → Result Fields
optional_object name none = ok end
optional_object name (some null) = ok end
optional_object name (some (obj d)) =
    if are_finite d
    then ok d
    else raised (value_error "Out of range float values are not JSON compliant")
optional_object name (some _) = raised (value_error (name <> " must be a JSON object"))

-- `_canonical_json`
unfoldable pub canonical_json : Json → Result Json
canonical_json v =
    if is_finite v
    then ok (canonical v)
    else raised (value_error "Out of range float values are not JSON compliant")

-- `_capabilities`
abbrev pub not_capabilities : Error
not_capabilities = value_error "required_capabilities must be a list of non-empty strings"

unfoldable pub requested_capabilities : Option Json → Result (List String)
unfolding texts
requested_capabilities none = ok []
requested_capabilities (some null) = ok []
requested_capabilities (some (arr items)) = elim (texts items) [
  | none ↦ raised not_capabilities
  | some values ↦
      if any is_blank values
      then raised not_capabilities
      else normalize_capabilities (map strip values)
]
requested_capabilities (some _) = raised not_capabilities

-- The repository of the request, if there is one
abbrev pub requested_repo : Option Json → Result (Option String)
requested_repo none = ok none
requested_repo (some null) = ok none
requested_repo (some v) =
    required_string "requested_action.repo" (some v) |>> λ repo. ok (some repo)

abbrev pub requested_priority : Option Json → Result ℤ
requested_priority none = ok (pos 100)
requested_priority (some (int n)) =
    if fits_sqlite n
    then ok n
    else raised (value_error "requested_action.priority is outside SQLite integer range")
requested_priority (some _) = raised (value_error "requested_action.priority must be an integer")

pub record TaskContract : Type 0 where
  pub acceptance_criteria : Json
  pub non_goals : Json
  pub risk_permission_tier : String
  pub evidence_required : Json
  pub expected_next_state_transition : String

pub record TaskRequest : Type 0 where
  pub action : String
  pub goal : String
  pub mode : String
  pub repo : Option String
  pub scope : Fields
  pub context : Fields
  pub required_capabilities : List String
  pub priority : ℤ
  pub task_contract : TaskContract

-- `set(xs) == set(ys)`
abbrev pub all_in : List String → List String → Bool
all_in [] ys = true
all_in (x ∷ xs) ys = contains ys x && all_in xs ys

abbrev pub same_set : List String → List String → Bool
same_set xs ys = all_in xs ys && all_in ys xs

-- `risk_permission_tier in {"read-only", "low"}`
abbrev pub is_low_risk : String → Bool
is_low_risk tier = tier == "read-only" || tier == "low"

-- `repo is not None and scope.get("repo") != repo`, negated
abbrev pub scope_has_repo : Fields → Option String → Bool
scope_has_repo scope none = true
scope_has_repo scope (some repo) = is_str_at "repo" repo scope

abbrev pub is_end : Fields → Bool
is_end end = true
is_end (field _ _ _) = false

-- The contract of a request by its mode
abbrev pub checked_read_only : TaskRequest → Option (List String) → Result TaskRequest
checked_read_only q none =
    raised (value_error "requested_action.action is not eligible for automatic read-only execution")
checked_read_only q (some allowed) =
    if not (is_low_risk q.task_contract.risk_permission_tier)
    then raised (value_error "read-only mode requires a read-only/low risk_permission_tier")
    else if not (same_set q.required_capabilities allowed)
    then raised
        (value_error "read-only action capabilities do not match the approved action contract")
    else ok q

abbrev pub checked_writing : TaskRequest → Result TaskRequest
checked_writing q =
    if is_end q.scope
    then raised (value_error "non-read-only requested_action.scope must be non-empty")
    else if not (scope_has_repo q.scope q.repo)
    then raised (
        value_error
          "non-read-only requested_action.scope.repo must exactly match requested_action.repo")
    else ok q

unfoldable pub checked_contract : TaskRequest → Result TaskRequest
checked_contract q =
    if q.mode == "read-only"
    then checked_read_only q (read_only_action_capabilities q.action)
    else checked_writing q

-- The parts of a request, in the order in which they are checked: the contract of the task
unfoldable pub parsed_task_contract : Fields → Result TaskContract
parsed_task_contract d =
    required_list "requested_action.acceptance_criteria" (get "acceptance_criteria" d)
    |>> λ criteria. required_list "requested_action.non_goals" (get "non_goals" d) |>> λ non_goals.
        required_string "requested_action.risk_permission_tier" (get "risk_permission_tier" d)
        |>> λ tier.
            required_list "requested_action.evidence_required" (get "evidence_required" d)
            |>> λ evidence.
                required_string "requested_action.expected_next_state_transition"
                  (get "expected_next_state_transition" d)
                |>> λ transition. ok (record {
                  acceptance_criteria = criteria;
                  non_goals = non_goals;
                  risk_permission_tier = tier;
                  evidence_required = evidence;
                  expected_next_state_transition = transition;
                })

-- what comes after it
unfoldable pub parsed_rest : Fields → String → String → String → TaskContract → Result TaskRequest
unfolding optional_object requested_capabilities
parsed_rest d action goal mode contract = requested_repo (get "repo" d) |>> λ repo.
    optional_object "requested_action.scope" (get "scope" d) |>> λ scope.
    optional_object "requested_action.context" (get "context" d) |>> λ context.
    requested_capabilities (get "required_capabilities" d) |>> λ capabilities.
    requested_priority (get "priority" d) |>> λ priority. ok (record {
      action = action;
      goal = goal;
      mode = mode;
      repo = repo;
      scope = scope;
      context = context;
      required_capabilities = capabilities;
      priority = priority;
      task_contract = contract;
    })

unfoldable pub parsed_request : Fields → Result TaskRequest
unfolding parsed_task_contract parsed_rest
parsed_request d = required_string "requested_action.action" (get "action" d) |>> λ action.
    required_string "requested_action.goal" (get "goal" d) |>> λ goal.
    required_string "requested_action.mode" (get "mode" d) |>> λ mode.
    parsed_task_contract d |>> λ contract. parsed_rest d action goal mode contract

abbrev pub typed_request : Fields → Result Fields
typed_request d =
    if is_str_at "type" "task" d
    then ok d
    else raised (value_error "requested_action.type must be task")

-- `_task_request`
unfoldable pub task_request : IngressEvent → Result TaskRequest
unfolding parsed_request checked_contract
task_request event = optional_object "requested_action" (some event.requested_action) |>> λ d.
    typed_request d |>> λ typed. parsed_request typed |>> λ q. checked_contract q
