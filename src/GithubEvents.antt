-- ===== src/GithubEvents.antt =====
-- GitHub events about pull requests: par/github_events.py.
pub mod Identities
pub mod Laws
pub mod Dispatchable
pub mod Inspection
use personal_agent_runtime.Base.{
  ℕ, ℤ, pos, zero, suc, String, ◌<>◌, Bool, true, false, Option, none, some, List, [], ◌∷◌, ◌==◌,
  string_eq, if◌then◌else◌, not, ◌&&◌, ◌||◌, contains, any,
}
use personal_agent_runtime.Base.Decimal.{decimal, split_slash}
use personal_agent_runtime.Base.Text.{strip, is_empty, is_blank}
use personal_agent_runtime.Json.{
  Json, null, bool, int, str, arr, obj, Items, nil, cons, Fields, end, get, object,
}
use personal_agent_runtime.Store.{Error, value_error, Result, ok, raised, Call, ◌|>>◌}
use personal_agent_runtime.Materialization.{required_string}
use personal_agent_runtime.Ingress.{IngressEvent, Ingress, NewEvent, ingest_event}

abbrev pub supported_events : List String
supported_events = "pull_request" ∷ "pull_request_review" ∷ "check_run" ∷ "workflow_run" ∷ []

-- The arguments of `ingest_github_pr_event`
pub record PullRequestEvent : Type 0 where
  pub event_name : String
  pub delivery_id : String
  pub repository : String
  pub pull_request_number : ℤ
  pub payload : Json

abbrev pub owner_and_name : String → List String → Result String
owner_and_name repo (owner ∷ (name ∷ [])) =
    if is_empty owner || is_empty name
    then raised (value_error "repository must be in owner/name form")
    else if not (owner == strip owner) || not (name == strip name)
    then raised
        (value_error "repository owner/name components must not contain surrounding whitespace")
    else ok repo
owner_and_name repo _ = raised (value_error "repository must be in owner/name form")

-- `_repository`
abbrev pub checked_repository : String → Result String
checked_repository value = required_string "repository" (some (str value)) |>> λ repo.
    owner_and_name repo (split_slash repo)

-- `_pull_request_number`, `_positive_int`
abbrev pub positive : String → ℤ → Result ℕ
positive name (pos (suc n)) = ok (suc n)
positive name _ = raised (value_error (name <> " must be a positive integer"))

abbrev pub supported : String → Result String
supported name =
    if contains supported_events name
    then ok name
    else raised (value_error ("unsupported GitHub event: " <> name))

abbrev pub event_payload : Json → Result Fields
event_payload (obj d) = ok d
event_payload _ = raised (value_error "payload must be a JSON object")

-- `payload.get("action")`, as it stands in the context: stripped, or null
abbrev pub event_action : Option Json → Result Json
event_action none = ok null
event_action (some null) = ok null
event_action (some (str s)) =
    if is_blank s
    then raised (value_error "payload.action must be a non-empty string when provided")
    else ok (str (strip s))
event_action (some _) =
    raised (value_error "payload.action must be a non-empty string when provided")

-- The arguments, once they are checked
pub record CheckedEvent : Type 0 where
  pub event_name : String
  pub delivery_id : String
  pub repository : String
  pub pull_request_number : ℕ
  pub payload : Fields
  pub action : Json

unfoldable pub checked_event : PullRequestEvent → Result CheckedEvent
unfolding split_slash
checked_event e = required_string "event_name" (some (str e.event_name)) |>> λ name.
    supported name |>> λ event_name.
    required_string "delivery_id" (some (str e.delivery_id)) |>> λ delivery_id.
    checked_repository e.repository |>> λ repository.
    positive "pull_request_number" e.pull_request_number |>> λ number.
    event_payload e.payload |>> λ payload. event_action (get "action" payload) |>> λ action.
    ok (record {
      event_name = event_name;
      delivery_id = delivery_id;
      repository = repository;
      pull_request_number = number;
      payload = payload;
      action = action;
    })

abbrev pub inspection_goal : CheckedEvent → String
inspection_goal e =
    "Inspect GitHub PR state for " <> (e.repository <> ("#" <> decimal e.pull_request_number))

-- The dict `requested_action`
unfoldable pub inspection_request : CheckedEvent → Json
unfolding decimal
inspection_request e = object (
    ("type", str "task")
    ∷ ("action", str "inspect_github_pull_request_state")
    ∷ ("goal", str (inspection_goal e))
    ∷ ("repo", str e.repository)
    ∷ ("mode", str "read-only")
    ∷ (
      "scope",
      object (("repo", str e.repository) ∷ ("pull_request", int (pos e.pull_request_number)) ∷ []),
    )
    ∷ (
      "context",
      object (
          ("github_event_name", str e.event_name)
          ∷ ("github_delivery_id", str e.delivery_id)
          ∷ ("github_pull_request_number", int (pos e.pull_request_number))
          ∷ ("github_action", e.action)
          ∷ []),
    )
    ∷ ("required_capabilities", arr (cons (str "repo-read") nil))
    ∷ (
      "acceptance_criteria",
      arr (
          cons (str "Current PR review/check state is inspected from authoritative GitHub data") (
            cons
              (str
                "Any actionable review or CI blocker is reported as evidence rather than inferred from chat history")
              nil)),
    )
    ∷ (
      "non_goals",
      arr (
          cons (str "Do not merge, comment, push, rerun workflows, deploy, or mutate GitHub state")
            (cons (str "Do not infer write authority from webhook actor or credential presence")
              nil)),
    )
    ∷ ("risk_permission_tier", str "read-only")
    ∷ (
      "evidence_required",
      arr (
          cons (str "GitHub PR identity and current review/check status")
            (cons (str "Explicit blocker/finding evidence when action is required") nil)),
    )
    ∷ (
      "expected_next_state_transition",
      str "github event -> durable ingress -> one bounded read-only PR inspection task",
    )
    ∷ [])

abbrev pub github_event : CheckedEvent → NewEvent
github_event e = record {
  idempotency_key = "github-delivery:" <> e.delivery_id;
  source = "webhook";
  kind = "github." <> e.event_name;
  payload = object (
      ("repository", str e.repository)
      ∷ ("pull_request_number", int (pos e.pull_request_number))
      ∷ ("event_name", str e.event_name)
      ∷ ("delivery_id", str e.delivery_id)
      ∷ ("event", obj e.payload)
      ∷ []);
  requested_action = inspection_request e;
  authority =
      object
        (("source_actor_is_grant", bool false) ∷ ("credential_presence_is_grant", bool false) ∷ []);
}

unfoldable pub ingest_github_pr_event :
    Call → PullRequestEvent → Ingress → Result (IngressEvent × Ingress)
unfolding checked_event inspection_request
ingest_github_pr_event c e rows =
    checked_event e |>> λ checked. ingest_event c (github_event checked) rows
