-- ===== src/GithubEvents/Dispatchable.antt =====
-- An event from GitHub becomes a task by itself: its request is read-only and within its contract.
use Prim.Native.String.append
use personal_agent_runtime.Base.{
  pos, String, ◌<>◌, true, false, none, some, [], ◌∷◌, string_eq, ◌≡◌, refl, ap, ◌∙◌,
}
use personal_agent_runtime.Base.Text.{strip, is_blank, is_space}
use personal_agent_runtime.Base.Text.Strip.{is_blank-head}
use personal_agent_runtime.Json.{int, str, arr, obj, nil, cons, get, fields, is_str_at}
use personal_agent_runtime.Json.Canonical.{canonical, is_finite, are_finite}
use personal_agent_runtime.Store.{ok}
use personal_agent_runtime.Capabilities.Names.{normalize_capabilities}
use personal_agent_runtime.Ingress.{IngressEvent}
use personal_agent_runtime.Materialization.{
  required_string, typed_request, checked_contract, task_request, requested_capabilities,
  TaskRequest, TaskContract, parsed_task_contract, parsed_rest, parsed_request, optional_object,
}
use personal_agent_runtime.GithubEvents.{CheckedEvent, inspection_goal}
use personal_agent_runtime.GithubEvents.Laws.{sorted_fields}
use personal_agent_runtime.Dispatcher.{not_dispatchable}

goal-filled : (s : String) → is_blank ("Inspect GitHub PR state for " <> s) ≡ false
unfolding is_space
goal-filled s =
    ap is_blank (append.cons "I" "nspect GitHub PR state for " s)
    ∙ is_blank-head "I" ("nspect GitHub PR state for " <> s) refl

pub sorted_fields-dispatchable :
    (e : CheckedEvent) → not_dispatchable (obj (sorted_fields e)) ≡ none
unfolding sorted_fields not_dispatchable is_str_at get string_eq
sorted_fields-dispatchable e = refl

capabilities :
    requested_capabilities (some (arr (cons (str "repo-read") nil))) ≡ ok ("repo-read" ∷ [])
unfolding requested_capabilities is_blank strip normalize_capabilities string_eq
capabilities = refl

-- The contract of an inspection
abbrev pub inspection_contract : TaskContract
inspection_contract = record {
  acceptance_criteria = arr (
      cons (str "Current PR review/check state is inspected from authoritative GitHub data") (
        cons
          (str
            "Any actionable review or CI blocker is reported as evidence rather than inferred from chat history")
          nil));
  non_goals = arr (
      cons (str "Do not merge, comment, push, rerun workflows, deploy, or mutate GitHub state")
        (cons (str "Do not infer write authority from webhook actor or credential presence") nil));
  risk_permission_tier = "read-only";
  evidence_required = arr (
      cons (str "GitHub PR identity and current review/check status")
        (cons (str "Explicit blocker/finding evidence when action is required") nil));
  expected_next_state_transition =
      "github event -> durable ingress -> one bounded read-only PR inspection task";
}

parsed_task_contract-inspection :
    (e : CheckedEvent) → parsed_task_contract (sorted_fields e) ≡ ok inspection_contract
unfolding parsed_task_contract sorted_fields get string_eq is_blank strip
parsed_task_contract-inspection e = refl

-- The task that is asked for
abbrev pub inspection : CheckedEvent → TaskRequest
inspection e = record {
  action = "inspect_github_pull_request_state";
  goal = strip (inspection_goal e);
  mode = "read-only";
  repo = some (strip e.repository);
  scope =
      fields (("pull_request", int (pos e.pull_request_number)) ∷ ("repo", str e.repository) ∷ []);
  context = fields (
      ("github_action", canonical e.action)
      ∷ ("github_delivery_id", str e.delivery_id)
      ∷ ("github_event_name", str e.event_name)
      ∷ ("github_pull_request_number", int (pos e.pull_request_number))
      ∷ []);
  required_capabilities = "repo-read" ∷ [];
  priority = pos 100;
  task_contract = inspection_contract;
}

parsed_rest-inspection :
    (e : CheckedEvent)
    → is_blank e.repository ≡ false
    → is_finite (canonical e.action) ≡ true
    → parsed_rest
        (sorted_fields e)
        "inspect_github_pull_request_state"
        (strip (inspection_goal e))
        "read-only"
        inspection_contract
      ≡ ok (inspection e)
unfolding parsed_rest sorted_fields get string_eq optional_object is_finite
parsed_rest-inspection e repo finite = rw (parsed_rest, repo) (rw finite (rw capabilities refl))

required_filled :
    (name s : String) → is_blank s ≡ false → required_string name (some (str s)) ≡ ok (strip s)
required_filled name s e = rw e refl

read_action :
    (e : CheckedEvent)
    → required_string "requested_action.action" (get "action" (sorted_fields e))
      ≡ ok "inspect_github_pull_request_state"
unfolding sorted_fields get string_eq is_blank strip
read_action e = refl

read_mode :
    (e : CheckedEvent)
    → required_string "requested_action.mode" (get "mode" (sorted_fields e)) ≡ ok "read-only"
unfolding sorted_fields get string_eq is_blank strip
read_mode e = refl

read_goal :
    (e : CheckedEvent)
    → required_string "requested_action.goal" (get "goal" (sorted_fields e))
      ≡ ok (strip (inspection_goal e))
unfolding sorted_fields get string_eq
read_goal e = required_filled "requested_action.goal" (inspection_goal e) (goal-filled _)

parsed_request-inspection :
    (e : CheckedEvent)
    → is_blank e.repository ≡ false
    → is_finite (canonical e.action) ≡ true
    → parsed_request (sorted_fields e) ≡ ok (inspection e)
unfolding parsed_request
parsed_request-inspection e repo finite =
    rw (parsed_request, read_action e)
      (rw (read_goal e) (
        rw (read_mode e)
          (rw (parsed_task_contract-inspection e) (parsed_rest-inspection e repo finite))))

checked_contract-inspection :
    (e : CheckedEvent) → checked_contract (inspection e) ≡ ok (inspection e)
unfolding checked_contract string_eq
checked_contract-inspection e = refl

are_finite-sorted :
    (e : CheckedEvent) → is_finite (canonical e.action) ≡ true → are_finite (sorted_fields e) ≡ true
unfolding sorted_fields is_finite
are_finite-sorted e finite = rw finite refl

read_object :
    (e : CheckedEvent)
    → is_finite (canonical e.action) ≡ true
    → optional_object "requested_action" (some (obj (sorted_fields e))) ≡ ok (sorted_fields e)
unfolding optional_object
read_object e finite = rw (are_finite-sorted e finite) refl

typed_fields : (e : CheckedEvent) → typed_request (sorted_fields e) ≡ ok (sorted_fields e)
unfolding sorted_fields is_str_at get string_eq
typed_fields e = refl

pub task_request-inspection :
    (e : CheckedEvent) (event : IngressEvent)
    → is_blank e.repository ≡ false
    → is_finite (canonical e.action) ≡ true
    → event.requested_action ≡ obj (sorted_fields e)
    → task_request event ≡ ok (inspection e)
unfolding task_request
task_request-inspection e event repo finite is =
    rw (task_request, is)
      (rw (read_object e finite) (
        rw (typed_fields e)
          (rw (parsed_request-inspection e repo finite) (checked_contract-inspection e))))
