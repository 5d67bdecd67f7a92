-- ===== src/GithubEvents/Laws.antt =====
-- An event from GitHub becomes a task by itself: its request is read-only and within its contract.
use personal_agent_runtime.Base.{pos, [], ◌∷◌, string_eq, ◌≡◌, refl}
use personal_agent_runtime.Json.{int, str, arr, obj, nil, cons, Fields, fields, object}
use personal_agent_runtime.Json.Canonical.{canonical}
use personal_agent_runtime.GithubEvents.{CheckedEvent, inspection_goal, inspection_request}

-- The request with its keys in order
unfoldable pub sorted_fields : CheckedEvent → Fields
sorted_fields e = fields (
    (
      "acceptance_criteria",
      arr (
          cons (str "Current PR review/check state is inspected from authoritative GitHub data") (
            cons
              (str
                "Any actionable review or CI blocker is reported as evidence rather than inferred from chat history")
              nil)),
    )
    ∷ ("action", str "inspect_github_pull_request_state")
    ∷ (
      "context",
      object (
          ("github_action", canonical e.action)
          ∷ ("github_delivery_id", str e.delivery_id)
          ∷ ("github_event_name", str e.event_name)
          ∷ ("github_pull_request_number", int (pos e.pull_request_number))
          ∷ []),
    )
    ∷ (
      "evidence_required",
      arr (
          cons (str "GitHub PR identity and current review/check status")
            (cons (str "Explicit blocker/finding evidence when action is required") nil)),
    )
    ∷ (
      "expected_next_state_transition",
      str "github event -> durable ingress -> one bounded read-only PR inspection task",
    )
    ∷ ("goal", str (inspection_goal e))
    ∷ ("mode", str "read-only")
    ∷ (
      "non_goals",
      arr (
          cons (str "Do not merge, comment, push, rerun workflows, deploy, or mutate GitHub state")
            (cons (str "Do not infer write authority from webhook actor or credential presence")
              nil)),
    )
    ∷ ("repo", str e.repository)
    ∷ ("required_capabilities", arr (cons (str "repo-read") nil))
    ∷ ("risk_permission_tier", str "read-only")
    ∷ (
      "scope",
      object (("pull_request", int (pos e.pull_request_number)) ∷ ("repo", str e.repository) ∷ []),
    )
    ∷ ("type", str "task")
    ∷ [])

pub canonical-inspection_request :
    (e : CheckedEvent) → canonical (inspection_request e) ≡ obj (sorted_fields e)
unfolding sorted_fields canonical inspection_request
canonical-inspection_request e = refl
