-- ===== src/GithubEvents/Identities.antt =====
-- The deliveries of GitHub Actions: scripts/ingest_github_action_event.py.
use personal_agent_runtime.Base.{
  ℕ, pos, suc, String, ◌<>◌, Option, some, List, [], ◌∷◌, ◌==◌, string_eq, if◌then◌else◌, ◌||◌, any,
  map, is_same,
}
use personal_agent_runtime.Base.Decimal.{decimal}
use personal_agent_runtime.Base.Text.{strip, is_blank}
use personal_agent_runtime.Json.{Json, int, str, arr, obj, Items, nil, cons, Fields, get}
use personal_agent_runtime.Store.{value_error, Result, ok, raised, Call, ◌|>>◌}
use personal_agent_runtime.Ingress.{IngressEvent, Ingress}
use personal_agent_runtime.GithubEvents.{positive, ingest_github_pr_event}

-- `_object(payload.get(key), name=key)`
abbrev pub object_at : String → String → Fields → Result Fields
object_at key name d = elim (get key d) [
  | some (obj inner) ↦ ok inner
  | _ ↦ raised (value_error (name <> " must be a JSON object"))
]

-- `_positive_int`
abbrev pub positive_at : String → String → Fields → Result ℕ
positive_at key name d = elim (get key d) [
  | some (int n) ↦ positive name n
  | _ ↦ raised (value_error (name <> " must be a positive integer"))
]

abbrev pub text_at : String → String → Fields → Result String
text_at key name d = elim (get key d) [
  | some (str s) ↦
      if is_blank s
      then raised (value_error (name <> " must be a non-empty string"))
      else ok (strip s)
  | _ ↦ raised (value_error (name <> " must be a non-empty string"))
]

abbrev pub linked_number : String → ℕ → Json → Result ℕ
linked_number name index (obj d) = positive_at "number" "pull_request.number" d
linked_number name index _ =
    raised (value_error (name <> ("[" <> (decimal index <> "] must be a JSON object"))))

-- The loop of `_linked_pull_requests`, with the index of the item and the numbers that were seen
unfoldable pub new_numbers : String → ℕ → List ℕ → Items → Result (List ℕ)
new_numbers name index seen nil = ok []
new_numbers name index seen (cons v rest) = elim (linked_number name index v) [
  | raised e ↦ raised e
  | ok n ↦
      let known = any (is_same n) seen in
      let numbers = new_numbers name (suc index) (if known then seen else n ∷ seen) rest in
      if known then numbers else (numbers |>> λ ns. ok (n ∷ ns))
]

-- `_linked_pull_requests`
unfoldable pub linked_pull_requests : String → Option Json → Result (List ℕ)
unfolding new_numbers
linked_pull_requests name (some (arr (cons v rest))) = new_numbers name 0 [] (cons v rest)
linked_pull_requests name _ =
    raised (value_error (name <> " must contain at least one pull request"))

pub record Identity : Type 0 where
  pub repository : String
  pub pull_request_number : ℕ
  pub semantic_identity : String

abbrev pub identity : String → String → ℕ → Identity
identity repository stable number = record {
  repository = repository;
  pull_request_number = number;
  semantic_identity = stable;
}

-- The identity of an event about one pull request
abbrev pub review_identity : String → Fields → Result String
review_identity action payload = object_at "review" "review" payload |>> λ review.
    positive_at "id" "review.id" review |>> λ id.
    ok ("review:" <> (decimal id <> (":action:" <> action)))

abbrev pub head_identity : String → Fields → Result String
head_identity action pull_request = object_at "head" "pull_request.head" pull_request |>> λ head.
    text_at "sha" "pull_request.head.sha" head |>> λ sha.
    ok ("head:" <> (sha <> (":action:" <> action)))

abbrev pub single_identity : String → String → Fields → Result (List Identity)
single_identity event_name repository payload =
    object_at "pull_request" "pull_request" payload |>> λ pull_request.
    positive_at "number" "pull_request.number" pull_request |>> λ number.
    text_at "action" "action" payload |>> λ action.
    (if event_name == "pull_request_review"
      then review_identity action payload
      else head_identity action pull_request)
    |>> λ stable. ok (identity repository stable number ∷ [])

-- The identities of a check or a workflow run, one for each pull request that it is linked to
abbrev pub linked_identities : String → String → String → Fields → Result (List Identity)
linked_identities key prefix repository payload = object_at key key payload |>> λ check_run.
    positive_at "id" (key <> ".id") check_run |>> λ id.
    linked_pull_requests (key <> ".pull_requests") (get "pull_requests" check_run) |>> λ numbers.
    ok (
      map
        (λ number.
          identity repository (prefix <> (decimal id <> (":pr:" <> decimal number))) number)
        numbers)

-- `_event_identities`
unfoldable pub event_identities : String → Fields → Result (List Identity)
unfolding linked_pull_requests decimal
event_identities event_name payload = object_at "repository" "repository" payload |>> λ owner.
    text_at "full_name" "repository.full_name" owner |>> λ repository.
    if event_name == "pull_request" || event_name == "pull_request_review"
    then single_identity event_name repository payload
    else if event_name == "check_run"
    then linked_identities "check_run" "check:" repository payload
    else if event_name == "workflow_run"
    then linked_identities "workflow_run" "workflow-run:" repository payload
    else raised (value_error ("unsupported GitHub event: " <> event_name))

abbrev pub delivery_of : String → ℕ → String
delivery_of delivery_id number = "actions:" <> (delivery_id <> (":pr:" <> decimal number))

-- The loop of `main`, in which the n-th event is the n-th call; each event is stored on its own.
unfoldable pub ingest_identities :
    (ℕ → Call)
    → String
    → String
    → Fields
    → List Identity
    → Ingress
    → Result (List IngressEvent) × Ingress
unfolding decimal
ingest_identities calls event_name delivery_id payload [] rows = (ok [], rows)
ingest_identities calls event_name delivery_id payload (i ∷ is) rows =
    elim (ingest_github_pr_event (calls 0)
      (record {
        event_name = event_name;
        delivery_id = delivery_of delivery_id i.pull_request_number;
        repository = i.repository;
        pull_request_number = pos i.pull_request_number;
        payload = obj payload;
      })
      rows) [
        | raised e ↦ (raised e, rows)
        | ok (event, rows') ↦
            let (events, rows'') =
              ingest_identities (λ n. calls (suc n)) event_name delivery_id payload is rows' in
            (events |>> λ es. ok (event ∷ es), rows'')
      ]
