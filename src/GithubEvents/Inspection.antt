-- ===== src/GithubEvents/Inspection.antt =====
-- What is ingested of an event from GitHub: a request for one inspection, which may be dispatched.
use mathlib.Core.Path.{subst}
use personal_agent_runtime.Base.{
  String, true, false, Option, none, some, List, [], ◌∷◌, string_eq, ◌≡◌, inl, inr, refl, ap, ◌∙◌,
  arith, Bool-cases,
}
use personal_agent_runtime.Base.Decimal.{split_slash}
use personal_agent_runtime.Base.Text.{strip, is_blank}
use personal_agent_runtime.Base.Text.Strip.{is_blank-strip}
use personal_agent_runtime.Json.{Json, null, bool, int, float, str, arr, obj, get}
use personal_agent_runtime.Json.Canonical.{canonical, is_finite}
use personal_agent_runtime.Store.{ok, bind-ok, ok-injective, Call}
use personal_agent_runtime.Ingress.{IngressEvent, Ingress, event_object}
use personal_agent_runtime.Ingress.Laws.{ingest_event-stores}
use personal_agent_runtime.Materialization.{required_string, task_request}
use personal_agent_runtime.GithubEvents.{
  PullRequestEvent, CheckedEvent, checked_repository, owner_and_name, positive, supported,
  event_payload, event_action, checked_event, github_event, inspection_request,
  ingest_github_pr_event,
}
use personal_agent_runtime.GithubEvents.Laws.{sorted_fields, canonical-inspection_request}
use personal_agent_runtime.GithubEvents.Dispatchable.{
  inspection, task_request-inspection, sorted_fields-dispatchable,
}
use personal_agent_runtime.Dispatcher.{not_dispatchable}

owner_and_name-same :
    (repo r : String) (parts : List String) → owner_and_name repo parts ≡ ok r → repo ≡ r
owner_and_name-same repo r (owner ∷ (name ∷ [])) h = ground (arith, h)
owner_and_name-same repo r [] h = cc
owner_and_name-same repo r (owner ∷ []) h = cc
owner_and_name-same repo r (owner ∷ (name ∷ (x ∷ rest))) h = cc

required_string-filled :
    (name s t : String) → required_string name (some (str s)) ≡ ok t → is_blank t ≡ false
required_string-filled name s t h = elim (Bool-cases (is_blank s)) [
  | inl e ↦ absurd (ground (arith, h, e))
  | inr e ↦ subst (λ x. is_blank x ≡ false) (ground (arith, h, e)) (is_blank-strip s ∙ e)
]

checked_repository-filled :
    (s repo : String) → checked_repository s ≡ ok repo → is_blank repo ≡ false
checked_repository-filled s repo h =
    let (r, e, h1) = bind-ok (required_string "repository" (some (str s))) _ repo h in
    subst (λ x. is_blank x ≡ false) (owner_and_name-same r repo (split_slash r) h1)
      (required_string-filled "repository" s r e)

event_action-finite :
    (o : Option Json) (a : Json) → event_action o ≡ ok a → is_finite (canonical a) ≡ true
unfolding canonical is_finite
event_action-finite none a h =
    subst (λ x. is_finite (canonical x) ≡ true) (ok-injective null a h) refl
event_action-finite (some null) a h =
    subst (λ x. is_finite (canonical x) ≡ true) (ok-injective null a h) refl
event_action-finite (some (str s)) a h = elim (Bool-cases (is_blank s)) [
  | inl e ↦ absurd (ground (arith, h, e))
  | inr e ↦
      subst (λ x. is_finite (canonical x) ≡ true)
        (ok-injective (str (strip s)) a (ground (arith, h, e))) refl
]
event_action-finite (some (bool _)) a h = cc
event_action-finite (some (int _)) a h = cc
event_action-finite (some (float _)) a h = cc
event_action-finite (some (arr _)) a h = cc
event_action-finite (some (obj _)) a h = cc

checked_event-filled :
    (g : PullRequestEvent) (e : CheckedEvent)
    → checked_event g ≡ ok e
    → (is_blank e.repository ≡ false) × (is_finite (canonical e.action) ≡ true)
unfolding checked_event
checked_event-filled g e h =
    let (name, _, h1) = bind-ok (required_string "event_name" (some (str g.event_name))) _ e h in
    let (event_name, _, h2) = bind-ok (supported name) _ e h1 in
    let (delivery_id, _, h3) =
      bind-ok (required_string "delivery_id" (some (str g.delivery_id))) _ e h2 in
    let (repository, r, h4) = bind-ok (checked_repository g.repository) _ e h3 in
    let (number, _, h5) = bind-ok (positive "pull_request_number" g.pull_request_number) _ e h4 in
    let (payload, _, h6) = bind-ok (event_payload g.payload) _ e h5 in
    let (action, a, h7) = bind-ok (event_action (get "action" payload)) _ e h6 in
    let is = ok-injective _ e h7 in
    (
      subst (λ x. is_blank x.repository ≡ false) is
          (checked_repository-filled g.repository repository r),
      subst (λ x. is_finite (canonical x.action) ≡ true) is
          (event_action-finite (get "action" payload) action a),
    )

stored_action :
    (e : CheckedEvent) (v : Json)
    → event_object "requested_action" (inspection_request e) ≡ ok v
    → v ≡ canonical (inspection_request e)
unfolding event_object inspection_request canonical
stored_action e v h = elim (Bool-cases (is_finite (inspection_request e))) [
  | inl f ↦ ground (arith, h, f)
  | inr f ↦ absurd (ground (arith, h, f))
]

-- Whatever GitHub says, an event about a pull request that is accepted asks for one read-only
-- inspection of that pull request, which the dispatcher may turn into a task.
pub ingest_github_pr_event-inspection :
    (c : Call) (g : PullRequestEvent) (rows rows' : Ingress) (event : IngressEvent)
    → ingest_github_pr_event c g rows ≡ ok (event, rows')
    → (e : CheckedEvent) × (checked_event g ≡ ok e)
      × (not_dispatchable event.requested_action ≡ none)
      × (task_request event ≡ ok (inspection e))
unfolding ingest_github_pr_event
ingest_github_pr_event-inspection c g rows rows' event h =
    let (e, checked, h1) = bind-ok (checked_event g) _ (event, rows') h in
    let (repo, finite) = checked_event-filled g e checked in
    let (_, _, action, _) = ingest_event-stores c (github_event e) rows rows' event h1 in
    let is : event.requested_action ≡ obj (sorted_fields e) =
      stored_action e event.requested_action action ∙ canonical-inspection_request e in
    (
      e,
      checked,
      ap not_dispatchable is ∙ sorted_fields-dispatchable e,
      task_request-inspection e event repo finite is,
    )
