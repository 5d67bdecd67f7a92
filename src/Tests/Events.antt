-- ===== src/Tests/Events.antt =====
-- Events and the tasks that they become, at concrete data.
use personal_agent_runtime.Base.{pos, none, [], ◌∷◌, ◌≡◌, refl, string_eq, option_eq}
use personal_agent_runtime.Base.Int.{int_eq}
use personal_agent_runtime.Base.Table.{count}
use personal_agent_runtime.Base.Decimal.{split_slash}
use personal_agent_runtime.Base.Text.{strip, is_blank}
use personal_agent_runtime.Json.{null, str, obj, end, object, fields, get}
use personal_agent_runtime.Json.Canonical.{json_eq, canonical, is_finite}
use personal_agent_runtime.Store.{ok}
use personal_agent_runtime.Ingress.{
  blocked_auto_dispatch, IngressEvent, NewEvent, new_event, event_object, insert_ingress,
  ingest_event,
}
use personal_agent_runtime.Ingress.Laws.{
  ingest, move, History, run_events, SameEvent, ingest_event-idempotent,
}
use personal_agent_runtime.Materialization.{task_request}
use personal_agent_runtime.GithubEvents.{
  PullRequestEvent, CheckedEvent, github_event, inspection_request, ingest_github_pr_event,
}
use personal_agent_runtime.GithubEvents.Laws.{sorted_fields}
use personal_agent_runtime.GithubEvents.Dispatchable.{inspection}
use personal_agent_runtime.GithubEvents.Inspection.{ingest_github_pr_event-inspection}
use personal_agent_runtime.Dispatcher.{not_dispatchable}
use personal_agent_runtime.Tests.Data.{at}

abbrev ping : NewEvent
ping = record {
  idempotency_key = "k";
  source = "human";
  kind = "ping";
  payload = null;
  requested_action = null;
  authority = null;
}

abbrev stored_ping : IngressEvent
stored_ping =
    new_event (at "a" 5)
      (record ping { payload = obj end; requested_action = obj end; authority = obj end })

abbrev event_calls : History
event_calls =
    (at "b" 6, move "a-0" blocked_auto_dispatch)
    ∷ (at "c" 7, ingest (record ping { kind = "pong" }))
    ∷ (at "d" 8, ingest (record ping { idempotency_key = "k2" }))
    ∷ []

ingest_event-idempotent_example :
    (e : IngressEvent) × (ingest_event (at "z" 9) ping (run_events event_calls (stored_ping ∷ []))
      ≡ ok (e, run_events event_calls (stored_ping ∷ [])))
    × SameEvent stored_ping e
unfolding ingest_event insert_ingress event_object strip string_eq count
ingest_event-idempotent_example =
    ingest_event-idempotent (at "a" 5) (at "z" 9) ping event_calls [] (stored_ping ∷ []) stored_ping
      refl

abbrev pub pull_request : PullRequestEvent
pull_request = record {
  event_name = "pull_request";
  delivery_id = " d1 ";
  repository = "o/r";
  pull_request_number = pos 7;
  payload = object (("action", str "opened") ∷ []);
}

abbrev pub checked_pull_request : CheckedEvent
checked_pull_request = record {
  event_name = "pull_request";
  delivery_id = "d1";
  repository = "o/r";
  pull_request_number = 7;
  payload = fields (("action", str "opened") ∷ []);
  action = str "opened";
}

abbrev pub inspection_event : IngressEvent
inspection_event = new_event (at "a" 5) (record (github_event checked_pull_request) {
  payload = canonical (github_event checked_pull_request).payload;
  requested_action = obj (sorted_fields checked_pull_request);
  authority = canonical (github_event checked_pull_request).authority;
})

ingest_github_pr_event-inspection_example :
    (e : CheckedEvent) × (personal_agent_runtime.GithubEvents.checked_event pull_request ≡ ok e)
    × (not_dispatchable inspection_event.requested_action ≡ none)
    × (task_request inspection_event ≡ ok (inspection e))
unfolding ingest_github_pr_event ingest_event insert_ingress event_object strip string_eq count
    split_slash get canonical is_finite inspection_request sorted_fields is_blank
ingest_github_pr_event-inspection_example =
    ingest_github_pr_event-inspection (at "a" 5) pull_request [] (inspection_event ∷ [])
      inspection_event refl
