-- ===== src/Ingress.antt =====
-- Ingress events: par/ingress.py. Their table stands alone, and the dispatcher moves their status.
pub mod Laws
use personal_agent_runtime.Base.{
  ℕ, ℤ, pos, negsuc, String, ◌<>◌, Bool, true, false, Option, none, some, List, [], ◌∷◌, ◌++◌, ◌==◌,
  string_eq, if◌then◌else◌, not, ◌&&◌, ◌||◌, Eq, ltb, leb, contains, take,
}
use personal_agent_runtime.Base.Text.{strip, is_empty}
use personal_agent_runtime.Base.Table.{select, find, count}
use personal_agent_runtime.Base.Table.Order.{by_time_and_id}
use personal_agent_runtime.Json.{Json, null, obj, Fields, end}
use personal_agent_runtime.Json.Canonical.{
  json_eq, canonical, canonical_fields, is_finite, are_finite,
}
use personal_agent_runtime.Store.{
  ◌|>>◌, checked_limit, Error, value_error, runtime_error, Result, ok, raised, Call,
}

-- The status of an event: what ingest_event writes, and what the dispatcher makes of it
pub data IngressStatus : Type 0 where
  received materialized blocked_auto_dispatch invalid_auto_dispatch : IngressStatus

IngressStatus-discrete : Discrete IngressStatus
IngressStatus-discrete = hlevel

instance unfoldable pub ingress_status_eq : Eq IngressStatus
unfolding IngressStatus-discrete
ingress_status_eq = record { dec = IngressStatus-discrete }

-- A row of `ingress_events`; a JSON column holds the value that it encodes.
pub record IngressEvent : Type 0 where
  pub id : String
  pub idempotency_key : String
  pub source : String
  pub kind : String
  pub payload : Json
  pub requested_action : Json
  pub authority : Json
  pub status : IngressStatus
  pub created_at : ℕ
  pub updated_at : ℕ

abbrev pub Ingress : Type 0
Ingress = List IngressEvent

abbrev pub source_values : List String
source_values = "schedule" ∷ "human" ∷ "api" ∷ "webhook" ∷ []

-- The arguments of `ingest_event`; what is not given is `null`.
pub record NewEvent : Type 0 where
  pub idempotency_key : String
  pub source : String
  pub kind : String
  pub payload : Json
  pub requested_action : Json
  pub authority : Json

-- `_object`, with `_validate_json_value`, and the text that `json.dumps` makes of it
unfoldable pub event_object : String → Json → Result Json
unfolding canonical is_finite
event_object name null = ok (obj end)
event_object name (obj d) =
    if are_finite d
    then ok (obj (canonical_fields d))
    else raised (value_error (name <> " must contain only finite JSON numbers"))
event_object name _ = raised (value_error (name <> " must be a JSON object"))

abbrev pub non_empty : String → String → Result String
non_empty name value =
    if is_empty (strip value)
    then raised (value_error (name <> " must be non-empty"))
    else ok (strip value)

abbrev pub checked_source : String → Result String
checked_source source =
    if contains source_values source
    then ok source
    else raised (value_error ("invalid ingress source: " <> source))

abbrev pub checked_event : NewEvent → Result NewEvent
checked_event q = non_empty "idempotency_key" q.idempotency_key |>> λ key.
    checked_source q.source |>> λ source. non_empty "kind" q.kind |>> λ kind.
    event_object "payload" q.payload |>> λ payload.
    event_object "requested_action" q.requested_action |>> λ action.
    event_object "authority" q.authority |>> λ authority. ok (record {
      idempotency_key = key;
      source = source;
      kind = kind;
      payload = payload;
      requested_action = action;
      authority = authority;
    })

abbrev pub new_event : Call → NewEvent → IngressEvent
new_event c q = record {
  id = c.uuid 0;
  idempotency_key = q.idempotency_key;
  source = q.source;
  kind = q.kind;
  payload = q.payload;
  requested_action = q.requested_action;
  authority = q.authority;
  status = received;
  created_at = c.now;
  updated_at = c.now;
}

-- `actual == expected`
abbrev pub is_same_event : NewEvent → IngressEvent → Bool
is_same_event q e =
    e.source == q.source
    && (e.kind == q.kind
        && (e.payload == q.payload
            && (e.requested_action == q.requested_action && e.authority == q.authority)))

abbrev pub has_event_id : String → IngressEvent → Bool
has_event_id id e = e.id == id

abbrev pub has_event_key : String → IngressEvent → Bool
has_event_key key e = e.idempotency_key == key

-- An insert that was ignored for a row with the same key
abbrev pub replayed_event :
    NewEvent → Ingress → Option IngressEvent → Result (IngressEvent × Ingress)
replayed_event q rows none =
    raised (runtime_error "idempotent ingress insert was ignored without an existing event")
replayed_event q rows (some e) =
    if is_same_event q e
    then ok (e, rows)
    else raised (value_error "idempotency_key was reused with a different ingress event")

-- `INSERT OR IGNORE` and what follows it
unfoldable pub insert_ingress : Call → NewEvent → Ingress → Result (IngressEvent × Ingress)
insert_ingress c q rows =
    if leb (count (λ e. has_event_id (c.uuid 0) e || has_event_key q.idempotency_key e) rows) 0
    then ok (new_event c q, rows ++ new_event c q ∷ [])
    else replayed_event q rows (find (has_event_key q.idempotency_key) rows)

unfoldable pub ingest_event : Call → NewEvent → Ingress → Result (IngressEvent × Ingress)
unfolding insert_ingress
ingest_event c q rows = checked_event q |>> λ checked. insert_ingress c checked rows

unfoldable pub get_event : String → Ingress → Option IngressEvent
get_event event_id rows = find (has_event_id event_id) rows

abbrev pub listed_source : Option String → Result (Option String)
listed_source none = ok none
listed_source (some s) = checked_source s |>> λ source. ok (some source)

-- One clause of the WHERE, where its argument is given
abbrev pub meets : Option String → String → Bool
meets none value = true
meets (some wanted) value = value == wanted

unfoldable pub list_events : Option String → Option String → ℤ → Ingress → Result Ingress
unfolding by_time_and_id
list_events source kind limit rows = listed_source source |>> λ wanted. checked_limit limit |>> λ n.
    ok (
      take n (
        by_time_and_id (λ e. e.created_at) (λ e. e.id)
          (select (λ e. meets wanted e.source && meets kind e.kind) rows)))
