-- ===== src/Supervisor.antt =====
-- Proposals of a supervisor: par/supervisor.py, and the reading of them in par/supervisor_adapter.py.
pub mod Laws
use personal_agent_runtime.Base.{
  ℕ, ◌*◌, String, ◌<>◌, Bool, true, false, Option, none, some, List, [], ◌∷◌, ◌==◌, string_eq,
  if◌then◌else◌, not, ◌&&◌, ◌||◌, ltb, is_some,
}
use personal_agent_runtime.Base.Text.{strip, is_empty}
use personal_agent_runtime.Json.{
  Float, Json, null, bool, int, float, str, arr, obj, Items, nil, cons, Fields, end, field, get,
}
use personal_agent_runtime.Store.{Error, value_error, type_error, Result, ok, raised, Call, ◌|>>◌}
use personal_agent_runtime.Ingress.{IngressEvent, Ingress, NewEvent, ingest_event}
use personal_agent_runtime.Capabilities.Names.{text_length}

-- A detached value that nobody can change: mapping proxies and tuples
mutual
  pub data Frozen : Type 0 where
    -- null, a truth value, a number or a text
    leaf : Json → Frozen
    tuple : FrozenItems → Frozen
    mapping_proxy : FrozenFields → Frozen

  pub data FrozenItems : Type 0 where
    no_items : FrozenItems
    item : Frozen → FrozenItems → FrozenItems

  pub data FrozenFields : Type 0 where
    no_fields : FrozenFields
    entry : String → Frozen → FrozenFields → FrozenFields

-- `_freeze`
unfoldable mutual
  pub freeze : Json → Frozen
  freeze (arr items) = tuple (freeze_items items)
  freeze (obj d) = mapping_proxy (freeze_fields d)
  freeze null = leaf null
  freeze (bool b) = leaf (bool b)
  freeze (int n) = leaf (int n)
  freeze (float x) = leaf (float x)
  freeze (str s) = leaf (str s)

  pub freeze_items : Items → FrozenItems
  freeze_items nil = no_items
  freeze_items (cons v rest) = item (freeze v) (freeze_items rest)

  pub freeze_fields : Fields → FrozenFields
  freeze_fields end = no_fields
  freeze_fields (field k v d) = entry k (freeze v) (freeze_fields d)

-- `_thaw`
unfoldable mutual
  pub thaw : Frozen → Json
  thaw (leaf v) = v
  thaw (tuple items) = arr (thaw_items items)
  thaw (mapping_proxy d) = obj (thaw_fields d)

  pub thaw_items : FrozenItems → Items
  thaw_items no_items = nil
  thaw_items (item v rest) = cons (thaw v) (thaw_items rest)

  pub thaw_fields : FrozenFields → Fields
  thaw_fields no_fields = end
  thaw_fields (entry k v d) = field k (thaw v) (thaw_fields d)

pub record SupervisorIntent : Type 0 where
  pub kind : String
  pub payload : Frozen
  pub requested_action : Frozen

-- `intent.get("payload", {})`, a dict
abbrev pub intent_payload : Option Json → Result Fields
intent_payload none = ok end
intent_payload (some (obj d)) = ok d
intent_payload (some _) = raised (value_error "intent payload must be an object")

abbrev pub no_action : Option Json → Result Fields
no_action none = ok end
no_action (some null) = ok end
no_action (some (obj end)) = ok end
no_action (some _) = raised (value_error "observe intent cannot request an action")

-- The keys that a proposal may not have
abbrev pub grants : Fields → Bool
grants d =
    is_some (get "authority" d)
    || (is_some (get "credential" d)
        || (is_some (get "credentials" d) || is_some (get "max_cost_usd" d)))

abbrev pub wanted_action : Option Json → Result Fields
wanted_action (some (obj (field k v d))) =
    if grants (field k v d)
    then raised (value_error "supervisor intent cannot grant authority, credentials, or cost")
    else ok (field k v d)
wanted_action _ = raised (value_error "request_action intent requires requested_action")

-- The kind, if it is one of SUPPORTED_INTENTS; a list or a dict cannot be looked up in that set.
abbrev pub intent_kind : Option Json → Result String
intent_kind (some (str s)) =
    if s == "observe" || s == "request_action"
    then ok s
    else raised (value_error "unsupported supervisor intent")
intent_kind (some (arr _)) = raised type_error
intent_kind (some (obj _)) = raised type_error
intent_kind _ = raised (value_error "unsupported supervisor intent")

abbrev pub intent_action : String → Option Json → Result Fields
intent_action kind action = if kind == "observe" then no_action action else wanted_action action

abbrev pub identified : String → Result (Unit {0})
identified supervisor_id =
    if is_empty (strip supervisor_id)
    then raised (value_error "supervisor_id must be non-empty")
    else ok tt

abbrev pub intent_fields : Json → Result Fields
intent_fields (obj d) = ok d
intent_fields _ = raised (value_error "intent must be an object")

unfoldable pub adapt_supervisor_intent : String → Json → Result SupervisorIntent
unfolding freeze
adapt_supervisor_intent supervisor_id intent = identified supervisor_id |>> λ _.
    intent_fields intent |>> λ d. intent_kind (get "kind" d) |>> λ kind.
    intent_payload (get "payload" d) |>> λ payload.
    intent_action kind (get "requested_action" d) |>> λ action.
    ok (record {
      kind = kind;
      payload = freeze (obj payload);
      requested_action = freeze (obj action);
    })

-- The event that a proposal becomes: it comes from the interface, with no authority.
abbrev pub intent_event : String → SupervisorIntent → NewEvent
intent_event idempotency_key normalized = record {
  idempotency_key = idempotency_key;
  source = "api";
  kind = "supervisor." <> normalized.kind;
  payload = thaw normalized.payload;
  requested_action = thaw normalized.requested_action;
  authority = obj end;
}

unfoldable pub submit_supervisor_intent :
    Call → String → String → Json → Ingress → Result (IngressEvent × Ingress)
unfolding adapt_supervisor_intent thaw
submit_supervisor_intent c supervisor_id idempotency_key intent rows =
    adapt_supervisor_intent supervisor_id intent |>> λ normalized.
    ingest_event c (intent_event idempotency_key normalized) rows

-- `MAX_PROPOSAL_CHARS`
abbrev pub max_proposal_chars : ℕ
max_proposal_chars = 64 * 1024

abbrev pub proposal_object : Option Json → Result Json
proposal_object (some (obj d)) = ok (obj d)
proposal_object (some _) = raised (value_error "supervisor proposal must be a JSON object")
proposal_object none = raised (value_error "not a JSON text")

-- `_read_proposal` of par/supervisor_adapter.py, where `loads` is what `json.loads` makes of a text
unfoldable pub read_proposal : (String → Option Json) → String → Result Json
read_proposal loads raw =
    if ltb max_proposal_chars (text_length raw)
    then raised (value_error "supervisor proposal exceeds maximum size")
    else proposal_object (loads raw)
