-- ===== src/Supervisor/Laws.antt =====
-- A proposal is taken over as it is, and grants nothing.
use personal_agent_runtime.Base.{
  String, false, ◌||◌, is_some, arith, Option, none, some, ◌==◌, string_eq, ◌≡◌, inl, inr, refl,
  sym, ap, Bool-cases,
}
use personal_agent_runtime.Json.{
  Json, null, bool, int, float, str, arr, obj, Items, nil, cons, Fields, end, field, get,
}
use mathlib.Core.Path.{subst}
use personal_agent_runtime.Json.Canonical.{insert_field, canonical, canonical_fields, are_finite}
use personal_agent_runtime.Store.{bind-ok, ok-injective, ok, Call}
use personal_agent_runtime.Ingress.{IngressEvent, Ingress, ingest_event, event_object}
use personal_agent_runtime.Ingress.Laws.{ingest_event-stores}
use personal_agent_runtime.Supervisor.{
  SupervisorIntent, no_action, wanted_action, grants, intent_action, identified, intent_fields,
  intent_kind, intent_payload, adapt_supervisor_intent, intent_event, submit_supervisor_intent,
  freeze, freeze_items, freeze_fields, thaw, thaw_items, thaw_fields,
}

-- A value that was frozen and thawed is as it was.
mutual
  unfolding freeze thaw

  pub thaw-freeze_value : (v : Json) → thaw (freeze v) ≡ v
  thaw-freeze_value null = refl
  thaw-freeze_value (bool b) = refl
  thaw-freeze_value (int n) = refl
  thaw-freeze_value (float x) = refl
  thaw-freeze_value (str s) = refl
  thaw-freeze_value (arr items) = ap arr (thaw_items-freeze items)
  thaw-freeze_value (obj d) = ap obj (thaw_fields-freeze d)

  thaw_items-freeze : (items : Items) → thaw_items (freeze_items items) ≡ items
  thaw_items-freeze nil = refl
  thaw_items-freeze (cons v rest) =
      rw (thaw-freeze_value v) (ap (λ r. cons v r) (thaw_items-freeze rest))

  thaw_fields-freeze : (d : Fields) → thaw_fields (freeze_fields d) ≡ d
  thaw_fields-freeze end = refl
  thaw_fields-freeze (field k v d) =
      rw (thaw-freeze_value v) (ap (λ r. field k v r) (thaw_fields-freeze d))

-- What a frozen value thaws to is the value, however deep its lists and dicts are.
pub thaw-freeze : (v : Json) → thaw (freeze v) ≡ v
thaw-freeze v = thaw-freeze_value v

no_action-grants : (v : Option Json) (a : Fields) → no_action v ≡ ok a → grants a ≡ false
unfolding get
no_action-grants none a e = rw (← ok-injective end a e) refl
no_action-grants (some null) a e = rw (← ok-injective end a e) refl
no_action-grants (some (obj end)) a e = rw (← ok-injective end a e) refl
no_action-grants (some (obj (field k v d))) a e = cc
no_action-grants (some (bool b)) a e = cc
no_action-grants (some (int n)) a e = cc
no_action-grants (some (float x)) a e = cc
no_action-grants (some (str s)) a e = cc
no_action-grants (some (arr items)) a e = cc

wanted_action-grants : (v : Option Json) (a : Fields) → wanted_action v ≡ ok a → grants a ≡ false
wanted_action-grants none a e = cc
wanted_action-grants (some null) a e = cc
wanted_action-grants (some (obj end)) a e = cc
wanted_action-grants (some (obj (field k v d))) a e = elim (Bool-cases (grants (field k v d))) [
  | inl g ↦ absurd (cc (rw g at e))
  | inr g ↦ subst (λ z. grants z ≡ false) (ok-injective (field k v d) a (rw g at e)) g
]
wanted_action-grants (some (bool b)) a e = cc
wanted_action-grants (some (int n)) a e = cc
wanted_action-grants (some (float x)) a e = cc
wanted_action-grants (some (str s)) a e = cc
wanted_action-grants (some (arr items)) a e = cc

intent_action-grants :
    (kind : String) (v : Option Json) (a : Fields) → intent_action kind v ≡ ok a → grants a ≡ false
intent_action-grants kind v a e = elim (Bool-cases (kind == "observe")) [
  | inl o ↦ no_action-grants v a (rw o at e)
  | inr o ↦ wanted_action-grants v a (rw o at e)
]

-- The parts of a proposal that was taken over
adapted :
    (supervisor_id : String) (intent : Json) (n : SupervisorIntent)
    → adapt_supervisor_intent supervisor_id intent ≡ ok n
    → (a : Fields) × (n.requested_action ≡ freeze (obj a)) × (grants a ≡ false)
unfolding adapt_supervisor_intent
adapted supervisor_id intent n e =
    let (_, _, e1) = bind-ok (identified supervisor_id) _ n e in
    let (d, _, e2) = bind-ok (intent_fields intent) _ n e1 in
    let (kind, _, e3) = bind-ok (intent_kind (get "kind" d)) _ n e2 in
    let (payload, _, e4) = bind-ok (intent_payload (get "payload" d)) _ n e3 in
    let (action, chosen, e5) = bind-ok (intent_action kind (get "requested_action" d)) _ n e4 in
    (
      action,
      ap (λ m. m.requested_action) (sym (ok-injective _ n e5)),
      intent_action-grants kind (get "requested_action" d) action chosen,
    )

event_object-fields :
    (a : Fields) (v : Json)
    → event_object "requested_action" (obj a) ≡ ok v
    → v ≡ obj (canonical_fields a)
unfolding event_object
event_object-fields a v e = elim (Bool-cases (are_finite a)) [
  | inl f ↦ sym (ok-injective _ v (rw f at e))
  | inr f ↦ absurd (cc (rw f at e))
]

-- The same keys stand in a dict once they are in order.
is_some-insert_field :
    (k j : String) (v : Json) (d : Fields)
    → is_some (get k (insert_field j v d)) ≡ ((j == k) || is_some (get k d))
unfolding get insert_field
is_some-insert_field k j v end = ground arith
is_some-insert_field k j v (field i w d) = ground (arith, is_some-insert_field k j v d)

is_some-canonical_fields :
    (k : String) (d : Fields) → is_some (get k (canonical_fields d)) ≡ is_some (get k d)
unfolding get canonical
is_some-canonical_fields k end = refl
is_some-canonical_fields k (field j v d) = ground (
  arith,
  is_some-insert_field k j (canonical v) (canonical_fields d),
  is_some-canonical_fields k d,
)

grants-canonical_fields : (a : Fields) → grants a ≡ false → grants (canonical_fields a) ≡ false
grants-canonical_fields a none_granted =
    rw
      (
        is_some-canonical_fields "authority" a,
        is_some-canonical_fields "credential" a,
        is_some-canonical_fields "credentials" a,
        is_some-canonical_fields "max_cost_usd" a,
      )
      none_granted

-- A proposal that was submitted is stored as an event of the interface with no authority, whose
-- requested action names no authority, credential or cost.
pub submit_supervisor_intent-grants :
    (c : Call) (supervisor_id key : String) (intent : Json) (rows rows' : Ingress)
    (e : IngressEvent)
    → submit_supervisor_intent c supervisor_id key intent rows ≡ ok (e, rows')
    → (e.source ≡ "api")
      × (e.authority ≡ obj end)
      × ((a : Fields) × (e.requested_action ≡ obj a) × (grants a ≡ false))
unfolding submit_supervisor_intent event_object
submit_supervisor_intent-grants c supervisor_id key intent rows rows' e h =
    let (n, took, stored) =
      bind-ok (adapt_supervisor_intent supervisor_id intent)
        (λ n. ingest_event c (intent_event key n) rows) (e, rows') h in
    let (a, action_is, none_granted) = adapted supervisor_id intent n took in
    let (source, _, action, authority) =
      ingest_event-stores c (intent_event key n) rows rows' e stored in
    let thawed : thaw n.requested_action ≡ obj a = rw action_is (thaw-freeze (obj a)) in
    let stored_action : event_object "requested_action" (obj a) ≡ ok e.requested_action =
      rw thawed at action in
    (
      source,
      sym (ok-injective _ e.authority authority),
      (
        canonical_fields a,
        event_object-fields a e.requested_action stored_action,
        grants-canonical_fields a none_granted,
      ),
    )
