-- ===== src/Dispatcher/Authority.antt =====
-- A dispatch makes tasks of read-only requests only, and no approval plays a part in it.
use mathlib.Core.Path.{subst}
use mathlib.Core.Option.{some-injective}
use personal_agent_runtime.Base.{
  String, Bool, true, false, Option, none, some, ◌==◌, string_eq, ◌≡◌, inl, inr, refl, sym, ap, ◌∙◌,
  arith, Bool-cases, Option-cases, is_some, is_one,
}
use personal_agent_runtime.Base.Text.{strip, is_blank}
use personal_agent_runtime.Base.Table.{count}
use personal_agent_runtime.Json.{
  Json, null, bool, int, float, str, arr, obj, Fields, get, is_str_at,
}
use personal_agent_runtime.Store.{Task, Result, ok, raised, Call, bind-ok, ok-injective}
use personal_agent_runtime.Tasks.{task_by_key}
use personal_agent_runtime.Approvals.{Approval}
use personal_agent_runtime.Ingress.{received, ingress_status_eq, IngressEvent, get_event}
use personal_agent_runtime.Materialization.{
  Runtime, TaskRequest, required_string, requested_repo, optional_object, requested_capabilities,
  requested_priority, TaskContract, parsed_task_contract, parsed_rest, parsed_request,
  typed_request, checked_contract, task_request,
}
use personal_agent_runtime.Materialization.Authority.{
  Authority, Stored, checked_contract-same, materialize_ingress_event-Authority,
}
use personal_agent_runtime.Materialization.Create.{
  Materialization, approval_required, materialized, event_task_key, materialize_ingress_event,
}
use personal_agent_runtime.Dispatcher.{
  settled_task, is_received, dispatched, is_caught, not_dispatchable, task_exists,
  after_materialization, dispatch_received, dispatch_event,
}

parsed_rest-mode :
    (d : Fields) (action goal mode : String) (contract : TaskContract) (q : TaskRequest)
    → parsed_rest d action goal mode contract ≡ ok q
    → mode ≡ q.mode
unfolding parsed_rest
parsed_rest-mode d action goal mode contract q h =
    let (_, _, h1) = bind-ok (requested_repo (get "repo" d)) _ q h in
    let (_, _, h2) = bind-ok (optional_object "requested_action.scope" (get "scope" d)) _ q h1 in
    let (_, _, h3) =
      bind-ok (optional_object "requested_action.context" (get "context" d)) _ q h2 in
    let (_, _, h4) = bind-ok (requested_capabilities (get "required_capabilities" d)) _ q h3 in
    let (_, _, h5) = bind-ok (requested_priority (get "priority" d)) _ q h4 in
    ap (λ r. r.mode) (ok-injective _ q h5)

parsed_request-mode :
    (d : Fields) (q : TaskRequest)
    → parsed_request d ≡ ok q
    → required_string "requested_action.mode" (get "mode" d) ≡ ok q.mode
unfolding parsed_request
parsed_request-mode d q h =
    let (action, _, h1) =
      bind-ok (required_string "requested_action.action" (get "action" d)) _ q h in
    let (goal, _, h2) = bind-ok (required_string "requested_action.goal" (get "goal" d)) _ q h1 in
    let (mode, is_mode, h3) =
      bind-ok (required_string "requested_action.mode" (get "mode" d)) _ q h2 in
    let (contract, _, h4) =
      bind-ok (parsed_task_contract d) (λ x. parsed_rest d action goal mode x) q h3 in
    is_mode ∙ ap ok (parsed_rest-mode d action goal mode contract q h4)

required_read_only :
    (d : Fields) (name mode : String)
    → is_str_at "mode" "read-only" d ≡ true
    → required_string name (get "mode" d) ≡ ok mode
    → mode ≡ "read-only"
unfolding is_str_at is_blank strip
required_read_only d name mode h r = read (get "mode" d) h r
  where
    read :
        (o : Option Json)
        → elim o [ some (str s) ↦ s == "read-only" | _ ↦ false ] ≡ true
        → required_string name o ≡ ok mode
        → mode ≡ "read-only"
    read (some (str s)) h r = elim (string_eq.dec s "read-only") [
      | yes p ↦
          ok-injective mode "read-only" (sym r ∙ ap (λ x. required_string name (some (str x))) p)
      | no n ↦ absurd (ground (arith, h, n))
    ]
    read none h r = cc
    read (some null) h r = cc
    read (some (bool _)) h r = cc
    read (some (int _)) h r = cc
    read (some (float _)) h r = cc
    read (some (arr _)) h r = cc
    read (some (obj _)) h r = cc

-- A request that may be dispatched is read-only, once it is read.
pub not_dispatchable-none :
    (event : IngressEvent) (q : TaskRequest)
    → not_dispatchable event.requested_action ≡ none
    → task_request event ≡ ok q
    → q.mode ≡ "read-only"
unfolding task_request optional_object not_dispatchable
not_dispatchable-none event q free h =
    let (d, is_d, h1) =
      bind-ok (optional_object "requested_action" (some event.requested_action)) _ q h in
    let (typed, is_typed, h2) = bind-ok (typed_request d) _ q h1 in
    let (p, parsed, h3) = bind-ok (parsed_request typed) (λ x. checked_contract x) q h2 in
    let same : q ≡ p = checked_contract-same p q h3 in
    let typed_is : typed ≡ d = ground (arith, is_typed) in
    let read : is_str_at "mode" "read-only" d ≡ true =
      object_mode event.requested_action d free is_d in
    ap (λ r. r.mode) same
    ∙ required_read_only d "requested_action.mode" p.mode read (
        ap (λ x. required_string "requested_action.mode" (get "mode" x)) (sym typed_is)
        ∙ parsed_request-mode typed p parsed)
  where
    object_mode :
        (v : Json) (d : Fields)
        → not_dispatchable v ≡ none
        → optional_object "requested_action" (some v) ≡ ok d
        → is_str_at "mode" "read-only" d ≡ true
    object_mode (obj d') d free e = ground (arith, free, e)
    object_mode null d free e = cc
    object_mode (bool _) d free e = cc
    object_mode (int _) d free e = cc
    object_mode (float _) d free e = cc
    object_mode (str _) d free e = cc
    object_mode (arr _) d free e = cc

-- A new task: its key was free, and it is stored for a read-only request without an approval.
abbrev pub Dispatches : Call → IngressEvent → Runtime → String → Runtime → Type 0
Dispatches c event rt task_id rt' =
    (q : TaskRequest) × (task_request event ≡ ok q)
    × ((task : Task) × (task.id ≡ task_id)
        × (Authority rt.approvals event.id q none × Stored c event q none rt none task rt'))

after_materialization-dispatched :
    (c : Call) (event_id : String) (existed : Bool) (r : Result Materialization × Runtime)
    (task_id : String) (rt' : Runtime)
    → after_materialization c event_id existed r ≡ (ok (dispatched task_id), rt')
    → (approval : Option String) × (task : Task) × (existed ≡ false)
      × (task.id ≡ task_id)
      × (r.0 ≡ ok (materialized approval task))
      × (rt'.db ≡ r.1.db)
unfolding after_materialization
after_materialization-dispatched c event_id existed (raised e, rt1) task_id rt' h =
    elim (Bool-cases (is_caught e)) [
      | inl caught ↦ absurd (ground (arith, h, caught))
      | inr other ↦ absurd (ground (arith, h, other))
    ]
after_materialization-dispatched c event_id existed (ok (approval_required _ _), rt1) task_id rt'
      h =
    cc
after_materialization-dispatched c event_id existed (ok (materialized approval task), rt1) task_id
      rt' h =
    let (new, id) =
      settled_task-dispatched existed (is_one (count (is_received event_id) rt1.ingress)) task.id
        task_id (ok-injective _ (dispatched task_id) (ap (λ x. x.0) h)) in
    (approval, task, new, id, refl, sym (ap (λ x. x.1.db) h))
  where
    settled_task-dispatched :
        (existed transitioned : Bool) (id task_id : String)
        → settled_task existed transitioned id ≡ dispatched task_id
        → (existed ≡ false) × (id ≡ task_id)
    settled_task-dispatched true transitioned id task_id e = cc
    settled_task-dispatched false true id task_id e = (refl, cc)
    settled_task-dispatched false false id task_id e = cc

read_only-Dispatches :
    (c : Call) (event : IngressEvent) (q : TaskRequest) (a : Option Approval) (rt rt1 rt' : Runtime)
    (approval : Option String) (task : Task) (task_id : String)
    → q.mode ≡ "read-only"
    → Authority rt.approvals event.id q a
    → Stored c event q a rt approval task rt1
    → task_request event ≡ ok q
    → task.id ≡ task_id
    → rt'.db ≡ rt1.db
    → Dispatches c event rt task_id rt'
read_only-Dispatches c event q (some a) rt rt1 rt' approval task task_id mode authority stored is_q
      id db =
    absurd (authority.0 mode)
read_only-Dispatches c event q none rt rt1 rt' approval task task_id mode authority
      (_, created, job) is_q id db =
    (q, is_q, (task, id, (authority, (refl, created ∙ ap (λ x. ok (task, x)) (sym db), job))))

is_some-none : {A : Type 0} (o : Option A) → is_some o ≡ false → o ≡ none
is_some-none none e = refl
is_some-none (some a) e = cc

task_exists-false :
    (event_id : String) (rt : Runtime)
    → task_exists event_id rt ≡ false
    → is_some (task_by_key (event_task_key event_id) rt.db) ≡ false
unfolding task_exists
task_exists-false event_id rt e = e

dispatch_received-Dispatches :
    (c : Call) (event : IngressEvent) (event_id task_id : String) (rt rt' : Runtime)
    → get_event event_id rt.ingress ≡ some event
    → dispatch_received c event event_id rt ≡ (ok (dispatched task_id), rt')
    → (task_exists event_id rt ≡ false) × Dispatches c event rt task_id rt'
unfolding dispatch_received
dispatch_received-Dispatches c event event_id task_id rt rt' here h =
    elim (Option-cases (not_dispatchable event.requested_action)) [
      | inr (reason, e) ↦ absurd (ground (arith, h, e))
      | inl e ↦
          let r = materialize_ingress_event c event_id rt in
          let (approval, task, new, id, made, db) =
            after_materialization-dispatched c event_id (task_exists event_id rt) r task_id rt'
              (ground (arith, h, e)) in
          let (event', here', (q, is_q, (a, authority, stored))) =
            materialize_ingress_event-Authority c event_id rt r.1 approval task
              (ap (λ x. (x, r.1)) made) in
          let event_is : event' ≡ event = some-injective event' event (sym here' ∙ here) in
          let mode =
            not_dispatchable-none event' q
              (ap (λ x. not_dispatchable x.requested_action) event_is ∙ e) is_q in
          (
            new,
            subst (λ x. Dispatches c x rt task_id rt') event_is
                (read_only-Dispatches c event' q a rt r.1 rt' approval task task_id mode authority
                  stored is_q id db),
          )
    ]

-- A dispatch that says that it made a task was of a stored and still received event whose key was
-- free. Its request is in the read-only mode, with an action on the list, the capabilities of that
-- action and a low risk; no approval was used; and the task says what the request says.
pub dispatch_event-Dispatches :
    (c : Call) (event_id task_id : String) (rt rt' : Runtime)
    → dispatch_event c event_id rt ≡ (ok (dispatched task_id), rt')
    → (event : IngressEvent) × (get_event event_id rt.ingress ≡ some event)
      × (event.status ≡ received)
      × (task_by_key (event_task_key event_id) rt.db ≡ none)
      × Dispatches c event rt task_id rt'
unfolding dispatch_event
dispatch_event-Dispatches c event_id task_id rt rt' h =
    elim (Option-cases (get_event event_id rt.ingress)) [
      | inl n ↦ absurd (ground (arith, h, n))
      | inr (event, here) ↦ elim (ingress_status_eq.dec event.status received) [
        | no other ↦ absurd (ground (arith, h, here, other))
        | yes pending ↦
            let (new, made) =
              dispatch_received-Dispatches c event event_id task_id rt rt' here
                (ground (arith, h, here, pending)) in
            (
              event,
              here,
              pending,
              is_some-none (task_by_key (event_task_key event_id) rt.db)
                  (task_exists-false event_id rt new),
              made,
            )
      ]
    ]
