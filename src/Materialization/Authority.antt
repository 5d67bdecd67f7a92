-- ===== src/Materialization/Authority.antt =====
-- A task is made of an event only with authority for it: that of its kind, or an approval's.
use mathlib.Core.List.{Memᴰ}
use mathlib.Core.Path.{subst}
use personal_agent_runtime.Base.{
  String, true, Option, none, some, List, [], ◌∷◌, string_eq, ◌≡◌, ◌≢◌, inl, inr, refl, sym, ap,
  ◌∙◌, arith, Option-cases, All,
}
use personal_agent_runtime.Base.Table.{select}
use personal_agent_runtime.Base.Table.Sorted.{All-map_of, All-selected}
use personal_agent_runtime.Base.Table.Order.{by_time_and_id, All-by_time_and_id}
use personal_agent_runtime.Json.{Json, obj}
use personal_agent_runtime.Json.Canonical.{json_eq, canonical}
use personal_agent_runtime.Store.{bind-ok, Task, ok, Call}
use personal_agent_runtime.Tasks.{create_task}
use personal_agent_runtime.Tasks.Effects.{Result-cases}
use personal_agent_runtime.Approvals.{Approval, Approvals, approved, approval_status_eq}
use personal_agent_runtime.Ingress.{IngressEvent, get_event}
use personal_agent_runtime.Materialization.{
  Runtime, canonical_json, TaskRequest, task_request, is_low_risk, same_set,
  read_only_action_capabilities, checked_contract, checked_read_only, optional_object,
  typed_request, parsed_request,
}
use personal_agent_runtime.Materialization.Create.{
  is_approval_of, first_in_scope, matching_approval, materialized, approval_id, task_context,
  new_event_task, assert_existing_task_matches, store_event_task, materialize_request,
  materialize_ingress_event,
}

All-members : {A : Type 0} (xs : List A) → All (λ x. Memᴰ x xs) xs
All-members [] = tt
All-members (x ∷ xs) = (Memᴰ.head refl, All-map_of xs (λ y m. Memᴰ.tail m) (All-members xs))

-- An approval in the table that says yes to the action of the request, about the event and in its scope
abbrev pub Approves : Approval → Approvals → String → TaskRequest → Type 0
Approves a rows event_id q =
    Memᴰ a rows
    × (a.status ≡ approved)
    × (a.subject_type ≡ "ingress_event")
    × (a.subject_id ≡ event_id)
    × (a.action ≡ q.action)
    × (canonical a.scope ≡ canonical (obj q.scope))

first_in_scope-some :
    (P : Approval → Type 0) (expected : Json) (rows : Approvals) (a : Approval)
    → All P rows
    → first_in_scope expected rows ≡ ok (some a)
    → P a × (canonical_json a.scope ≡ ok expected)
unfolding first_in_scope
first_in_scope-some P expected [] a h e = absurd (ground (arith, e))
first_in_scope-some P expected (b ∷ rest) a h e = elim (Result-cases (canonical_json b.scope)) [
  | inl (scope, s) ↦ elim (json_eq.dec scope expected) [
    | yes p ↦
        let same : b ≡ a = ground (arith, e, s, p) in
        (subst P same h.0, subst (λ x. canonical_json x.scope ≡ ok expected) same (s ∙ ap ok p))
    | no n ↦ first_in_scope-some P expected rest a h.1 (ground (arith, e, s, n))
  ]
  | inr (x, s) ↦ absurd (ground (arith, e, s))
]

canonical_json-ok : (v w : Json) → canonical_json v ≡ ok w → canonical v ≡ w
unfolding canonical_json
canonical_json-ok v w e = ground (arith, e)

is_approval_of-true :
    (event_id action : String) (a : Approval)
    → is_approval_of event_id action a ≡ true
    → (a.status ≡ approved)
      × (a.subject_type ≡ "ingress_event")
      × (a.subject_id ≡ event_id)
      × (a.action ≡ action)
unfolding is_approval_of
is_approval_of-true event_id action a e = ground (arith, e)

matching_approval-Approves :
    (event_id : String) (q : TaskRequest) (rows : Approvals) (a : Approval)
    → matching_approval event_id q rows ≡ ok (some a)
    → Approves a rows event_id q
unfolding matching_approval
matching_approval-Approves event_id q rows a e =
    let is_it = is_approval_of event_id q.action in
    let (expected, s, first) = bind-ok (canonical_json (obj q.scope)) _ (some a) e in
    let selected : All (λ x. Memᴰ x rows × (is_it x ≡ true)) (select is_it rows) =
      All-selected (λ x. Memᴰ x rows) is_it rows (All-members rows) in
    let ((here, test), same) =
      first_in_scope-some (λ x. Memᴰ x rows × (is_it x ≡ true)) expected
        (by_time_and_id (λ x. x.created_at) (λ x. x.id) (select is_it rows)) a
        (All-by_time_and_id (λ x. x.created_at) (λ x. x.id) (λ x. Memᴰ x rows × (is_it x ≡ true))
          (select is_it rows) selected)
        first in
    let (st, ty, id, ac) = is_approval_of-true event_id q.action a test in
    (
      here,
      st,
      ty,
      id,
      ac,
      canonical_json-ok a.scope expected same ∙ sym (canonical_json-ok (obj q.scope) expected s),
    )

-- What lets a request become a task: for the read-only mode the contract of its action, and an
-- approval for any other
abbrev pub Authority : Approvals → String → TaskRequest → Option Approval → Type 0
Authority rows event_id q none =
    (q.mode ≡ "read-only")
    × ((allowed : List String) × (read_only_action_capabilities q.action ≡ some allowed)
        × (same_set q.required_capabilities allowed ≡ true))
    × (is_low_risk q.task_contract.risk_permission_tier ≡ true)
Authority rows event_id q (some a) = (q.mode ≢ "read-only") × Approves a rows event_id q

-- The task is about what the request asks for.
abbrev pub IsTaskOf : Task → IngressEvent → TaskRequest → Option Approval → Type 0
IsTaskOf task event q approval =
    (task.goal ≡ q.goal)
    × (task.repo ≡ q.repo)
    × (task.mode ≡ q.mode)
    × (task.priority ≡ q.priority)
    × (canonical task.context ≡ canonical (obj (task_context event q approval)))

checked_read_only-ok :
    (q r : TaskRequest) (allowed : Option (List String)) (rows : Approvals) (id : String)
    → read_only_action_capabilities q.action ≡ allowed
    → q.mode ≡ "read-only"
    → checked_read_only q allowed ≡ ok r
    → Authority rows id q none
checked_read_only-ok q r none rows id e mode h = cc
checked_read_only-ok q r (some allowed) rows id e mode h =
    (mode, (allowed, e, ground (arith, h)), ground (arith, h))

pub checked_contract-same : (q r : TaskRequest) → checked_contract q ≡ ok r → r ≡ q
unfolding checked_contract
checked_contract-same q r h = elim (string_eq.dec q.mode "read-only") [
  | yes p ↦ elim (Option-cases (read_only_action_capabilities q.action)) [
    | inl n ↦ absurd (ground (arith, h, p, n))
    | inr (allowed, s) ↦ ground (arith, h, p, s)
  ]
  | no n ↦ ground (arith, h, n)
]

read_only-Authority :
    (q r : TaskRequest) (rows : Approvals) (id : String)
    → checked_contract q ≡ ok r
    → q.mode ≡ "read-only"
    → Authority rows id q none
unfolding checked_contract
read_only-Authority q r rows id h mode =
    checked_read_only-ok q r (read_only_action_capabilities q.action) rows id refl mode
      (ground (arith, h, mode))

assert_existing_task_matches-ok :
    (task : Task) (event : IngressEvent) (q : TaskRequest) (a : Option Approval) (u : Unit)
    → assert_existing_task_matches task q event.id (task_context event q a) ≡ ok u
    → IsTaskOf task event q a
unfolding assert_existing_task_matches canonical_json
assert_existing_task_matches-ok task event q a u h =
    (ground (arith, h), ground (arith, h), ground (arith, h), ground (arith, h), ground (arith, h))

-- A task was stored, or found under the event's key, and is about the request.
abbrev pub Stored :
    Call
    → IngressEvent
    → TaskRequest
    → Option Approval
    → Runtime
    → Option String
    → Task
    → Runtime
    → Type 0
Stored c event q a rt approval task rt' =
    (approval_id a ≡ approval)
    × (create_task c (new_event_task event q (task_context event q a)) rt.db ≡ ok (task, rt'.db))
    × IsTaskOf task event q a

pub store_event_task-Stored :
    (c : Call) (event : IngressEvent) (q : TaskRequest) (a : Option Approval) (rt rt' : Runtime)
    (approval : Option String) (task : Task)
    → store_event_task c event q a rt ≡ (ok (materialized approval task), rt')
    → Stored c event q a rt approval task rt'
unfolding store_event_task
store_event_task-Stored c event q a rt rt' approval task h =
    elim (Result-cases (create_task c (new_event_task event q (task_context event q a)) rt.db)) [
      | inr (x, e) ↦ absurd (ground (arith, h, e))
      | inl ((t, db'), e) ↦
          let h' = rw (store_event_task, e) at h in
          let (u, passed, same) =
            bind-ok (assert_existing_task_matches t q event.id (task_context event q a)) _
              (materialized approval task) (ap (λ p. p.0) h') in
          let t_is : t ≡ task = ground (arith, same) in
          let db_is : db' ≡ rt'.db = ap (λ p. p.1.db) h' in
          (
            ground (arith, same),
            e ∙ ap ok (ground (arith, t_is, db_is)),
            subst (λ x. IsTaskOf x event q a) t_is
                (assert_existing_task_matches-ok t event q a u passed),
          )
    ]

materialize_request-Stored :
    (c : Call) (event : IngressEvent) (p q : TaskRequest) (rt rt' : Runtime)
    (approval : Option String) (task : Task)
    → checked_contract p ≡ ok q
    → materialize_request c event q rt ≡ (ok (materialized approval task), rt')
    → (a : Option Approval) × Authority rt.approvals event.id q a
      × Stored c event q a rt approval task rt'
unfolding materialize_request
materialize_request-Stored c event p q rt rt' approval task checked h =
    let same = checked_contract-same p q checked in
    elim (string_eq.dec q.mode "read-only") [
      | yes mode ↦ (
        none,
        subst (λ x. Authority rt.approvals event.id x none) (sym same)
            (read_only-Authority p q rt.approvals event.id checked
              (subst (λ x. x.mode ≡ "read-only") same mode)),
        store_event_task-Stored c event q none rt rt' approval task (ground (arith, h, mode)),
      )
      | no other ↦ elim (Result-cases (matching_approval event.id q rt.approvals)) [
        | inr (x, e) ↦ absurd (ground (arith, h, other, e))
        | inl (none, e) ↦ absurd (ground (arith, h, other, e))
        | inl (some a, e) ↦ (
          some a,
          (other, matching_approval-Approves event.id q rt.approvals a e),
          store_event_task-Stored c event q (some a) rt rt' approval task
              (ground (arith, h, other, e)),
        )
      ]
    ]

task_request-checked :
    (event : IngressEvent) (q : TaskRequest)
    → task_request event ≡ ok q
    → (p : TaskRequest) × (checked_contract p ≡ ok q)
unfolding task_request
task_request-checked event q h =
    let (d, _, h1) =
      bind-ok (optional_object "requested_action" (some event.requested_action)) _ q h in
    let (typed, _, h2) = bind-ok (typed_request d) _ q h1 in
    let (p, _, h3) = bind-ok (parsed_request typed) (λ x. checked_contract x) q h2 in (p, h3)

-- An event becomes a task only where the event is stored, its request can be read, and there is
-- authority for it: in the read-only mode an action that is on the list, with its capabilities and a
-- low risk, and in any other mode an approved approval in the table for the same action, event and
-- scope. The task says what the request says, and its context is the one that the runtime composes.
pub materialize_ingress_event-Authority :
    (c : Call) (event_id : String) (rt rt' : Runtime) (approval : Option String) (task : Task)
    → materialize_ingress_event c event_id rt ≡ (ok (materialized approval task), rt')
    → (event : IngressEvent) × (get_event event_id rt.ingress ≡ some event)
      × ((q : TaskRequest) × (task_request event ≡ ok q)
          × ((a : Option Approval) × Authority rt.approvals event.id q a
              × Stored c event q a rt approval task rt'))
unfolding materialize_ingress_event
materialize_ingress_event-Authority c event_id rt rt' approval task h =
    elim (Option-cases (get_event event_id rt.ingress)) [
      | inl n ↦ absurd (ground (arith, h, n))
      | inr (event, here) ↦ elim (Result-cases (task_request event)) [
        | inr (x, e) ↦ absurd (ground (arith, h, here, e))
        | inl (q, e) ↦
            let (p, checked) = task_request-checked event q e in
            (
              event,
              here,
              (
                q,
                e,
                materialize_request-Stored c event p q rt rt' approval task checked
                    (ground (arith, h, here, e)),
              ),
            )
      ]
    ]
