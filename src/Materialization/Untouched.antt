-- ===== src/Materialization/Untouched.antt =====
-- A materialization writes to the tables of par/db.py only.
use personal_agent_runtime.Base.{
  String, Option, none, some, string_eq, ◌≡◌, inl, inr, refl, arith, Option-cases,
}
use personal_agent_runtime.Store.{Call}
use personal_agent_runtime.Tasks.{create_task}
use personal_agent_runtime.Tasks.Effects.{Result-cases}
use personal_agent_runtime.Ingress.{IngressEvent, get_event}
use personal_agent_runtime.Approvals.{Approval}
use personal_agent_runtime.Materialization.{Runtime, TaskRequest, task_request}
use personal_agent_runtime.Materialization.Create.{
  task_context, new_event_task, matching_approval, store_event_task, materialize_request,
  materialize_ingress_event,
}

abbrev pub SameTables : Runtime → Runtime → Type 0
SameTables rt rt' = (rt'.ingress ≡ rt.ingress) × (rt'.approvals ≡ rt.approvals)

module _ (c : Call) (event : IngressEvent) (q : TaskRequest) (rt : Runtime) where
  pub store_event_task-SameTables :
      (a : Option Approval) → SameTables rt (store_event_task c event q a rt).1
  unfolding store_event_task
  store_event_task-SameTables a =
      elim (Result-cases (create_task c (new_event_task event q (task_context event q a)) rt.db)) [
        | inl (r, e) ↦ rw (store_event_task, e) (refl, refl)
        | inr (x, e) ↦ rw (store_event_task, e) (refl, refl)
      ]

  pub materialize_request-SameTables : SameTables rt (materialize_request c event q rt).1
  unfolding materialize_request
  materialize_request-SameTables = elim (string_eq.dec q.mode "read-only") [
    | yes mode ↦ ground (arith, mode, store_event_task-SameTables none)
    | no other ↦ elim (Result-cases (matching_approval event.id q rt.approvals)) [
      | inr (x, e) ↦ ground (arith, other, e)
      | inl (none, e) ↦ ground (arith, other, e)
      | inl (some a, e) ↦ ground (arith, other, e, store_event_task-SameTables (some a))
    ]
  ]

pub materialize_ingress_event-SameTables :
    (c : Call) (event_id : String) (rt : Runtime)
    → SameTables rt (materialize_ingress_event c event_id rt).1
unfolding materialize_ingress_event
materialize_ingress_event-SameTables c event_id rt =
    elim (Option-cases (get_event event_id rt.ingress)) [
      | inl n ↦ ground (arith, n)
      | inr (event, here) ↦ elim (Result-cases (task_request event)) [
        | inr (x, e) ↦ ground (arith, here, e)
        | inl (q, e) ↦ ground (arith, here, e, materialize_request-SameTables c event q rt)
      ]
    ]
