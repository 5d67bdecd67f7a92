-- ===== src/Dispatcher/Moves.antt =====
-- What one dispatch does to the table of events.
use personal_agent_runtime.Base.{
  ℕ, suc, String, Bool, true, none, some, [], ◌∷◌, string_eq, not, ◌||◌, ◌≡◌, ◌≢◌, inl, inr, refl,
  sym, ap, ◌∙◌, arith, Bool-cases, Option-cases, is_one,
}
use personal_agent_runtime.Base.Table.{find, update, count}
use personal_agent_runtime.Base.Table.Keys.{Distinct}
use personal_agent_runtime.Store.{Result, ok, raised, Call}
use personal_agent_runtime.Ingress.{
  IngressStatus, received, blocked_auto_dispatch, invalid_auto_dispatch, ingress_status_eq,
  IngressEvent, Ingress, get_event, has_event_id,
}
use personal_agent_runtime.Materialization.{Runtime}
use personal_agent_runtime.Materialization.Create.{
  Materialization, approval_required, materialized, materialize_ingress_event,
}
use personal_agent_runtime.Materialization.Untouched.{
  SameTables, materialize_ingress_event-SameTables,
}
use personal_agent_runtime.Dispatcher.{
  is_received, moved_row, is_pending, Dispatch, settled_task, is_materialized,
  is_already_materialized, is_blocked, is_caught, not_dispatchable, task_exists,
  after_materialization, dispatch_received, dispatch_event,
}

-- A result that the summary counts
abbrev pub is_settled : Dispatch → Bool
is_settled d = is_materialized d || (is_already_materialized d || is_blocked d)

-- One event, if it is received, has moved to a status that is final, and the result is counted.
abbrev pub Moved : Call → String → Dispatch → Runtime → Runtime → Type 0
Moved c event_id d rt rt' =
    (is_settled d ≡ true)
    × (status : IngressStatus) × (status ≢ received)
    × (rt'.ingress ≡ update (is_received event_id) (moved_row c.now status) rt.ingress)
    × (rt'.approvals ≡ rt.approvals)

settled_task-settled :
    (existed transitioned : Bool) (task_id : String) (d : Dispatch)
    → settled_task existed transitioned task_id ≡ d
    → is_settled d ≡ true
settled_task-settled existed transitioned task_id d e =
    sym (ap is_settled e)
    ∙ elim (Bool-cases (existed || not transitioned)) [ inl t ↦ rw t refl | inr f ↦ rw f refl ]

after_materialization-Moved :
    (c : Call) (event_id : String) (existed : Bool) (r : Result Materialization × Runtime)
    (d : Dispatch) (rt rt' : Runtime)
    → SameTables rt r.1
    → after_materialization c event_id existed r ≡ (ok d, rt')
    → Moved c event_id d rt rt'
unfolding after_materialization
after_materialization-Moved c event_id existed (raised e, rt1) d rt rt' same h =
    elim (Bool-cases (is_caught e)) [
      | inl caught ↦ (
        ground (arith, h, caught),
        invalid_auto_dispatch,
        λ p. cc,
        ground (arith, h, caught),
        ground (arith, h, caught),
      )
      | inr other ↦ absurd (ground (arith, h, other))
    ]
after_materialization-Moved c event_id existed (ok (approval_required _ _), rt1) d rt rt' same h =
    (ground (arith, h), blocked_auto_dispatch, λ p. cc, ground (arith, h), ground (arith, h))
after_materialization-Moved c event_id existed (ok (materialized _ task), rt1) d rt rt' same h = (
  settled_task-settled existed (is_one (count (is_received event_id) rt1.ingress)) task.id d
      (ground (arith, h)),
  IngressStatus.materialized,
  λ p. cc,
  ground (arith, h),
  ground (arith, h),
)

dispatch_received-Moved :
    (c : Call) (event : IngressEvent) (event_id : String) (d : Dispatch) (rt rt' : Runtime)
    → dispatch_received c event event_id rt ≡ (ok d, rt')
    → Moved c event_id d rt rt'
unfolding dispatch_received
dispatch_received-Moved c event event_id d rt rt' h =
    elim (Option-cases (not_dispatchable event.requested_action)) [
      | inr (reason, e) ↦ (
        ground (arith, h, e),
        blocked_auto_dispatch,
        λ p. cc,
        ground (arith, h, e),
        ground (arith, h, e),
      )
      | inl e ↦
          after_materialization-Moved c event_id (task_exists event_id rt)
            (materialize_ingress_event c event_id rt) d rt rt'
            (materialize_ingress_event-SameTables c event_id rt) (ground (arith, h, e))
    ]

pub dispatch_event-Moved :
    (c : Call) (event_id : String) (event : IngressEvent) (d : Dispatch) (rt rt' : Runtime)
    → get_event event_id rt.ingress ≡ some event
    → event.status ≡ received
    → dispatch_event c event_id rt ≡ (ok d, rt')
    → Moved c event_id d rt rt'
unfolding dispatch_event
dispatch_event-Moved c event_id event d rt rt' here status h =
    dispatch_received-Moved c event event_id d rt rt' (ground (arith, h, here, status))

count-unmoved :
    (ts : ℕ) (event_id : String) (status : IngressStatus) (rows : Ingress)
    → find (has_event_id event_id) rows ≡ none
    → count is_pending (update (is_received event_id) (moved_row ts status) rows)
      ≡ count is_pending rows
unfolding find count update is_received
count-unmoved ts event_id status [] e = refl
count-unmoved ts event_id status (x ∷ rows) e =
    ground (arith, count-unmoved ts event_id status rows)

-- The number of received events goes down by one.
pub count-moved :
    (ts : ℕ) (event_id : String) (status : IngressStatus) (rows : Ingress) (event : IngressEvent)
    → Distinct (λ e. e.id) rows
    → find (has_event_id event_id) rows ≡ some event
    → event.status ≡ received
    → status ≢ received
    → suc (count is_pending (update (is_received event_id) (moved_row ts status) rows))
      ≡ count is_pending rows
unfolding find count update is_received
count-moved ts event_id status [] event d here pending other = cc
count-moved ts event_id status (x ∷ rows) event d here pending other =
    elim (string_eq.dec x.id event_id) [
      | yes p ↦ ground (arith, p, here, pending, other, count-unmoved ts event_id status rows, d.0)
      | no n ↦ ground (arith, n, here, count-moved ts event_id status rows event d.1)
    ]
