-- ===== src/Watchdog/Laws.antt =====
-- A wake that finds nothing to do leaves nothing to do.
use mathlib.Core.Path.{subst}
use personal_agent_runtime.Base.{
  ℕ, ℤ, String, false, Option, none, some, not, ◌||◌, ◌==◌, ◌≡◌, ◌↔◌, inl, inr, refl, sym, ap, ◌∙◌,
  arith, All, ltb,
}
use personal_agent_runtime.Base.Table.{count}
use personal_agent_runtime.Base.Table.Keys.{Distinct}
use personal_agent_runtime.Base.Table.Batch.{any-count}
use personal_agent_runtime.Store.{Result, ok, raised, Call, ok-injective, checked_limit}
use personal_agent_runtime.Tasks.{is_claimable}
use personal_agent_runtime.Tasks.Effects.{Result-cases}
use personal_agent_runtime.Reconcile.{reconcile}
use personal_agent_runtime.Reconcile.Due.{NothingDue}
use personal_agent_runtime.Scheduler.{Decision, idle, decision_kind_eq, idle_decision, decide}
use personal_agent_runtime.Scheduler.Idle.{decide-idle, decide-idle_kind}
use personal_agent_runtime.Materialization.{Runtime}
use personal_agent_runtime.Dispatcher.{
  is_pending, pending_events, has_pending_events, Dispatched, dispatch_batch,
  dispatch_pending_events,
}
use personal_agent_runtime.Dispatcher.Drain.{dispatch_batch-ok}
use personal_agent_runtime.Watchdog.{Wake, woken, projected, watchdog_wake}

-- What a wake says is there to do
abbrev pub NothingLeft : ℕ → Runtime → Type 0
NothingLeft now rt =
    NothingDue now rt.db
    × All (λ t. is_claimable now t ≡ false) rt.db.tasks
    × (count is_pending rt.ingress ≡ 0)

-- The result of the dispatch, and the state that it left
dispatch-has_more :
    (calls : ℕ → Call) (limit : ℤ) (rt rt' : Runtime) (s : Dispatched)
    → dispatch_pending_events calls limit rt ≡ (ok s, rt')
    → s.has_more ≡ has_pending_events rt'.ingress
unfolding dispatch_pending_events
dispatch-has_more calls limit rt rt' s h = elim (Result-cases (checked_limit limit)) [
  | inr (x, e) ↦ absurd (ground (arith, h, e))
  | inl (n, e) ↦
      let done : dispatch_batch calls (pending_events n rt.ingress) rt ≡ (ok s, rt') =
        rw (dispatch_pending_events, e) at h in
      let (_, _, is) = dispatch_batch-ok calls (pending_events n rt.ingress) rt rt' s done in
      ap (λ x. x.has_more) is
]

abbrev Projected : ℕ → Option String → Result Dispatched × Runtime → Wake → Runtime → Type 0
Projected now worker r w rt' =
    (s : Dispatched) × (d : Decision) × (r ≡ (ok s, rt'))
    × (decide now worker none rt'.db ≡ ok d)
    × (w ≡ woken s (reconcile now rt'.db) d)

projected-ok :
    (now : ℕ) (worker : Option String) (r : Result Dispatched × Runtime) (w : Wake) (rt' : Runtime)
    → projected now worker r ≡ (ok w, rt')
    → Projected now worker r w rt'
unfolding decide
projected-ok now worker (raised e, rt) w rt' h = cc
projected-ok now worker (ok s, rt) w rt' h =
    elim (Result-cases (decide now worker (some (reconcile now rt.db)) rt.db)) [
      | inr (x, e) ↦ absurd (ground (arith, h, e))
      | inl (d, e) ↦
          let rt_is : rt ≡ rt' = ground (arith, h, e) in
          let w_is : woken s (reconcile now rt.db) d ≡ w = ground (arith, h, e) in
          subst (λ x. Projected now worker (ok s, rt) w x) rt_is (s, d, refl, e, sym w_is)
    ]

-- Where task ids are unique in the state that it leaves, a wake that returns says that there is no next
-- action exactly when nothing is due for any stored task, no task may be claimed and no event is
-- received.
pub watchdog_wake-NothingLeft :
    (calls : ℕ → Call) (now : ℕ) (limit : ℤ) (worker : Option String) (rt rt' : Runtime) (w : Wake)
    → Distinct (λ t. t.id) rt'.db.tasks
    → watchdog_wake calls now limit worker rt ≡ (ok w, rt')
    → (w.next_action_available ≡ false) ↔ NothingLeft now rt'
unfolding watchdog_wake
watchdog_wake-NothingLeft calls now limit worker rt rt' w ids h =
    let (s, d, dispatched, decided, w_is) =
      projected-ok now worker (dispatch_pending_events calls limit rt) w rt' h in
    let more : s.has_more ≡ ltb 0 (count is_pending rt'.ingress) =
      dispatch-has_more calls limit rt rt' s dispatched ∙ any-count is_pending rt'.ingress in
    let said : w.next_action_available ≡ (not (d.decision == idle) || s.has_more) =
      ap (λ x. x.next_action_available) w_is in
    elim (decision_kind_eq.dec d.decision idle) [
      | yes kind ↦
          let (due, queue) =
            (decide-idle now worker rt'.db ids).0
              (decided ∙ ap ok (decide-idle_kind now worker rt'.db d decided kind)) in
          (
            λ e. (due, queue, ground (arith, e, said, kind, more)),
            λ left. ground (arith, left.2, said, kind, more),
          )
      | no other ↦ (
        λ e. absurd (ground (arith, e, said, other)),
        λ left. absurd (
            other (
              ap (λ x. x.decision)
                (ok-injective d idle_decision
                  (sym decided ∙ (decide-idle now worker rt'.db ids).1 (left.0, left.1))))),
      )
    ]
