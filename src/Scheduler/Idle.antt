-- ===== src/Scheduler/Idle.antt =====
-- When `decide` finds nothing to do, and when it lets a worker go on by itself.
use personal_agent_runtime.Base.{
  ℕ, String, true, false, Option, none, some, List, [], ◌∷◌, ◌≡◌, ◌≢◌, ◌↔◌, ◌⊎◌, inl, inr, refl,
  sym, ◌∙◌, ap, All, arith, Bool-cases, Option-cases, string_eq,
}
use mathlib.Core.Path.{subst}
use personal_agent_runtime.Base.Table.{first_by}
use personal_agent_runtime.Base.Table.Keys.{Distinct}
use personal_agent_runtime.Base.Table.Sorted.{first_by-none}
use personal_agent_runtime.Store.{Task, Db, ok, raised, ok-injective, raised-injective, Error}
use personal_agent_runtime.Tasks.{next_task, is_claimable}
use personal_agent_runtime.Tasks.Effects.{Result-cases}
use personal_agent_runtime.Tasks.Queue.{next_task-none, none-next_task}
use personal_agent_runtime.Capabilities.{
  Eligibility, required_capabilities, eligibility_of, evaluate_worker_eligibility,
}
use personal_agent_runtime.Capabilities.Laws.{Serves, eligibility_of-Serves}
use personal_agent_runtime.Reconcile.{
  FindingType, stale_lease, orphan_running_run, failed_work, retry_budget_exhausted, dead_lettered,
  rejected_independent_review, pending_independent_review, independent_review_evidence_gap,
  completion_evidence_gap, unmaterialized_next_action, Finding, reconcile,
}
use personal_agent_runtime.Reconcile.Due.{
  NothingDue, reconcile-healthy_idle, healthy_idle-nil, nil-healthy_idle,
}
use personal_agent_runtime.Scheduler.{
  goes_before, Decision, idle, execute, decision_from_finding, decision_of_type, decision_on,
  decide_task, decide, idle_decision,
}
use personal_agent_runtime.Scheduler.Laws.{decide-finding, decide-task}

-- The decision about a finding leaves something to do, but not by the worker itself.
abbrev pub IsForOthers : Decision → Type 0
IsForOthers d = (d.decision ≢ idle) × (d.safe_to_auto_execute ≡ false)

decision_of_type-IsForOthers :
    (type : FindingType) (f : Finding) (db : Db) → IsForOthers (decision_of_type type f db)
decision_of_type-IsForOthers stale_lease f db = (λ e. cc, refl)
decision_of_type-IsForOthers orphan_running_run f db = (λ e. cc, refl)
decision_of_type-IsForOthers failed_work f db = (λ e. cc, refl)
decision_of_type-IsForOthers retry_budget_exhausted f db = (λ e. cc, refl)
decision_of_type-IsForOthers dead_lettered f db = (λ e. cc, refl)
decision_of_type-IsForOthers rejected_independent_review f db = (λ e. cc, refl)
decision_of_type-IsForOthers pending_independent_review f db = (λ e. cc, refl)
decision_of_type-IsForOthers independent_review_evidence_gap f db = (λ e. cc, refl)
decision_of_type-IsForOthers completion_evidence_gap f db = (λ e. cc, refl)
decision_of_type-IsForOthers unmaterialized_next_action f db = (λ e. cc, refl)

decision_from_finding-IsForOthers :
    (f : Finding) (db : Db) → IsForOthers (decision_from_finding f db)
unfolding decision_from_finding
decision_from_finding-IsForOthers f db = decision_of_type-IsForOthers f.type f db

eligibility_of-required :
    (required : List String) (worker : Option String) (db : Db)
    → (eligibility_of required worker db).required_capabilities ≡ required
unfolding eligibility_of
eligibility_of-required [] worker db = refl
eligibility_of-required (c ∷ cs) none db = refl
eligibility_of-required (c ∷ cs) (some w) db = ground arith

decide_task-ok :
    (t : Task) (worker : Option String) (required : List String) (db : Db)
    → required_capabilities t ≡ ok required
    → decide_task (some t) worker db
      ≡ ok (decision_on t worker (eligibility_of required worker db) required)
unfolding evaluate_worker_eligibility
decide_task-ok t worker required db e =
    rw (decide_task, evaluate_worker_eligibility, e)
      (ap (λ rs. ok (decision_on t worker (eligibility_of required worker db) rs))
        (eligibility_of-required required worker db))

decide_task-raised :
    (t : Task) (worker : Option String) (x : Error) (db : Db)
    → required_capabilities t ≡ raised x
    → decide_task (some t) worker db ≡ raised x
unfolding evaluate_worker_eligibility
decide_task-raised t worker x db e = rw (decide_task, evaluate_worker_eligibility, e) refl

decision_on-busy :
    (t : Task) (worker : Option String) (e : Eligibility) (required : List String)
    → (decision_on t worker e required).decision ≢ idle
decision_on-busy t worker e [] = λ h. cc
decision_on-busy t worker e (_ ∷ _) = λ h. ground arith

-- A decision about a queued task that needs no human is to execute a read-only task.
decision_on-safe :
    (t : Task) (worker : Option String) (e : Eligibility) (required : List String)
    → (decision_on t worker e required).safe_to_auto_execute ≡ true
    → ((decision_on t worker e required).decision ≡ execute)
      × ((decision_on t worker e required).task_id ≡ some t.id)
      × (t.mode ≡ "read-only")
      × ((required ≡ []) ⊎ (e.eligible ≡ true))
decision_on-safe t worker e [] h = (refl, refl, ground arith, inl refl)
decision_on-safe t worker e (c ∷ cs) h = elim (Bool-cases e.eligible) [
  | inl y ↦ (ground arith, ground arith, ground arith, inr y)
  | inr n ↦ absurd (ground arith)
]

nothing-Serves :
    (required : List String) (worker : Option String) (db : Db)
    → required ≡ []
    → Serves required worker db
nothing-Serves [] worker db e = tt
nothing-Serves (c ∷ cs) worker db e = cc

-- Where task ids are unique, of a decision that is safe to execute without a human: nothing is due, and the task at the head of the
-- queue is read-only and asks for nothing that the worker did not declare.
pub decide-safe :
    (now : ℕ) (worker : Option String) (db : Db) (d : Decision)
    → Distinct (λ t. t.id) db.tasks
    → decide now worker none db ≡ ok d
    → d.safe_to_auto_execute ≡ true
    → (t : Task) × (required : List String) × (next_task now db ≡ some t)
      × (d.decision ≡ execute)
      × (d.task_id ≡ some t.id)
      × (t.mode ≡ "read-only")
      × (required_capabilities t ≡ ok required)
      × Serves required worker db
      × NothingDue now db
decide-safe now worker db d distinct e safe =
    let fs = (reconcile now db).findings in
    elim (Option-cases (first_by goes_before fs)) [
      | inr (f, first) ↦
          let q : decision_from_finding f db ≡ d =
            ok-injective _ _ (sym (decide-finding now worker db f first) ∙ e) in
          absurd (
            cc (
              subst (λ z. z.safe_to_auto_execute ≡ false) q
                  (decision_from_finding-IsForOthers f db).1,
              safe,
            ))
      | inl none_first ↦
          let rest : decide_task (next_task now db) worker db ≡ ok d =
            sym (decide-task now worker db none_first) ∙ e in
          elim (Option-cases (next_task now db)) [
            | inl n ↦
                let q : idle_decision ≡ d = ok-injective _ _ (rw n at rest) in
                absurd (cc (rw (← q) at safe))
            | inr (t, s) ↦ elim (Result-cases (required_capabilities t)) [
              | inr (x, r) ↦ absurd (cc (sym (decide_task-raised t worker x db r) ∙ rw s at rest))
              | inl (required, r) ↦
                  let q : decision_on t worker (eligibility_of required worker db) required ≡ d =
                    ok-injective _ _
                      (sym (decide_task-ok t worker required db r) ∙ (rw s at rest)) in
                  let (kind, id, mode, served) =
                    decision_on-safe t worker (eligibility_of required worker db) required
                      (rw q safe) in
                  (
                    t,
                    required,
                    s,
                    rw (← q) kind,
                    rw (← q) id,
                    mode,
                    r,
                    elim served [
                      | inl nothing ↦ nothing-Serves required worker db nothing
                      | inr y ↦ (eligibility_of-Serves required worker db).0 y
                    ],
                    (reconcile-healthy_idle now db distinct).0
                        (nil-healthy_idle now db (first_by-none goes_before fs none_first)),
                  )
            ]
          ]
    ]

idle→nothing :
    (now : ℕ) (worker : Option String) (db : Db)
    → Distinct (λ t. t.id) db.tasks
    → decide now worker none db ≡ ok idle_decision
    → NothingDue now db × All (λ t. is_claimable now t ≡ false) db.tasks
idle→nothing now worker db distinct e =
    let fs = (reconcile now db).findings in
    elim (Option-cases (first_by goes_before fs)) [
      | inr (f, first) ↦
          let q : decision_from_finding f db ≡ idle_decision =
            ok-injective _ _ (sym (decide-finding now worker db f first) ∙ e) in
          absurd ((decision_from_finding-IsForOthers f db).0 (ap (λ z. z.decision) q))
      | inl none_first ↦
          let rest : decide_task (next_task now db) worker db ≡ ok idle_decision =
            sym (decide-task now worker db none_first) ∙ e in
          elim (Option-cases (next_task now db)) [
            | inl n ↦ (
              (reconcile-healthy_idle now db distinct).0
                  (nil-healthy_idle now db (first_by-none goes_before fs none_first)),
              next_task-none now db n,
            )
            | inr (t, s) ↦ elim (Result-cases (required_capabilities t)) [
              | inr (x, r) ↦ absurd (cc (sym (decide_task-raised t worker x db r) ∙ (rw s at rest)))
              | inl (required, r) ↦ absurd (
                  decision_on-busy t worker (eligibility_of required worker db) required (
                    ap (λ z. z.decision)
                      (ok-injective _ _
                        (sym (decide_task-ok t worker required db r) ∙ (rw s at rest)))))
            ]
          ]
    ]

decide_task-idle :
    (o : Option Task) (worker : Option String) (db : Db) (d : Decision)
    → decide_task o worker db ≡ ok d
    → d.decision ≡ idle
    → d ≡ idle_decision
decide_task-idle none worker db d e kind = sym (ok-injective idle_decision d e)
decide_task-idle (some t) worker db d e kind =
    elim (Result-cases (evaluate_worker_eligibility t worker db)) [
      | inr (x, failed) ↦ absurd (ground (arith, e, failed))
      | inl (r, passed) ↦
          let is : decision_on t worker r r.required_capabilities ≡ d = ground (arith, e, passed) in
          absurd
            (decision_on-busy t worker r r.required_capabilities (ap (λ x. x.decision) is ∙ kind))
    ]

-- There is one decision of the kind that says idle.
pub decide-idle_kind :
    (now : ℕ) (worker : Option String) (db : Db) (d : Decision)
    → decide now worker none db ≡ ok d
    → d.decision ≡ idle
    → d ≡ idle_decision
decide-idle_kind now worker db d e kind =
    elim (Option-cases (first_by goes_before (reconcile now db).findings)) [
      | inr (f, first) ↦
          let q : decision_from_finding f db ≡ d =
            ok-injective _ _ (sym (decide-finding now worker db f first) ∙ e) in
          absurd ((decision_from_finding-IsForOthers f db).0 (ap (λ x. x.decision) q ∙ kind))
      | inl none_first ↦
          decide_task-idle (next_task now db) worker db d
            (sym (decide-task now worker db none_first) ∙ e) kind
    ]

-- Where task ids are unique, the decision is to be idle exactly when nothing is due for any stored task and no task may be claimed.
pub decide-idle :
    (now : ℕ) (worker : Option String) (db : Db)
    → Distinct (λ t. t.id) db.tasks
    → (decide now worker none db ≡ ok idle_decision)
      ↔ (NothingDue now db × All (λ t. is_claimable now t ≡ false) db.tasks)
unfolding first_by
decide-idle now worker db distinct = (
  λ e. idle→nothing now worker db distinct e,
  λ (due, queue).
      decide-task now worker db
        (rw (healthy_idle-nil now db ((reconcile-healthy_idle now db distinct).1 due)) refl)
      ∙ rw (none-next_task now db queue) refl,
)

-- The decision raises only where nothing is reported, and the required capabilities of the task at the
-- head of the queue cannot be read; it raises their error.
pub decide-raises :
    (now : ℕ) (worker : Option String) (db : Db) (x : Error)
    → decide now worker none db ≡ raised x
    → (t : Task) × (next_task now db ≡ some t)
      × (required_capabilities t ≡ raised x)
      × ((reconcile now db).findings ≡ [])
decide-raises now worker db x e =
    let fs = (reconcile now db).findings in
    elim (Option-cases (first_by goes_before fs)) [
      | inr (f, first) ↦ absurd (cc (sym (decide-finding now worker db f first) ∙ e))
      | inl none_first ↦
          let rest : decide_task (next_task now db) worker db ≡ raised x =
            sym (decide-task now worker db none_first) ∙ e in
          elim (Option-cases (next_task now db)) [
            | inl n ↦ absurd (cc (rw n at rest))
            | inr (t, s) ↦ elim (Result-cases (required_capabilities t)) [
              | inl (required, r) ↦
                  absurd (cc (sym (decide_task-ok t worker required db r) ∙ (rw s at rest)))
              | inr (y, r) ↦ (
                t,
                s,
                r
                    ∙ ap raised (
                        raised-injective y x
                          (sym (decide_task-raised t worker y db r) ∙ (rw s at rest))),
                first_by-none goes_before fs none_first,
              )
            ]
          ]
    ]
