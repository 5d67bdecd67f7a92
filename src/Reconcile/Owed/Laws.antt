-- ===== src/Reconcile/Owed/Laws.antt =====
-- `reconcile` against what the stored rows leave to do.
use mathlib.Core.List.{List, Memᴰ}
use mathlib.Core.Path.{subst}
use mathlib.Core.Option.{some-injective}
use personal_agent_runtime.Base.{
  ℕ, String, Bool, true, false, none, some, string_eq, ◌==◌, ◌≡◌, ◌≢◌, ◌↔◌, ◌<◌, inl, inr, arith,
  All, any, not, ◌&&◌, refl, ◌∙◌, Bool-cases, Option-cases, sym,
}
use personal_agent_runtime.Base.Table.{select, last, any-sort_by}
use personal_agent_runtime.Base.Table.Keys.{Distinct}
use personal_agent_runtime.Base.Table.Latest.{
  any-select, select-select, any-Mem, Mem-any, last-IsLastBy, last-none,
}
use personal_agent_runtime.Base.Text.{is_empty}
use personal_agent_runtime.Store.{
  RunStatus, running, run_status_eq, task_status_eq, Task, Run, Db, task_by_id,
}
use personal_agent_runtime.Reconcile.{
  FindingType, pending_independent_review, rejected_independent_review, dead_lettered, stale_lease,
  failed_work, retry_budget_exhausted, independent_review_evidence_gap, completion_evidence_gap,
  unmaterialized_next_action, orphan_running_run, is_critic, has_accepted_verdict, json_obj,
  accepted_independent_review, represents_successor, pending_action, evidence_run, has_items,
  is_running, task_runs, tasks_by_time, runs_by_time, reconcile,
}
use personal_agent_runtime.Reconcile.Reports.{reports}
use personal_agent_runtime.Reconcile.Due.{
  Due, HasFailed, ShowsNothing, IsUnrepresented, IsPast, reconcile-Due,
}
use personal_agent_runtime.Reconcile.Owed.{
  Owed, IsOf, IsWorkOf, IsLastRun, Failed, AnswersFor, ShowsEvidence, IsAccepted, Represents,
}
use personal_agent_runtime.Reconcile.Owed.Runs.{
  is_critic-IsCritic, accepted-Accepts, needs_review-RequiresReview, has_items-cons,
  represents_successor-Represents,
}

module _ (db : Db) (t : Task) where
  runs : List Run
  runs = task_runs t.id (runs_by_time db)

  last_run : (r : Run) → (last runs ≡ some r) ↔ IsLastRun (IsOf t.id) db r
  unfolding runs
  last_run =
      last-IsLastBy (IsOf t.id) (λ r. r.task_id == t.id)
        (λ r. (λ e. ground arith, λ h. ground arith)) (λ r. r.started_at) db.runs

  is_work-IsWorkOf : (r : Run) → ((r.task_id == t.id && not (is_critic r)) ≡ true) ↔ IsWorkOf t.id r
  is_work-IsWorkOf r = (
    λ e. (ground (arith, e), λ h. ground (arith, e, (is_critic-IsCritic r).1 h)),
    λ (own, h). elim (Bool-cases (is_critic r)) [
      | inl y ↦ absurd (h ((is_critic-IsCritic r).0 y))
      | inr n ↦ ground (arith, own, n)
    ],
  )

  last_work :
      (r : Run)
      → (last (select (λ r. not (is_critic r)) runs) ≡ some r) ↔ IsLastRun (IsWorkOf t.id) db r
  unfolding runs
  last_work r =
      rw (select-select (λ r. r.task_id == t.id) (λ r. not (is_critic r)) (runs_by_time db)) (
        last-IsLastBy (IsWorkOf t.id) (λ r. r.task_id == t.id && not (is_critic r)) is_work-IsWorkOf
          (λ r. r.started_at) db.runs r)

  no_work :
      (last (select (λ r. not (is_critic r)) runs) ≡ none) ↔ All (λ r. ¬ IsWorkOf t.id r) db.runs
  unfolding runs
  no_work = rw (select-select (λ r. r.task_id == t.id) (λ r. not (is_critic r)) (runs_by_time db)) (
      last-none (IsWorkOf t.id) (λ r. r.task_id == t.id && not (is_critic r)) is_work-IsWorkOf
        (λ r. r.started_at) db.runs)

  HasFailed-Failed : HasFailed t runs ↔ Failed db t
  HasFailed-Failed = (
    λ h. elim h [
      | inl e ↦ inl e
      | inr (s, n) ↦ elim (Option-cases (last runs)) [
        | inl none_run ↦ absurd (rw none_run at s)
        | inr (r, l) ↦ inr ((r, (last_run r).0 l, rw l at s), n)
      ]
    ],
    λ h. elim h [ inl e ↦ inl e | inr ((r, l, s), n) ↦ inr (rw ((last_run r).1 l) s, n) ],
  )

  evidence_run-AnswersFor : (r : Run) → (evidence_run runs ≡ some r) ↔ AnswersFor db t r
  evidence_run-AnswersFor r = elim (Option-cases (last (select (λ r. not (is_critic r)) runs))) [
    | inl n ↦ (
      λ e. inr (no_work.0 n, (last_run r).0 (rw (evidence_run, n) at e)),
      λ h. elim h [
        | inl l ↦ absurd (cc ((last_work r).1 l, n))
        | inr (_, l) ↦ rw (evidence_run, n) ((last_run r).1 l)
      ],
    )
    | inr (w, s) ↦ (
      λ e. inl ((last_work r).0 (s ∙ (rw (evidence_run, s) at e))),
      λ h. elim h [
        | inl l ↦ rw (evidence_run, (last_work r).1 l) refl
        | inr (a, _) ↦ absurd (cc (no_work.1 a, s))
      ],
    )
  ]

  ShowsNothing-evidence : ShowsNothing (evidence_run runs) ↔ (¬ ShowsEvidence db t)
  ShowsNothing-evidence = (
    λ h (r, answers, done, (v, vs, e)).
        let found = (evidence_run-AnswersFor r).1 answers in
        elim (rw found at h) [
          | inl n ↦ n done
          | inr n ↦ cc ((has_items-cons r.evidence).1 (v, vs, e), n)
        ],
    λ h. elim (Option-cases (evidence_run runs)) [
      | inl n ↦ rw n tt
      | inr (r, s) ↦ rw s (elim (run_status_eq.dec r.status RunStatus.completed) [
        | no n ↦ inl n
        | yes p ↦ elim (Bool-cases (has_items r.evidence)) [
          | inr n ↦ inr n
          | inl y ↦
              absurd (h (r, (evidence_run-AnswersFor r).0 s, p, (has_items-cons r.evidence).0 y))
        ]
      ])
    ],
  )

  -- A test of the task's runs, on all stored runs
  any-runs : (q : Run → Bool) → any q runs ≡ any (λ r. r.task_id == t.id && q r) db.runs
  unfolding runs
  any-runs q =
      any-select (λ r. r.task_id == t.id) q (runs_by_time db)
      ∙ any-sort_by (λ r. r.task_id == t.id && q r) (λ r. r.started_at) db.runs

  accepted_independent_review-IsAccepted :
      (accepted_independent_review runs ≡ true) ↔ IsAccepted db t
  unfolding accepted_independent_review
  accepted_independent_review-IsAccepted =
      let q : Run → Bool = λ r. is_critic r && has_accepted_verdict (json_obj r.metadata) in
      (
        λ e.
            let (r, m, h) =
              any-Mem (λ r. r.task_id == t.id && q r) db.runs (sym (any-runs q) ∙ e) in
            (
              r,
              m,
              ground (arith, h),
              (is_critic-IsCritic r).0 (ground (arith, h)),
              (accepted-Accepts r).0 (ground (arith, h)),
            ),
        λ (r, m, own, critic, accepts).
            any-runs q
            ∙ Mem-any (λ r. r.task_id == t.id && q r) db.runs {x = r} m
                (ground
                  (arith, own, (is_critic-IsCritic r).1 critic, (accepted-Accepts r).1 accepts)),
      )

  running-stored :
      (any is_running runs ≡ true)
      ↔ ((r : Run) × Memᴰ r db.runs × IsOf t.id r × (r.status ≡ running))
  running-stored = (
    λ e.
        let (r, m, h) =
          any-Mem (λ r. r.task_id == t.id && is_running r) db.runs
            (sym (any-runs is_running) ∙ e) in
        (r, m, ground (arith, h), ground (arith, h)),
    λ (r, m, own, s).
        any-runs is_running
        ∙ Mem-any (λ r. r.task_id == t.id && is_running r) db.runs {x = r} m
            (ground (arith, own, s)),
  )

  unrepresented :
      (now : ℕ) (action : String)
      → pending_action t ≡ some action
      → (any (represents_successor now t) (tasks_by_time db) ≡ false)
        ↔ (¬ ((u : Task) × Memᴰ u db.tasks × Represents now t action u))
  unrepresented now action e =
      let sorted = any-sort_by (represents_successor now t) (λ u. u.created_at) db.tasks in
      (
        λ h (u, m, r).
            let found =
              Mem-any (represents_successor now t) db.tasks {x = u} m
                ((represents_successor-Represents now t u action e).1 r) in
            cc (sorted, h, found),
        λ h. elim (Bool-cases (any (represents_successor now t) (tasks_by_time db))) [
          | inr n ↦ n
          | inl y ↦
              let (u, m, r) = any-Mem (represents_successor now t) db.tasks (sym sorted ∙ y) in
              absurd (h (u, m, (represents_successor-Represents now t u action e).0 r))
        ],
      )

  empty_text : (a : String) → is_empty a ≡ true → a ≡ ""
  empty_text String.[] e = refl
  empty_text (String.◌∷◌ x a) e = cc

  pending_action-some :
      (action : String)
      → (pending_action t ≡ some action) ↔ ((t.next_action ≡ some action) × (action ≢ ""))
  pending_action-some action = elim (Option-cases t.next_action) [
    | inl n ↦ (λ e. absurd (cc (rw n at e)), λ h. cc (n, h.0))
    | inr (a, s) ↦ elim (Bool-cases (is_empty a)) [
      | inl y ↦ (
        λ e. absurd (cc (rw (s, y) at e)),
        λ h.
            absurd
              (h.1 (subst (λ z. z ≡ "") (some-injective a action (sym s ∙ h.0)) (empty_text a y))),
      )
      | inr n ↦ (
        λ e.
            let same : a ≡ action = some-injective a action (rw (s, n) at e) in
            (rw same at s, λ q. cc (rw (same, q) at n)),
        λ h. rw (s, n) (sym s ∙ h.0),
      )
    ]
  ]

  IsUnrepresented-left :
      (now : ℕ)
      → IsUnrepresented now (tasks_by_time db) t (pending_action t) ↔ (
          (action : String) × (t.next_action ≡ some action)
          × (action ≢ "")
          × ¬ ((u : Task) × Memᴰ u db.tasks × Represents now t action u))
  IsUnrepresented-left now = (
    λ h. elim (Option-cases (pending_action t)) [
      | inl n ↦ absurd (rw n at h)
      | inr (action, e) ↦
          let (named, given) = (pending_action-some action).0 e in
          (action, named, given, (unrepresented now action e).0 (rw e at h))
    ],
    λ (action, named, given, h).
        let e = (pending_action-some action).1 (named, given) in
        rw e ((unrepresented now action e).1 h),
  )

  IsPast-expired :
      (now : ℕ)
      → IsPast now t.lease_expires_at
        ↔ ((expires : ℕ) × (t.lease_expires_at ≡ some expires) × (expires < now))
  IsPast-expired now = (
    λ h. elim (Option-cases t.lease_expires_at) [
      | inl n ↦ absurd (rw n at h)
      | inr (expires, e) ↦ (expires, e, rw e at h)
    ],
    λ (expires, e, past). rw e past,
  )

  Due-Owed : (type : FindingType) (now : ℕ) → Due type now db t ↔ Owed type now db t
  unfolding runs
  Due-Owed pending_independent_review now = (λ h. h, λ h. h)
  Due-Owed rejected_independent_review now = (λ h. h, λ h. h)
  Due-Owed dead_lettered now = (λ h. h, λ h. h)
  Due-Owed stale_lease now =
      (λ (s, h). (s, (IsPast-expired now).0 h), λ (s, h). (s, (IsPast-expired now).1 h))
  Due-Owed failed_work now =
      (λ (s, h). (HasFailed-Failed.0 s, h), λ (s, h). (HasFailed-Failed.1 s, h))
  Due-Owed retry_budget_exhausted now =
      (λ (s, h). (HasFailed-Failed.0 s, h), λ (s, h). (HasFailed-Failed.1 s, h))
  Due-Owed independent_review_evidence_gap now = (
    λ (s, needed, n). (
      s,
      (needs_review-RequiresReview t).0 needed,
      λ a. cc (accepted_independent_review-IsAccepted.1 a, n),
    ),
    λ (s, needed, n). (
      s,
      (needs_review-RequiresReview t).1 needed,
      elim (Bool-cases (accepted_independent_review runs)) [
        | inl y ↦ absurd (n (accepted_independent_review-IsAccepted.0 y))
        | inr f ↦ f
      ],
    ),
  )
  Due-Owed completion_evidence_gap now =
      (λ (s, h). (s, ShowsNothing-evidence.0 h), λ (s, h). (s, ShowsNothing-evidence.1 h))
  Due-Owed unmaterialized_next_action now =
      (λ (s, h). (s, (IsUnrepresented-left now).0 h), λ (s, h). (s, (IsUnrepresented-left now).1 h))
  Due-Owed orphan_running_run now =
      (λ (s, h). (s, running-stored.0 h), λ (s, h). (s, running-stored.1 h))

-- Where task ids are unique, a finding of each type is reported about a stored task exactly when the
-- stored rows leave that to do: a review is awaited or was rejected; the task is in the dead letter; its
-- lease has run out; it failed, or its last run did, with or without attempts left; it is completed,
-- and requires a review that no stored run of a critic accepts, or has no completed run with evidence
-- to answer for it, or names a next action that no other stored task represents; or it is not claimed
-- and a stored run of it is running.
pub reconcile-Owed :
    (type : FindingType) (k : String) (now : ℕ) (db : Db) (t : Task)
    → Distinct (λ u. u.id) db.tasks
    → task_by_id k db ≡ some t
    → (any (reports type k) (reconcile now db).findings ≡ true) ↔ Owed type now db t
reconcile-Owed type k now db t d here =
    let due = reconcile-Due type k now db t d here in
    let owed = Due-Owed db t type now in (λ e. owed.0 (due.0 e), λ h. due.1 (owed.1 h))
