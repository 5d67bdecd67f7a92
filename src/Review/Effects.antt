-- ===== src/Review/Effects.antt =====
-- What a review that commits has written.
use personal_agent_runtime.Base.{
  String, none, some, [], ◌∷◌, ◌++◌, ◌==◌, string_eq, ◌≡◌, ◌≢◌, inl, inr, Option-cases, arith, true,
  contains,
}
use personal_agent_runtime.Base.Table.{find, update}
use personal_agent_runtime.Store.{
  review_pending, task_status_eq, Task, Run, Db, ok, Call, task_by_id,
}
use personal_agent_runtime.Tasks.{has_id}
use personal_agent_runtime.Review.{
  Review, ReviewResult, verdicts, reviewed_run, review_run, reviewed_row, record_review,
  review_task, submit_review,
}

module _ (c : Call) (task_id : String) (v : Review) (db db' : Db) (r : ReviewResult) where
  -- One run of the critic was added, and the row of the task was decided.
  abbrev pub Recorded : Run → Type 0
  Recorded run =
      (db'.tasks ≡ update (has_id task_id) (reviewed_row c.now v.verdict) db.tasks)
      × (db'.runs ≡ db.runs ++ (review_run c task_id v run ∷ []))
      × (find (λ r. r.id == c.uuid 0) db.runs ≡ none)

  record_review-ok : (run : Run) → record_review c task_id v run db ≡ ok (r, db') → Recorded run
  unfolding record_review
  record_review-ok run done = ground arith

  abbrev pub Reviewed : Type 0
  Reviewed =
      (task : Task) × (run : Run) × (task_by_id task_id db ≡ some task)
      × (task.status ≡ review_pending)
      × (reviewed_run task_id db ≡ some run)
      × (run.worker ≢ v.reviewer)
      × Recorded run

  review_task-ok :
      (task : Task)
      → task_by_id task_id db ≡ some task
      → review_task c task_id v task db ≡ ok (r, db')
      → Reviewed
  unfolding review_task
  review_task-ok task found done = elim (Option-cases (reviewed_run task_id db)) [
    | inl n ↦ absurd (ground arith)
    | inr (run, ran) ↦ elim (string_eq.dec run.worker v.reviewer) [
      | yes p ↦ absurd (ground arith)
      | no n ↦ (task, run, found, ground arith, ran, n, record_review-ok run (ground arith))
    ]
  ]

  pub submit_review-ok :
      submit_review c task_id v db ≡ ok (r, db') → Reviewed × (contains verdicts v.verdict ≡ true)
  unfolding submit_review
  submit_review-ok done = elim (Option-cases (task_by_id task_id db)) [
    | inl n ↦ absurd (ground arith)
    | inr (task, found) ↦ (review_task-ok task found (ground arith), ground arith)
  ]
