-- ===== src/Tests/Lifecycle.antt =====
-- Tests of the task lifecycle, and its theorems at concrete data.
use text.Mathlib.TextEquality.{eq_iff}
use personal_agent_runtime.Base.{
  ◌++◌, inl, inr, String, none, some, [], ◌∷◌, ◌≡◌, refl, arith, pos, ◌≢◌, string_eq, option_eq,
  Option,
}
use personal_agent_runtime.Base.Table.{find, update, count}
use personal_agent_runtime.Base.Text.{is_blank}
use personal_agent_runtime.Store.{
  claimed, review_rejected, Task, Db, ok, raised, runtime_error, task_by_id, task_status_eq,
  run_status_eq, plus_minutes, insert_event,
}
use personal_agent_runtime.Tasks.{
  create_task, claim_task, is_claimable, claimed_row, new_row, NewTask, insert_task,
}
use personal_agent_runtime.Lifecycle.{create, claim, retry, fail, step}
use personal_agent_runtime.Lifecycle.Laws.{
  IsEdge, SameJob, CountsAttempt, step-IsEdge, step-SameJob,
}
use personal_agent_runtime.Lifecycle.Reach.{
  History, run, empty_db, empty_db-IsValid, IsValid, run-IsValid, run-held, run-final,
}
use personal_agent_runtime.Lifecycle.Validity.{IsValidRow}
use personal_agent_runtime.Lifecycle.Exclusive.{claim_excluded}
use personal_agent_runtime.Lifecycle.Idempotence.{create_task-idempotent}
use personal_agent_runtime.Tasks.Claims.{
  taken_row, started_run, claim_task_succeeds, claim_task_refused,
}
use personal_agent_runtime.Tests.Data.{
  at, request, waiting, held, run_of, with_task, with_task-IsValid,
}

abbrev create_then_claim : History
create_then_claim =
    (at "a" 5, create request) ∷ (at "b" 6, claim "a-0" "w1" (pos 30) "worker" none none) ∷ []

-- A created task is claimed with a lease of thirty minutes.
claimed_once :
    task_by_id "a-0" (run create_then_claim empty_db)
    ≡ some (claimed_row 6 1800000006 "w1" (new_row (at "a" 5) request 3))
unfolding run step create_task insert_task claim_task find update count option_eq string_eq
    task_status_eq is_blank
claimed_once = refl

held-IsValidRow : IsValidRow held
held-IsValidRow = ground arith

waiting-IsValidRow : IsValidRow waiting
waiting-IsValidRow = ground arith

held_found : task_by_id "t2" (with_task held) ≡ some held
unfolding find string_eq
held_found = refl

run-IsValid_example : IsValid (run create_then_claim empty_db)
run-IsValid_example = run-IsValid create_then_claim

step-IsEdge_example :
    (t : Task) × (task_by_id "t2"
        (step (at "a" 50) (fail "t2" "r1" "w1" "broken" none) (with_task held))
      ≡ some t)
    × IsEdge claimed t.status
step-IsEdge_example =
    step-IsEdge (at "a" 50) (fail "t2" "r1" "w1" "broken" none) "t2" (with_task held) held
      held-IsValidRow held_found

step-SameJob_example :
    (t : Task) × (task_by_id "t2"
        (step (at "a" 950) (claim "t2" "w2" (pos 1) "worker" none none) (with_task held))
      ≡ some t)
    × SameJob held t
    × CountsAttempt 950 (some "w2") held t
step-SameJob_example =
    step-SameJob (at "a" 950) (claim "t2" "w2" (pos 1) "worker" none none) "t2" (with_task held)
      held held_found

abbrev others : History
others =
    (at "a" 50, claim "t2" "w2" (pos 1) "worker" none none)
    ∷ (at "b" 60, fail "t2" "r1" "w2" "mine" none)
    ∷ (at "c" 70, retry "t2" "human")
    ∷ []

w2_not_w1 : ◌≢◌ {A = Option String} (some "w2") (some "w1")
w2_not_w1 = ground (arith, eq_iff "w2" "w1")

run-held_example : task_by_id "t2" (run others (with_task held)) ≡ some held
run-held_example =
    run-held others "t2" "w1" 900 (with_task held) held held_found
      (refl, refl, (900, refl, omega arith))
      ((omega arith, w2_not_w1), ((omega arith, w2_not_w1), ((omega arith, λ e. cc), tt)))

abbrev rejected : Task
rejected = record waiting { status = review_rejected; attempt_count = 1 }

run-final_example : task_by_id "t1" (run others (with_task rejected)) ≡ some rejected
unfolding find string_eq
run-final_example = run-final others "t1" (with_task rejected) rejected refl (refl, inr (inl refl))

claim_excluded_example :
    claim_task (at "z" 900) "t2" "w1" (pos 5) "critic" none none (run others (with_task held))
    ≡ raised (runtime_error "task is not claimable or retry budget is exhausted")
unfolding string_eq plus_minutes
claim_excluded_example =
    claim_excluded others "t2" "w1" 900 (with_task held) held
      (with_task-IsValid held held-IsValidRow) held_found (refl, refl, (900, refl, omega arith))
      ((omega arith, w2_not_w1), ((omega arith, w2_not_w1), ((omega arith, λ e. cc), tt)))
      (at "z" 900) "w1" (pos 5) "critic" none none (omega arith) refl 300000900 refl

abbrev again : NewTask
again = record request { goal = "something else"; max_attempts = pos 1 }

created_db : Db
unfolding step create_task insert_task find option_eq string_eq is_blank insert_event
created_db = step (at "a" 5) (create request) empty_db

create_task-idempotent_example :
    (t : Task) × (create_task (at "y" 7) again (run create_then_claim created_db)
      ≡ ok (t, run create_then_claim created_db))
    × SameJob (new_row (at "a" 5) request 3) t
unfolding created_db
create_task-idempotent_example =
    create_task-idempotent (at "a" 5) request empty_db created_db (new_row (at "a" 5) request 3) "k"
      empty_db-IsValid refl refl create_then_claim (at "y" 7) again refl
      (refl, (1, refl, omega arith), refl, refl)

claim_task_succeeds_example :
    (db : Db) × (claim_task (at "b" 900) "t1" "w2" (pos 1) "worker" none none (with_task waiting)
      ≡ ok ((taken_row 900 60000900 "w2" waiting, "b-0"), db))
    × (task_by_id "t1" db ≡ some (taken_row 900 60000900 "w2" waiting))
    × (db.runs
        ≡ (run_of "r1" "t1" ∷ []) ++ (started_run (at "b" 900) "t1" "w2" "worker" none none ∷ []))
unfolding find string_eq plus_minutes is_claimable task_status_eq
claim_task_succeeds_example =
    claim_task_succeeds (at "b" 900) "t1" "w2" (pos 1) "worker" none none (with_task waiting)
      (refl, tt) refl 60000900 refl waiting (refl, omega arith, refl) (refl, refl)

claim_task_refused_example :
    claim_task (at "b" 900) "t9" "w2" (pos 1) "worker" none none (with_task waiting)
    ≡ raised (runtime_error "task is not claimable or retry budget is exhausted")
unfolding find string_eq plus_minutes
claim_task_refused_example =
    claim_task_refused (at "b" 900) "t9" "w2" (pos 1) "worker" none none (with_task waiting)
      (refl, tt) refl 60000900 refl (λ t may. cc (may.0))
