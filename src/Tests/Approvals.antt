-- ===== src/Tests/Approvals.antt =====
-- Requests for approval at concrete data.
use personal_agent_runtime.Base.{some, [], ◌∷◌, ◌≡◌, refl, string_eq, option_eq}
use personal_agent_runtime.Base.Table.{find, update, count}
use personal_agent_runtime.Base.Text.{strip}
use personal_agent_runtime.Json.{obj, end}
use personal_agent_runtime.Json.Canonical.{json_eq, canonical, is_finite}
use personal_agent_runtime.Store.{ok}
use personal_agent_runtime.Approvals.{
  json_object, ApprovalStatus, approved, approval_status_eq, Approval, NewApproval, new_approval,
  request_approval, decided_row, decide_approval, get_approval,
}
use personal_agent_runtime.Approvals.Laws.{request, decide, expire}
use personal_agent_runtime.Approvals.History.{
  History, run_calls, IsValid, SameRequest, run_calls-IsValid, run_calls-final,
}
use personal_agent_runtime.Approvals.Outcomes.{
  AsksFor, IsDecided, request_approval-idempotent, decide_approval-ok,
}
use personal_agent_runtime.Tests.Data.{at}

abbrev wish : NewApproval
wish = record {
  idempotency_key = "k";
  subject_type = "task";
  subject_id = "t1";
  action = "merge";
  requested_by = "w1";
  scope = obj end;
}

abbrev open_row : Approval
open_row = new_approval (at "a" 5) wish

abbrev closed_row : Approval
closed_row = decided_row (at "b" 6) approved "human" "fine" open_row

abbrev calls : History
calls =
    (at "b" 6, decide "a-0" "approved" " human" "fine")
    ∷ (at "c" 7, expire "a-0" "w2" "late")
    ∷ (at "d" 8, request wish)
    ∷ []

run_calls-IsValid_example : IsValid (run_calls ((at "a" 5, request wish) ∷ calls) [])
run_calls-IsValid_example = run_calls-IsValid ((at "a" 5, request wish) ∷ calls)

run_calls-final_example : get_approval "a-0" (run_calls calls (closed_row ∷ [])) ≡ some closed_row
unfolding get_approval find string_eq
run_calls-final_example = run_calls-final calls "a-0" (closed_row ∷ []) closed_row refl (λ e. cc)

request_approval-idempotent_example :
    (r : Approval) × (request_approval (at "z" 9) wish (run_calls calls (open_row ∷ []))
      ≡ ok (r, run_calls calls (open_row ∷ [])))
    × SameRequest open_row r
unfolding request_approval find count string_eq strip json_object canonical is_finite
request_approval-idempotent_example =
    request_approval-idempotent (at "a" 5) (at "z" 9) wish calls [] (open_row ∷ []) open_row refl

decide_approval-ok_example :
    (old : Approval) × (status : ApprovalStatus) × (get_approval (strip "a-0 ") (open_row ∷ [])
      ≡ some old)
    × AsksFor "approved" status
    × IsDecided status (strip " human") (strip "fine") 6 old closed_row
    × (get_approval (strip "a-0 ") (closed_row ∷ []) ≡ some closed_row)
unfolding decide_approval find count update strip string_eq approval_status_eq
decide_approval-ok_example =
    decide_approval-ok (at "b" 6) "a-0 " "approved" " human" "fine" (open_row ∷ [])
      (closed_row ∷ []) closed_row refl
