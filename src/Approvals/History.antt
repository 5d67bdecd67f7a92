-- ===== src/Approvals/History.antt =====
-- Histories of calls on the table of approval requests.
use personal_agent_runtime.Base.{
  String, false, Option, none, some, List, [], ◌∷◌, string_eq, if◌then◌else◌, ◌≡◌, ◌≢◌, inl, inr,
  refl, ◌∙◌, arith, All, All-append, Bool-cases,
}
use personal_agent_runtime.Base.Text.{is_empty}
use personal_agent_runtime.Base.Table.{find}
use personal_agent_runtime.Base.Table.Rows.{All-update}
use personal_agent_runtime.Base.Table.Keys.{
  by_key-update, Distinct, Distinct-update, Distinct-append, by_key-append_old,
}
use personal_agent_runtime.Json.Canonical.{json_eq}
use personal_agent_runtime.Store.{Call}
use personal_agent_runtime.Approvals.{
  ApprovalStatus, pending, approved, rejected, expired, approval_status_eq, Approval, Approvals,
  is_key, is_id, new_approval, decided_row, is_open, get_approval,
}
use personal_agent_runtime.Approvals.Laws.{Command, step, Change, step-Change}

abbrev pub History : Type 0
History = List (Call × Command)

unfoldable pub run_calls : History → Approvals → Approvals
run_calls [] rows = rows
run_calls ((c, cmd) ∷ rest) rows = run_calls rest (step c cmd rows)

-- A pending request has no decider; any other was decided in somebody's name.
abbrev pub IsSettled : ApprovalStatus → Option String → Type 0
IsSettled pending none = Unit
IsSettled pending (some _) = ⊥
IsSettled _ none = ⊥
IsSettled _ (some by) = is_empty by ≡ false

abbrev pub IsValid : Approvals → Type 0
IsValid rows =
    Distinct (λ r. r.id) rows
    × Distinct (λ r. r.idempotency_key) rows
    × All (λ r. IsSettled r.status r.decided_by) rows

settled :
    (status : ApprovalStatus) (by : String)
    → status ≢ pending
    → is_empty by ≡ false
    → IsSettled status (some by)
settled pending by final named = absurd (final refl)
settled approved by final named = named
settled rejected by final named = named
settled expired by final named = named

Change-IsValid :
    (c : Call) (rows rows' : Approvals) → Change c rows rows' → IsValid rows → IsValid rows'
Change-IsValid c rows rows' (inl e) v = rw e v
Change-IsValid c rows rows' (inr (inl (q, new_id, new_key, e))) (ids, keys, all) = rw e (
  Distinct-append (λ r. r.id) rows (new_approval c q) new_id ids,
  Distinct-append (λ r. r.idempotency_key) rows (new_approval c q) new_key keys,
  All-append (λ r. IsSettled r.status r.decided_by) rows (new_approval c q ∷ []) all (tt, tt),
)
Change-IsValid c rows rows' (inr (inr (id, status, by, why, final, named, e))) (ids, keys, all) =
    rw e (
      Distinct-update (λ r. r.id) (is_open id) (decided_row c status by why) rows (λ r. refl) ids,
      Distinct-update (λ r. r.idempotency_key) (is_open id) (decided_row c status by why) rows
          (λ r. refl) keys,
      All-update (λ r. IsSettled r.status r.decided_by) (is_open id) (decided_row c status by why)
          rows (λ r h t. settled status by final named) all,
    )

run_calls-IsValid_from :
    (h : History) (rows : Approvals) → IsValid rows → IsValid (run_calls h rows)
unfolding run_calls
run_calls-IsValid_from [] rows v = v
run_calls-IsValid_from ((c, cmd) ∷ rest) rows v =
    run_calls-IsValid_from rest (step c cmd rows)
      (Change-IsValid c rows (step c cmd rows) (step-Change c cmd rows) v)

-- After any history of calls on an empty table, ids and idempotency keys are unique, a pending request
-- has no decider, and any other was decided in the name of somebody.
pub run_calls-IsValid : (h : History) → IsValid (run_calls h [])
run_calls-IsValid h = run_calls-IsValid_from h [] (tt, tt, tt)

Change-final :
    (c : Call) (k : String) (rows rows' : Approvals) (r : Approval)
    → Change c rows rows'
    → find (is_id k) rows ≡ some r
    → r.status ≢ pending
    → find (is_id k) rows' ≡ some r
unfolding is_open
Change-final c k rows rows' r (inl e) here final = rw e here
Change-final c k rows rows' r (inr (inl (q, new_id, new_key, e))) here final =
    rw e (by_key-append_old (λ x. x.id) k rows (new_approval c q) {x = r} here)
Change-final c k rows rows' r (inr (inr (id, status, by, why, _, _, e))) here final = rw e (
    by_key-update (λ x. x.id) k (is_open id) (decided_row c status by why) rows (λ x. refl)
    ∙ rw here (ground arith))

-- A request that was approved, rejected or expired stays exactly as it is, whatever calls follow.
pub run_calls-final :
    (h : History) (k : String) (rows : Approvals) (r : Approval)
    → get_approval k rows ≡ some r
    → r.status ≢ pending
    → get_approval k (run_calls h rows) ≡ some r
unfolding run_calls get_approval
run_calls-final [] k rows r here final = here
run_calls-final ((c, cmd) ∷ rest) k rows r here final =
    run_calls-final rest k (step c cmd rows) r
      (Change-final c k rows (step c cmd rows) r (step-Change c cmd rows) here final) final

-- What a request asks for does not change.
abbrev pub SameRequest : Approval → Approval → Type 0
SameRequest r s =
    (r.id ≡ s.id)
    × (r.idempotency_key ≡ s.idempotency_key)
    × (r.subject_type ≡ s.subject_type)
    × (r.subject_id ≡ s.subject_id)
    × (r.action ≡ s.action)
    × (r.scope ≡ s.scope)
    × (r.requested_by ≡ s.requested_by)

Change-SameRequest :
    (c : Call) (key : String) (rows rows' : Approvals) (r : Approval)
    → Change c rows rows'
    → find (is_key key) rows ≡ some r
    → (r' : Approval) × (find (is_key key) rows' ≡ some r') × SameRequest r r'
unfolding is_open
Change-SameRequest c key rows rows' r (inl e) here = (r, rw e here, ground arith)
Change-SameRequest c key rows rows' r (inr (inl (q, new_id, new_key, e))) here = (
  r,
  rw e (by_key-append_old (λ x. x.idempotency_key) key rows (new_approval c q) {x = r} here),
  ground arith,
)
Change-SameRequest c key rows rows' r (inr (inr (id, status, by, why, _, _, e))) here = (
  if is_open id r then decided_row c status by why r else r,
  rw e (
      by_key-update (λ x. x.idempotency_key) key (is_open id) (decided_row c status by why) rows
        (λ x. refl)
      ∙ rw here refl),
  elim (Bool-cases (is_open id r)) [ inl o ↦ rw o (ground arith) | inr o ↦ rw o (ground arith) ],
)

pub run_calls-SameRequest :
    (h : History) (key : String) (rows : Approvals) (r : Approval)
    → find (is_key key) rows ≡ some r
    → (r' : Approval) × (find (is_key key) (run_calls h rows) ≡ some r') × SameRequest r r'
unfolding run_calls
run_calls-SameRequest [] key rows r here = (r, here, ground arith)
run_calls-SameRequest ((c, cmd) ∷ rest) key rows r here =
    let (r', after, same) =
      Change-SameRequest c key rows (step c cmd rows) r (step-Change c cmd rows) here in
    let (r'', later, same') = run_calls-SameRequest rest key (step c cmd rows) r' after in
    (r'', later, ground arith)
