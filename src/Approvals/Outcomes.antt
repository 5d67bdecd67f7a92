-- ===== src/Approvals/Outcomes.antt =====
-- What a request and a decision return.
use personal_agent_runtime.Base.{
  ℕ, ◌⊎◌, String, true, some, string_eq, ◌||◌, ◌≡◌, inl, inr, refl, ◌∙◌, arith, Bool-cases,
  Option-cases,
}
use personal_agent_runtime.Base.Text.{strip, is_empty}
use personal_agent_runtime.Base.Table.{find, update, count}
use personal_agent_runtime.Base.Table.Rows.{count-none, find-test}
use personal_agent_runtime.Base.Table.Keys.{by_key-update, by_key-append_new}
use personal_agent_runtime.Json.Canonical.{json_eq}
use personal_agent_runtime.Store.{◌|>>◌, bind-ok, Result, ok, Call}
use personal_agent_runtime.Approvals.{
  ApprovalStatus, pending, approved, rejected, approval_status_eq, Approval, NewApproval, Approvals,
  required, is_zero, is_key, is_id, is_open, is_same_request, checked_request, new_approval,
  insert_request, request_approval, decided_row, decide_row, write_decision, checked_decision,
  decide_approval, get_approval,
}
use personal_agent_runtime.Approvals.History.{
  History, run_calls, SameRequest, run_calls-SameRequest,
}

module _ (c : Call) (q : NewApproval) (rows : Approvals) where
  -- The row that is returned has the key, and is what was asked for.
  insert_request-ok :
      (r : Approval) (rows' : Approvals)
      → insert_request c q rows ≡ ok (r, rows')
      → (find (is_key q.idempotency_key) rows' ≡ some r) × (is_same_request q r ≡ true)
  unfolding insert_request
  insert_request-ok r rows' e =
      elim (Bool-cases
        (is_zero (count (λ x. is_id (c.uuid 0) x || is_key q.idempotency_key x) rows))) [
          | inl z ↦
              let free = (count-none (is_id (c.uuid 0)) (is_key q.idempotency_key) rows z).1 in
              (
                ground (
                  arith,
                  e,
                  z,
                  by_key-append_new (λ x. x.idempotency_key) rows (new_approval c q) free,
                ),
                ground (arith, e, z),
              )
          | inr z ↦ elim (Option-cases (find (is_key q.idempotency_key) rows)) [
            | inl n ↦ absurd (ground (arith, e, z, n))
            | inr (x, s) ↦ elim (Bool-cases (is_same_request q x)) [
              | inl y ↦ (ground (arith, e, z, s, y), ground (arith, e, z, s, y))
              | inr y ↦ absurd (ground (arith, e, z, s, y))
            ]
          ]
        ]

  -- A row with the key that is what is asked for is returned, and nothing is written.
  insert_request-replays :
      (r : Approval)
      → find (is_key q.idempotency_key) rows ≡ some r
      → is_same_request q r ≡ true
      → insert_request c q rows ≡ ok (r, rows)
  unfolding insert_request
  insert_request-replays r here same =
      elim (Bool-cases
        (is_zero (count (λ x. is_id (c.uuid 0) x || is_key q.idempotency_key x) rows))) [
          | inl z ↦
              absurd
                (cc ((count-none (is_id (c.uuid 0)) (is_key q.idempotency_key) rows z).1, here))
          | inr z ↦ rw z (rw here (rw same refl))
        ]

same_request :
    (q : NewApproval) (r s : Approval)
    → is_same_request q r ≡ true
    → SameRequest r s
    → is_same_request q s ≡ true
same_request q r s e (_, _, a, b, d, f, g) = rw (← a, ← b, ← d, ← f, ← g) e

-- A request that was accepted is accepted again, whatever calls came between: it returns the request
-- under its key, which asks for the same, and writes nothing.
pub request_approval-idempotent :
    (c c' : Call) (q : NewApproval) (h : History) (rows rows' : Approvals) (r : Approval)
    → request_approval c q rows ≡ ok (r, rows')
    → (r' : Approval) × (request_approval c' q (run_calls h rows') ≡ ok (r', run_calls h rows'))
      × SameRequest r r'
unfolding request_approval
request_approval-idempotent c c' q h rows rows' r e =
    let (checked, passed, inserted) =
      bind-ok (checked_request q) (λ x. insert_request c x rows) (r, rows') e in
    let (here, same) = insert_request-ok c checked rows r rows' inserted in
    let (r', later, kept) = run_calls-SameRequest h checked.idempotency_key rows' r here in
    (
      r',
      rw passed (
          insert_request-replays c' checked (run_calls h rows') r' later
            (same_request checked r r' same kept)),
      kept,
    )

bind_required-ok :
    {B : Type 0} (name value : String) (f : String → Result B) (b : B)
    → (required name value |>> f) ≡ ok b
    → f (strip value) ≡ ok b
bind_required-ok name value f b e = elim (Bool-cases (is_empty (strip value))) [
  | inl empty ↦ absurd (cc (rw empty at e))
  | inr given ↦ rw given at e
]

-- The row of an id after the UPDATE, where it was pending
settled_row :
    (c : Call) (id : String) (status : ApprovalStatus) (by why : String) (rows : Approvals)
    (old : Approval)
    → find (is_id id) rows ≡ some old
    → old.status ≡ pending
    → find (is_id id) (update (is_open id) (decided_row c status by why) rows)
      ≡ some (decided_row c status by why old)
unfolding is_open
settled_row c id status by why rows old here p =
    by_key-update (λ x. x.id) id (is_open id) (decided_row c status by why) rows (λ x. refl)
    ∙ rw here (ground (arith, p, find-test (is_id id) rows {x = old} here))

-- The UPDATE of a row that was read as pending
decide_row-ok :
    (c : Call) (id : String) (status : ApprovalStatus) (by why : String) (rows rows' : Approvals)
    (r : Approval)
    → decide_row c id status by why (find (is_id id) rows) rows ≡ ok (r, rows')
    → (old : Approval) × (find (is_id id) rows ≡ some old)
      × (old.status ≡ pending)
      × (r ≡ decided_row c status by why old)
      × (find (is_id id) rows' ≡ some r)
unfolding write_decision
decide_row-ok c id status by why rows rows' r e = elim (Option-cases (find (is_id id) rows)) [
  | inl n ↦ absurd (ground (arith, e, n))
  | inr (old, s) ↦ elim (approval_status_eq.dec old.status pending) [
    | no n ↦ absurd (ground (arith, e, s, n))
    | yes p ↦
        let after = settled_row c id status by why rows old s p in
        (old, s, p, ground (arith, e, s, p, after), ground (arith, e, s, p, after))
  ]
]

-- The decision that a text asks for
abbrev pub AsksFor : String → ApprovalStatus → Type 0
AsksFor decision status =
    ((decision ≡ "approved") × (status ≡ approved))
    ⊎ ((decision ≡ "rejected") × (status ≡ rejected))

checked_decision-AsksFor :
    (decision : String) (status : ApprovalStatus)
    → checked_decision decision ≡ ok status
    → AsksFor decision status
checked_decision-AsksFor decision status e = elim (string_eq.dec decision "approved") [
  | yes p ↦ inl (p, ground (arith, e, p))
  | no n ↦ elim (string_eq.dec decision "rejected") [
    | yes q ↦ inr (q, ground (arith, e, n, q))
    | no m ↦ absurd (ground (arith, e, n, m))
  ]
]

-- A pending request and the same request once it was decided, field by field
abbrev pub IsDecided : ApprovalStatus → String → String → ℕ → Approval → Approval → Type 0
IsDecided status by why now old r =
    (old.status ≡ pending)
    × (r.status ≡ status)
    × (r.decided_by ≡ some by)
    × (r.decision_reason ≡ some why)
    × (r.decided_at ≡ some now)
    × (r.updated_at ≡ now)
    × (r.created_at ≡ old.created_at)
    × SameRequest old r

decided_row-IsDecided :
    (c : Call) (status : ApprovalStatus) (by why : String) (old r : Approval)
    → old.status ≡ pending
    → r ≡ decided_row c status by why old
    → IsDecided status by why c.now old r
decided_row-IsDecided c status by why old r p e = ground (arith, p, e)

-- A decision that returned was made about a stored request that was pending: the row that is returned
-- and stored is approved or rejected as the decision says, names the decider and the reason, both
-- stripped, and the time of the call, and has the identity and the content that it had.
pub decide_approval-ok :
    (c : Call) (id decision by reason : String) (rows rows' : Approvals) (r : Approval)
    → decide_approval c id decision by reason rows ≡ ok (r, rows')
    → (old : Approval) × (status : ApprovalStatus) × (get_approval (strip id) rows ≡ some old)
      × AsksFor decision status
      × IsDecided status (strip by) (strip reason) c.now old r
      × (get_approval (strip id) rows' ≡ some r)
unfolding decide_approval get_approval
decide_approval-ok c id decision by reason rows rows' r e =
    let e1 = bind_required-ok "approval_id" id _ (r, rows') e in
    let (status, s, e2) = bind-ok (checked_decision decision) _ (r, rows') e1 in
    let e3 = bind_required-ok "decided_by" by _ (r, rows') e2 in
    let e4 = bind_required-ok "reason" reason _ (r, rows') e3 in
    let (old, here, p, decided, there) =
      decide_row-ok c (strip id) status (strip by) (strip reason) rows rows' r e4 in
    (
      old,
      status,
      here,
      checked_decision-AsksFor decision status s,
      decided_row-IsDecided c status (strip by) (strip reason) old r p decided,
      there,
    )
