-- ===== src/Approvals/Laws.antt =====
-- Requests for approval in every state that the module's operations lead to.
use mathlib.Core.Path.{subst}
use personal_agent_runtime.Base.{
  String, false, Option, none, some, [], ◌∷◌, ◌++◌, ◌==◌, string_eq, ◌||◌, ◌≡◌, ◌≢◌, ◌⊎◌, inl, inr,
  refl, arith, Bool-cases, Option-cases, is_one,
}
use personal_agent_runtime.Base.Text.{strip, is_empty}
use personal_agent_runtime.Base.Table.{find, update, count}
use personal_agent_runtime.Base.Table.Rows.{count-none}
use personal_agent_runtime.Json.Canonical.{json_eq}
use personal_agent_runtime.Store.{◌|>>◌, Error, Result, ok, raised, ok-injective, Call}
use personal_agent_runtime.Approvals.{
  ApprovalStatus, pending, expired, approval_status_eq, Approval, NewApproval, Approvals, required,
  is_zero, is_key, is_id, checked_request, new_approval, is_same_request, replayed_request,
  insert_request, request_approval, decided_row, is_open, read_back, write_decision, decide_row,
  checked_decision, decide_approval, not_expired, write_expiry, expire_approval,
}

-- The calls that write
pub data Command : Type 0 where
  request : NewApproval → Command
  decide : String → String → String → String → Command
  expire : String → String → String → Command

-- The table after the `with` block: a call that raises writes nothing.
abbrev pub after : Result (Approval × Approvals) → Approvals → Approvals
after (raised e) rows = rows
after (ok (_, rows')) rows = rows'

unfoldable pub step : Call → Command → Approvals → Approvals
step c (request q) rows = after (request_approval c q rows) rows
step c (decide id decision by reason) rows =
    after (decide_approval c id decision by reason rows) rows
step c (expire id actor reason) rows = after (expire_approval c id actor reason rows) rows

-- What a call does to the table: nothing, a pending row under a new id and a new key, or the
-- settlement of the pending rows of an id in the name of somebody.
abbrev pub Change : Call → Approvals → Approvals → Type 0
Change c rows rows' =
    (rows' ≡ rows)
    ⊎ (((q : NewApproval) × (find (is_id (c.uuid 0)) rows ≡ none)
          × (find (is_key q.idempotency_key) rows ≡ none)
          × (rows' ≡ rows ++ new_approval c q ∷ []))
        ⊎ ((id : String) × (status : ApprovalStatus) × (by : String) × (why : String) × (status
              ≢ pending)
            × (is_empty by ≡ false)
            × (rows' ≡ update (is_open id) (decided_row c status by why) rows)))

bind-Change :
    {A : Type 0} (c : Call) (rows : Approvals) (r : Result A)
    (f : A → Result (Approval × Approvals))
    → ((a : A) → r ≡ ok a → Change c rows (after (f a) rows))
    → Change c rows (after (r |>> f) rows)
bind-Change c rows (raised e) f h = inl refl
bind-Change c rows (ok a) f h = h a refl

replayed-kept :
    (q : NewApproval) (rows : Approvals) (o : Option Approval)
    → after (replayed_request q rows o) rows ≡ rows
replayed-kept q rows none = refl
replayed-kept q rows (some r) = elim (Bool-cases (is_same_request q r)) [
  | inl e ↦ rw e refl
  | inr e ↦ rw e refl
]

insert_request-Change :
    (c : Call) (q : NewApproval) (rows : Approvals)
    → Change c rows (after (insert_request c q rows) rows)
unfolding insert_request
insert_request-Change c q rows =
    elim (Bool-cases
      (is_zero (count (λ r. is_id (c.uuid 0) r || is_key q.idempotency_key r) rows))) [
        | inl e ↦
            let (a, b) = count-none (is_id (c.uuid 0)) (is_key q.idempotency_key) rows e in
            inr (inl (q, a, b, rw e refl))
        | inr e ↦ inl (rw e (replayed-kept q rows (find (is_key q.idempotency_key) rows)))
      ]

-- An UPDATE is committed where the row can be read back.
read_back-after :
    (id : String) (e : Error) (rows rows' : Approvals)
    → (after (read_back id e rows') rows ≡ rows) ⊎ (after (read_back id e rows') rows ≡ rows')
read_back-after id e rows rows' = elim (Option-cases (find (is_id id) rows')) [
  | inl n ↦ inl (rw (after, n) refl)
  | inr (r, s) ↦ inr (rw (after, s) refl)
]

required-ok : (name value : String) {a : String} → required name value ≡ ok a → is_empty a ≡ false
required-ok name value {a} e = elim (Bool-cases (is_empty (strip value))) [
  | inl b ↦ absurd (ground (arith, e, b))
  | inr b ↦ subst (λ z. is_empty z ≡ false) (ok-injective (strip value) a (rw b at e)) b
]

module _ (c : Call) (id : String) (rows : Approvals) where
  write-Change :
      (status : ApprovalStatus) (by why : String) (x : Error)
      → status ≢ pending
      → is_empty by ≡ false
      → Change c rows
          (after (read_back id x (update (is_open id) (decided_row c status by why) rows)) rows)
  write-Change status by why x final named =
      elim (read_back-after id x rows (update (is_open id) (decided_row c status by why) rows)) [
        | inl e ↦ inl e
        | inr e ↦ inr (inr (id, status, by, why, final, named, e))
      ]

  decide_row-Change :
      (status : ApprovalStatus) (by why : String) (o : Option Approval)
      → status ≢ pending
      → is_empty by ≡ false
      → Change c rows (after (decide_row c id status by why o rows) rows)
  unfolding write_decision
  decide_row-Change status by why none final named = inl refl
  decide_row-Change status by why (some r) final named = elim (Bool-cases (r.status == pending)) [
    | inr b ↦ inl (rw b refl)
    | inl b ↦ rw b (elim (Bool-cases (is_one (count (is_open id) rows))) [
      | inr n ↦ inl (rw n refl)
      | inl n ↦ rw n (write-Change status by why _ final named)
    ])
  ]

  not_expired-kept : (o : Option Approval) → after (not_expired id o) rows ≡ rows
  not_expired-kept none = refl
  not_expired-kept (some r) = refl

  write_expiry-Change :
      (by why : String)
      → is_empty by ≡ false
      → Change c rows (after (write_expiry c id by why rows) rows)
  unfolding write_expiry
  write_expiry-Change by why named = elim (Bool-cases (is_one (count (is_open id) rows))) [
    | inr n ↦ inl (rw n (not_expired-kept (find (is_id id) rows)))
    | inl n ↦ rw n (write-Change expired by why _ (λ e. cc) named)
  ]

checked_decision-final : (d : String) {s : ApprovalStatus} → checked_decision d ≡ ok s → s ≢ pending
checked_decision-final d {s} e = λ p. ground (arith, e, p)

pub step-Change : (c : Call) (cmd : Command) (rows : Approvals) → Change c rows (step c cmd rows)
unfolding step request_approval decide_approval expire_approval
step-Change c (request q) rows =
    bind-Change c rows (checked_request q) (λ checked. insert_request c checked rows)
      (λ checked _. insert_request-Change c checked rows)
step-Change c (decide id decision by reason) rows =
    bind-Change c rows (required "approval_id" id) _ λ id' _.
      bind-Change c rows (checked_decision decision) _ λ status s.
        bind-Change c rows (required "decided_by" by) _ λ by' b.
          bind-Change c rows (required "reason" reason) _ λ why _.
            decide_row-Change c id' rows status by' why (find (is_id id') rows)
              (checked_decision-final decision s) (required-ok "decided_by" by b)
step-Change c (expire id actor reason) rows =
    bind-Change c rows (required "approval_id" id) _ λ id' _.
      bind-Change c rows (required "actor" actor) _ λ by' b.
        bind-Change c rows (required "reason" reason) _
          λ why _. write_expiry-Change c id' rows by' why (required-ok "actor" actor b)
