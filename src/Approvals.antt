-- ===== src/Approvals.antt =====
-- Approval requests: par/approvals.py. Their table stands alone.
pub mod Laws
pub mod History
pub mod Outcomes
use personal_agent_runtime.Base.{
  ℕ, ℤ, pos, negsuc, String, ◌<>◌, Bool, true, false, Option, none, some, List, [], ◌∷◌, ◌++◌, ◌==◌,
  string_eq, option_eq, if◌then◌else◌, not, ◌&&◌, ◌||◌, Eq, ltb, leb, is_one, take,
}
use text.Mathlib.Text.{is_lt}
use Prim.Native.String.{compare}
use personal_agent_runtime.Base.Text.{strip, is_empty}
use personal_agent_runtime.Base.Table.{select, find, update, count}
use personal_agent_runtime.Base.Table.Order.{by_time_and_id}
use personal_agent_runtime.Json.{Json, null, obj, end}
use personal_agent_runtime.Json.Canonical.{json_eq, canonical, canonical_fields, are_finite}
use personal_agent_runtime.Store.{
  ◌|>>◌, checked_limit, Error, value_error, key_error, runtime_error, type_error, Result, ok,
  raised, Call,
}

pub data ApprovalStatus : Type 0 where
  pending approved rejected expired : ApprovalStatus

ApprovalStatus-discrete : Discrete ApprovalStatus
ApprovalStatus-discrete = hlevel

instance unfoldable pub approval_status_eq : Eq ApprovalStatus
unfolding ApprovalStatus-discrete
approval_status_eq = record { dec = ApprovalStatus-discrete }

abbrev pub status_text : ApprovalStatus → String
status_text pending = "pending"
status_text approved = "approved"
status_text rejected = "rejected"
status_text expired = "expired"

-- A row of `approval_requests`; `scope` is the value that `scope_json` encodes.
pub record Approval : Type 0 where
  pub id : String
  pub idempotency_key : String
  pub subject_type : String
  pub subject_id : String
  pub action : String
  pub scope : Json
  pub status : ApprovalStatus
  pub requested_by : String
  pub decided_by : Option String
  pub decision_reason : Option String
  pub created_at : ℕ
  pub updated_at : ℕ
  pub decided_at : Option ℕ

-- The arguments of `request_approval`; a scope that is not given is `null`.
pub record NewApproval : Type 0 where
  pub idempotency_key : String
  pub subject_type : String
  pub subject_id : String
  pub action : String
  pub requested_by : String
  pub scope : Json

abbrev pub Approvals : Type 0
Approvals = List Approval

-- `_required`
abbrev pub required : String → String → Result String
required name value =
    if is_empty (strip value)
    then raised (value_error (name <> " must be non-empty"))
    else ok (strip value)

-- `_json_object`: the value that its text encodes, with the keys in order
unfoldable pub json_object : String → Json → Result Json
unfolding canonical
json_object name null = ok (obj end)
json_object name (obj d) =
    if are_finite d
    then ok (obj (canonical_fields d))
    else raised (value_error "Out of range float values are not JSON compliant")
json_object name _ = raised (value_error (name <> " must be a JSON object"))

abbrev pub is_zero : ℕ → Bool
is_zero n = leb n 0

abbrev pub is_key : String → Approval → Bool
is_key key r = r.idempotency_key == key

abbrev pub is_id : String → Approval → Bool
is_id id r = r.id == id

-- The request with its texts stripped, in the order in which they are asked for
abbrev pub checked_request : NewApproval → Result NewApproval
checked_request q = required "idempotency_key" q.idempotency_key |>> λ key.
    required "subject_type" q.subject_type |>> λ subject_type.
    required "subject_id" q.subject_id |>> λ subject_id. required "action" q.action |>> λ action.
    required "requested_by" q.requested_by |>> λ requested_by.
    json_object "scope" q.scope |>> λ scope. ok (record {
      idempotency_key = key;
      subject_type = subject_type;
      subject_id = subject_id;
      action = action;
      requested_by = requested_by;
      scope = scope;
    })

abbrev pub new_approval : Call → NewApproval → Approval
new_approval c q = record {
  id = c.uuid 0;
  idempotency_key = q.idempotency_key;
  subject_type = q.subject_type;
  subject_id = q.subject_id;
  action = q.action;
  scope = q.scope;
  status = pending;
  requested_by = q.requested_by;
  decided_by = none;
  decision_reason = none;
  created_at = c.now;
  updated_at = c.now;
  decided_at = none;
}

-- `actual == expected`
abbrev pub is_same_request : NewApproval → Approval → Bool
is_same_request q r =
    r.subject_type == q.subject_type
    && (r.subject_id == q.subject_id
        && (r.action == q.action && (r.scope == q.scope && r.requested_by == q.requested_by)))

-- An insert that was ignored for a row with the same key
abbrev pub replayed_request :
    NewApproval → Approvals → Option Approval → Result (Approval × Approvals)
replayed_request q rows none =
    raised (runtime_error "idempotent approval insert was ignored without an existing request")
replayed_request q rows (some r) =
    if is_same_request q r
    then ok (r, rows)
    else raised (value_error "idempotency_key was reused with a different approval request")

-- `INSERT OR IGNORE` and what follows it
unfoldable pub insert_request : Call → NewApproval → Approvals → Result (Approval × Approvals)
insert_request c q rows =
    if is_zero (count (λ r. is_id (c.uuid 0) r || is_key q.idempotency_key r) rows)
    then ok (new_approval c q, rows ++ new_approval c q ∷ [])
    else replayed_request q rows (find (is_key q.idempotency_key) rows)

unfoldable pub request_approval : Call → NewApproval → Approvals → Result (Approval × Approvals)
unfolding insert_request
request_approval c q rows = checked_request q |>> λ checked. insert_request c checked rows

-- `decision in {"approved", "rejected"}`
abbrev pub decision_of : String → Option ApprovalStatus
decision_of d =
    if d == "approved" then some approved else if d == "rejected" then some rejected else none

abbrev pub decided_row : Call → ApprovalStatus → String → String → Approval → Approval
decided_row c status decided_by reason r = record r {
  status = status;
  decided_by = some decided_by;
  decision_reason = some reason;
  decided_at = some c.now;
  updated_at = c.now;
}

-- The WHERE of both UPDATEs
unfoldable pub is_open : String → Approval → Bool
is_open id r = r.id == id && r.status == pending

abbrev pub terminal : Approval → Error
terminal r = value_error ("approval request is terminal: " <> status_text r.status)

-- The row that is read back after an UPDATE
abbrev pub read_back : String → Error → Approvals → Result (Approval × Approvals)
read_back id error rows = elim (find (is_id id) rows) [
  | none ↦ raised error
  | some r ↦ ok (r, rows)
]

-- The UPDATE of `decide_approval`, for a row that was read as pending
unfoldable pub write_decision :
    Call → String → ApprovalStatus → String → String → Approvals → Result (Approval × Approvals)
unfolding is_open
write_decision c id status decided_by reason rows =
    if is_one (count (is_open id) rows)
    then read_back id (runtime_error "approval decision was not persisted")
        (update (is_open id) (decided_row c status decided_by reason) rows)
    else raised (runtime_error "approval decision lost a concurrent terminal-state race")

abbrev pub decide_row :
    Call
    → String
    → ApprovalStatus
    → String
    → String
    → Option Approval
    → Approvals
    → Result (Approval × Approvals)
decide_row c id status decided_by reason none rows =
    raised (key_error ("approval request not found: " <> id))
decide_row c id status decided_by reason (some r) rows =
    if not (r.status == pending)
    then raised (terminal r)
    else write_decision c id status decided_by reason rows

abbrev pub checked_decision : String → Result ApprovalStatus
checked_decision decision = elim (decision_of decision) [
  | none ↦ raised (value_error "decision must be approved or rejected")
  | some status ↦ ok status
]

unfoldable pub decide_approval :
    Call → String → String → String → String → Approvals → Result (Approval × Approvals)
unfolding write_decision
decide_approval c approval_id decision decided_by reason rows =
    required "approval_id" approval_id |>> λ id. checked_decision decision |>> λ status.
    required "decided_by" decided_by |>> λ decider. required "reason" reason |>> λ why.
    decide_row c id status decider why (find (is_id id) rows) rows

-- What `expire_approval` says of a row that it did not change
abbrev pub not_expired : String → Option Approval → Result (Approval × Approvals)
not_expired id none = raised (key_error ("approval request not found: " <> id))
not_expired id (some r) = raised (terminal r)

unfoldable pub write_expiry :
    Call → String → String → String → Approvals → Result (Approval × Approvals)
unfolding is_open
write_expiry c id actor reason rows =
    if is_one (count (is_open id) rows)
    then read_back id type_error (update (is_open id) (decided_row c expired actor reason) rows)
    else not_expired id (find (is_id id) rows)

unfoldable pub expire_approval :
    Call → String → String → String → Approvals → Result (Approval × Approvals)
unfolding write_expiry
expire_approval c approval_id actor reason rows = required "approval_id" approval_id |>> λ id.
    required "actor" actor |>> λ who.
    required "reason" reason |>> λ why. write_expiry c id who why rows

unfoldable pub get_approval : String → Approvals → Option Approval
get_approval approval_id rows = find (is_id approval_id) rows

-- `ORDER BY created_at ASC, id ASC`
listed : Approvals → Approvals
listed = by_time_and_id (λ r. r.created_at) (λ r. r.id)

-- `_STATUS_VALUES`
abbrev pub status_of : String → Option ApprovalStatus
status_of s =
    if s == "pending" then some pending else if s == "expired" then some expired else decision_of s

abbrev pub checked_status : Option String → Result (Option ApprovalStatus)
checked_status none = ok none
checked_status (some s) = elim (status_of s) [
  | none ↦ raised (value_error ("invalid approval status: " <> s))
  | some status ↦ ok (some status)
]

abbrev pub has_status : Option ApprovalStatus → Approval → Bool
has_status none r = true
has_status (some status) r = r.status == status

unfoldable pub list_approvals : Option String → ℤ → Approvals → Result Approvals
unfolding listed
list_approvals status limit rows = checked_status status |>> λ wanted.
    checked_limit limit |>> λ n. ok (take n (listed (select (has_status wanted) rows)))
