-- ===== src/Commands.antt =====
-- Short human commands, resolved from the durable state: par/commands.py. They only read.
pub mod Laws
use personal_agent_runtime.Base.{
  ℕ, String, ◌<>◌, Bool, true, false, Option, none, some, List, [], ◌∷◌, ◌==◌, string_eq,
  if◌then◌else◌, not, ◌&&◌, ◌||◌, length,
}
use personal_agent_runtime.Base.Text.{strip, is_empty}
use personal_agent_runtime.Base.Table.{select}
use personal_agent_runtime.Capabilities.Names.{lower}
use personal_agent_runtime.Store.{Db, value_error, runtime_error, Result, ok, raised, ◌|>>◌}
use personal_agent_runtime.Reconcile.{
  FindingType, pending_independent_review, rejected_independent_review, dead_lettered, stale_lease,
  failed_work, retry_budget_exhausted, independent_review_evidence_gap, completion_evidence_gap,
  unmaterialized_next_action, orphan_running_run, Finding, Reconciliation, reconcile,
}
use personal_agent_runtime.Scheduler.{Decision, idle, decision_kind_eq, decide}

abbrev pub finding_type_text : FindingType → String
finding_type_text pending_independent_review = "pending_independent_review"
finding_type_text rejected_independent_review = "rejected_independent_review"
finding_type_text dead_lettered = "dead_letter"
finding_type_text stale_lease = "stale_lease"
finding_type_text failed_work = "failed_work"
finding_type_text retry_budget_exhausted = "retry_budget_exhausted"
finding_type_text independent_review_evidence_gap = "independent_review_evidence_gap"
finding_type_text completion_evidence_gap = "completion_evidence_gap"
finding_type_text unmaterialized_next_action = "unmaterialized_next_action"
finding_type_text orphan_running_run = "orphan_running_run"

pub record Target : Type 0 where
  pub finding_type : Option String
  pub task_id : Option String

-- The result of a command. All are marked as read-only and not mutating.
pub data Resolution : Type 0 where
  checked : Reconciliation → Decision → Resolution
  continue_idle next_action_available : Decision → Reconciliation → Resolution
  needs_target : Reconciliation → Resolution
  target_not_found : Target → Resolution
  -- with the number of findings that match
  ambiguous_target : Target → ℕ → Resolution
  -- with the finding and the decision; the proposed action is the finding's
  fix_proposed : Finding → Decision → Resolution

-- `_projection`; without a state file there is nothing to read.
abbrev pub projection :
    ℕ → Option String → (path : String) → Option Db → Result (Reconciliation × Decision)
projection now worker path none =
    raised (runtime_error ("runtime state is not initialized: " <> path))
projection now worker path (some db) =
    let reconciliation = reconcile now db in
    elim (decide now worker (some reconciliation) db) [
      | raised e ↦ raised e
      | ok scheduler ↦ ok (reconciliation, scheduler)
    ]

-- `_chk`
abbrev pub chk : Reconciliation × Decision → Resolution
chk (reconciliation, scheduler) = checked reconciliation scheduler

-- `_continue`
abbrev pub continue_command : Reconciliation × Decision → Resolution
continue_command (reconciliation, scheduler) =
    if scheduler.decision == idle
    then continue_idle scheduler reconciliation
    else next_action_available scheduler reconciliation

-- Whether a text is given, as the truth of an optional text
abbrev pub is_given : Option String → Bool
is_given none = false
is_given (some s) = not (is_empty s)

-- `wanted is None or value == wanted`
abbrev pub is_wanted : Option String → String → Bool
is_wanted none value = true
is_wanted (some wanted) value = value == wanted

unfoldable pub matches_target : Target → Finding → Bool
matches_target target f =
    is_wanted target.finding_type (finding_type_text f.type) && is_wanted target.task_id f.task_id

abbrev pub proposed : Target → Decision → List Finding → Resolution
proposed target scheduler [] = target_not_found target
proposed target scheduler (f ∷ []) = fix_proposed f scheduler
proposed target scheduler (f ∷ (g ∷ rest)) = ambiguous_target target (length (f ∷ (g ∷ rest)))

-- `_fix`
unfoldable pub fix : Target → Reconciliation × Decision → Resolution
unfolding matches_target
fix target (reconciliation, scheduler) =
    if not (is_given target.finding_type) && not (is_given target.task_id)
    then needs_target reconciliation
    else proposed target scheduler (select (matches_target target) reconciliation.findings)

abbrev pub without_target : String → Target → Result Resolution → Result Resolution
without_target name target result =
    if is_given target.finding_type || is_given target.task_id
    then raised (value_error (name <> " does not accept a fix target"))
    else result

unfoldable pub resolve_command :
    ℕ → String → Option String → Target → (path : String) → Option Db → Result Resolution
unfolding fix
resolve_command now command worker target path state =
    let normalized = lower (strip command) in
    let projected = projection now worker path state in
    if normalized == "chk"
    then without_target "chk" target (projected |>> λ p. ok (chk p))
    else if normalized == "continue"
    then without_target "continue" target (projected |>> λ p. ok (continue_command p))
    else if normalized == "fix"
    then (projected |>> λ p. ok (fix target p))
    else raised (value_error ("unsupported command: " <> command))
