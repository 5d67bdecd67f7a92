-- ===== src/Commands/Laws.antt =====
-- What a fix proposes is due, and is the only thing that the target can mean.
use mathlib.Core.Path.{subst}
use personal_agent_runtime.Base.{
  ℕ, String, Bool, true, Option, some, List, [], ◌∷◌, string_eq, not, ◌&&◌, ◌||◌, ◌≡◌, inl, inr,
  sym, ap, ◌∙◌, arith, Bool-cases, any,
}
use personal_agent_runtime.Base.Text.{strip}
use personal_agent_runtime.Base.Table.{select}
use personal_agent_runtime.Base.Table.Keys.{Distinct}
use personal_agent_runtime.Capabilities.Names.{lower}
use personal_agent_runtime.Store.{Task, Db, Result, ok, task_by_id, ◌|>>◌, bind-ok, ok-injective}
use personal_agent_runtime.Tasks.Effects.{Result-cases}
use personal_agent_runtime.Reconcile.{Finding, Reconciliation, reconcile}
use personal_agent_runtime.Reconcile.Reports.{reports}
use personal_agent_runtime.Reconcile.Due.{Due, reported-Due, reports_self}
use personal_agent_runtime.Scheduler.{Decision, idle, decision_kind_eq, decide}
use personal_agent_runtime.Commands.{
  Target, Resolution, fix_proposed, is_given, projection, chk, continue_command, matches_target,
  proposed, fix, without_target, resolve_command,
}

-- A row that a SELECT keeps first is in the table.
any-select :
    {A : Type 0} (p q : A → Bool) (xs : List A) (y : A) (ys : List A)
    → select p xs ≡ y ∷ ys
    → q y ≡ true
    → any q xs ≡ true
unfolding select
any-select p q [] y ys e h = cc
any-select p q (x ∷ xs) y ys e h = elim (Bool-cases (p x)) [
  | inl t ↦ ground (arith, e, t, h)
  | inr f ↦ ground (arith, e, f, h, any-select p q xs y ys)
]

proposed-one :
    (target : Target) (s d : Decision) (fs : List Finding) (f : Finding)
    → proposed target s fs ≡ fix_proposed f d
    → (fs ≡ f ∷ []) × (s ≡ d)
proposed-one target s d [] f h = cc
proposed-one target s d (g ∷ []) f h = (ground (arith, h), ground (arith, h))
proposed-one target s d (g ∷ (g' ∷ rest)) f h = cc

-- The one finding that matches the target
abbrev pub IsTheFinding : Target → ℕ → Db → Finding → Type 0
IsTheFinding target now db f =
    (select (matches_target target) (reconcile now db).findings ≡ f ∷ [])
    × ((is_given target.finding_type || is_given target.task_id) ≡ true)

fix-one :
    (target : Target) (r : Reconciliation) (s d : Decision) (f : Finding)
    → fix target (r, s) ≡ fix_proposed f d
    → (select (matches_target target) r.findings ≡ f ∷ [])
      × ((is_given target.finding_type || is_given target.task_id) ≡ true)
      × (s ≡ d)
unfolding fix
fix-one target r s d f h =
    elim (Bool-cases (not (is_given target.finding_type) && not (is_given target.task_id))) [
      | inl e ↦ absurd (ground (arith, h, e))
      | inr e ↦
          let (one, same) =
            proposed-one target s d (select (matches_target target) r.findings) f
              (rw (fix, e) at h) in
          (one, ground (arith, e), same)
    ]

other_command :
    (name : String) (target : Target) (p : Result (Reconciliation × Decision))
    (g : Reconciliation × Decision → Resolution) (f : Finding) (d : Decision)
    → ((x : Reconciliation × Decision) → g x ≡ fix_proposed f d → ⊥)
    → without_target name target (p |>> λ x. ok (g x)) ≡ ok (fix_proposed f d)
    → ⊥
other_command name target p g f d never h =
    elim (Bool-cases (is_given target.finding_type || is_given target.task_id)) [
      | inl e ↦ ground (arith, h, e)
      | inr e ↦
          let (x, _, is) = bind-ok p (λ x. ok (g x)) (fix_proposed f d) (rw e at h) in
          never x (ok-injective (g x) (fix_proposed f d) is)
    ]

chk-other :
    (f : Finding) (d : Decision) (x : Reconciliation × Decision) → chk x ≡ fix_proposed f d → ⊥
chk-other f d (r, s) h = cc

continue-other :
    (f : Finding) (d : Decision) (x : Reconciliation × Decision)
    → continue_command x ≡ fix_proposed f d
    → ⊥
continue-other f d (r, s) h = elim (decision_kind_eq.dec s.decision idle) [
  | yes p ↦ ground (arith, h, p)
  | no n ↦ ground (arith, h, n)
]

resolve_command-fix :
    (now : ℕ) (command : String) (worker : Option String) (target : Target) (path : String)
    (state : Option Db) (f : Finding) (d : Decision)
    → resolve_command now command worker target path state ≡ ok (fix_proposed f d)
    → (projection now worker path state |>> λ p. ok (fix target p)) ≡ ok (fix_proposed f d)
unfolding resolve_command
resolve_command-fix now command worker target path state f d h =
    let word = lower (strip command) in
    elim (string_eq.dec word "chk") [
      | yes p ↦ absurd (
          other_command "chk" target (projection now worker path state) chk f d (chk-other f d)
            (ground (arith, h, p)))
      | no n ↦ elim (string_eq.dec word "continue") [
        | yes p ↦ absurd (
            other_command "continue" target (projection now worker path state) continue_command f d
              (continue-other f d) (ground (arith, h, n, p)))
        | no m ↦ elim (string_eq.dec word "fix") [
          | yes p ↦ ground (arith, h, n, m, p)
          | no o ↦ absurd (ground (arith, h, n, m, o))
        ]
      ]
    ]

-- Where task ids are unique, a fix that is proposed is of the only finding that the target matches; a
-- type or a task was given; the finding is due for a stored task; and the decision beside it is the
-- scheduler's.
pub resolve_command-fix_proposed :
    (now : ℕ) (command : String) (worker : Option String) (target : Target) (path : String)
    (db : Db) (f : Finding) (d : Decision)
    → Distinct (λ t. t.id) db.tasks
    → resolve_command now command worker target path (some db) ≡ ok (fix_proposed f d)
    → IsTheFinding target now db f
      × ((t : Task) × (task_by_id f.task_id db ≡ some t) × Due f.type now db t)
      × (decide now worker (some (reconcile now db)) db ≡ ok d)
resolve_command-fix_proposed now command worker target path db f d ids h =
    let ((r, s), shown, is) =
      bind-ok (projection now worker path (some db)) (λ p. ok (fix target p)) (fix_proposed f d)
        (resolve_command-fix now command worker target path (some db) f d h) in
    let (one, given, same) =
      fix-one target r s d f (ok-injective (fix target (r, s)) (fix_proposed f d) is) in
    elim (Result-cases (decide now worker (some (reconcile now db)) db)) [
      | inr (x, e) ↦ absurd (ground (arith, shown, e))
      | inl (s', e) ↦
          let r_is : reconcile now db ≡ r = ground (arith, shown, e) in
          let s_is : s' ≡ s = ground (arith, shown, e) in
          let one' =
            subst (λ y. select (matches_target target) y.findings ≡ f ∷ []) (sym r_is) one in
          (
            (one', given),
            reported-Due f.type f.task_id now db ids (
                any-select (matches_target target) (reports f.type f.task_id)
                  (reconcile now db).findings f [] one' (reports_self f)),
            e ∙ ap ok (s_is ∙ same),
          )
    ]
