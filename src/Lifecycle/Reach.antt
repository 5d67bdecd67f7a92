-- ===== src/Lifecycle/Reach.antt =====
-- The invariant of the task table, in every state that commands can lead to.
use personal_agent_runtime.Base.{
  ℕ, All, String, true, false, none, some, List, [], ◌∷◌, ◌==◌, string_eq, option_eq, ◌≡◌, ◌≢◌, ◌≤◌,
  ◌⊎◌, inl, inr, arith, sym, ◌∙◌,
}
use personal_agent_runtime.Base.Table.{find}
use personal_agent_runtime.Base.Table.Keys.{Distinct}
use personal_agent_runtime.Base.Table.Rows.{find-none, find-test}
use personal_agent_runtime.Store.{Task, Db, Call, task_by_id}
use personal_agent_runtime.Lifecycle.{Command, step, worker_of, claimant_of}
use personal_agent_runtime.Lifecycle.Row.{step-Follows}
use personal_agent_runtime.Lifecycle.Validity.{IsValidRow, new_row-IsValidRow, RowStep-IsValidRow}
use personal_agent_runtime.Lifecycle.Laws.{Holds, IsFinal, RowStep-SameJob, step-held, step-final}
use personal_agent_runtime.Lifecycle.Appear.{step-Change, Change-Origin, Change-Distinct}

-- Ids are unique, so are idempotency keys, and every row is one that the lifecycle allows.
pub record IsValid (db : Db) : Type 0 where
  pub ids : Distinct (λ t. t.id) db.tasks
  pub rows : (k : String) (t : Task) → task_by_id k db ≡ some t → IsValidRow t
  pub keys :
      (k j key : String) (t u : Task)
      → task_by_id k db ≡ some t
      → task_by_id j db ≡ some u
      → t.idempotency_key ≡ some key
      → u.idempotency_key ≡ some key
      → k ≡ j

module _ (c : Call) (cmd : Command) (db : Db) (v : IsValid db) where
  -- A stored row contradicts that no row has its key.
  taken :
      (k key : String) (t : Task)
      → task_by_id k db ≡ some t
      → t.idempotency_key ≡ some key
      → find (λ (x : Task). x.idempotency_key == some key) db.tasks ≡ none
      → ⊥
  taken k key t here has free =
      let other : (t.idempotency_key == some key) ≡ false =
        find-none (λ x. x.id == k) (λ x. x.idempotency_key == some key) db.tasks {x = t} free
          here in
      ground arith

  step-rows : (k : String) (t' : Task) → task_by_id k (step c cmd db) ≡ some t' → IsValidRow t'
  step-rows k t' there =
      elim (Change-Origin c k db (step c cmd db) t' (step-Change c cmd db) there) [
        | inl (t, here) ↦
            let (t'', after, s) = step-Follows c cmd k db t here in
            let e : t'' ≡ t' = cc in
            rw (← e)
              (RowStep-IsValidRow c (worker_of cmd) (claimant_of cmd) t t'' s (v.rows k t here))
        | inr (n, max, some_allowed, e, absent, free) ↦
            rw e (new_row-IsValidRow c n max some_allowed)
      ]

  -- A row with a key was there with this key, or no row had it and the key is a new task's.
  key_origin :
      (k key : String) (t' : Task)
      → task_by_id k (step c cmd db) ≡ some t'
      → t'.idempotency_key ≡ some key
      → ((t : Task) × (task_by_id k db ≡ some t) × (t.idempotency_key ≡ some key))
        ⊎ ((find (λ (x : Task). x.idempotency_key == some key) db.tasks ≡ none) × (c.uuid 0 ≡ k))
  key_origin k key t' there has =
      elim (Change-Origin c k db (step c cmd db) t' (step-Change c cmd db) there) [
        | inl (t, here) ↦
            let (t'', after, s) = step-Follows c cmd k db t here in
            let e : t'' ≡ t' = cc in
            let (_, _, _, _, _, _, same_key, _, _) =
              RowStep-SameJob c (worker_of cmd) (claimant_of cmd) t t'' s in
            inl (t, here, cc)
        | inr (n, max, some_allowed, e, absent, free) ↦
            let same_key : n.idempotency_key ≡ some key = cc in
            let test : (t'.id == k) ≡ true =
              find-test (λ x. x.id == k) (step c cmd db).tasks {x = t'} there in
            inr (rw same_key at free, ground arith)
      ]

  step-keys :
      (k j key : String) (t' u' : Task)
      → task_by_id k (step c cmd db) ≡ some t'
      → task_by_id j (step c cmd db) ≡ some u'
      → t'.idempotency_key ≡ some key
      → u'.idempotency_key ≡ some key
      → k ≡ j
  step-keys k j key t' u' kt ju kk jk = elim (key_origin k key t' kt kk) [
    | inl (t, here, has) ↦ elim (key_origin j key u' ju jk) [
      | inl (u, here', has') ↦ v.keys k j key t u here here' has has'
      | inr (free, new) ↦ absurd (taken k key t here has free)
    ]
    | inr (free, new) ↦ elim (key_origin j key u' ju jk) [
      | inl (u, here', has') ↦ absurd (taken j key u here' has' free)
      | inr (free', new') ↦ sym new ∙ new'
    ]
  ]

  -- Every command, also one that raises, keeps the invariant.
  pub step-IsValid : IsValid (step c cmd db)
  step-IsValid = record {
    ids = Change-Distinct c db (step c cmd db) (step-Change c cmd db) v.ids;
    rows = step-rows;
    keys = step-keys;
  }

-- A history of commands with what each read from outside
abbrev pub History : Type 0
History = List (Call × Command)

unfoldable pub run : History → Db → Db
run [] db = db
run ((c, cmd) ∷ rest) db = run rest (step c cmd db)

-- The state after `init_db` on a new file
abbrev pub empty_db : Db
empty_db = record {
  tasks = [];
  runs = [];
  events = [];
  artifacts = [];
  checkpoints = [];
  worker_capabilities = [];
}

pub run-IsValid_from : (h : History) (db : Db) → IsValid db → IsValid (run h db)
unfolding run
run-IsValid_from [] db v = v
run-IsValid_from ((c, cmd) ∷ rest) db v = run-IsValid_from rest _ (step-IsValid c cmd db v)

pub empty_db-IsValid : IsValid empty_db
unfolding find
empty_db-IsValid = record { ids = tt; rows = λ k t e. cc; keys = λ k j key t u e e' h h'. cc }

-- After any history of commands on a new database, task ids and idempotency keys are unique, and
-- each task's owner, lease and attempt count are as its status asks, with the count within its limit.
pub run-IsValid : (h : History) → IsValid (run h empty_db)
run-IsValid h = run-IsValid_from h empty_db empty_db-IsValid

-- A stored task that a worker holds under a lease stays exactly as it is through any number of
-- commands that are not in that worker's name and come before the lease runs out.
pub run-held :
    (h : History) (k worker : String) (expires : ℕ) (db : Db) (t : Task)
    → task_by_id k db ≡ some t
    → Holds worker expires t
    → All (λ (e : Call × Command). (e.0.now ≤ expires) × (worker_of e.1 ≢ some worker)) h
    → task_by_id k (run h db) ≡ some t
unfolding run
run-held [] k worker expires db t here held others = here
run-held ((c, cmd) ∷ rest) k worker expires db t here (status, owner, (until, lease, fits))
      ((early, other), others) =
    run-held rest k worker expires (step c cmd db) t
      (step-held c cmd k worker db t here (status, owner, (until, lease, omega arith)) other)
      (status, owner, (until, lease, fits)) others

-- No history of commands changes a stored task that nobody owns and that is in the dead letter,
-- rejected by a review, or completed.
pub run-final :
    (h : History) (k : String) (db : Db) (t : Task)
    → task_by_id k db ≡ some t
    → IsFinal t
    → task_by_id k (run h db) ≡ some t
unfolding run
run-final [] k db t here final = here
run-final ((c, cmd) ∷ rest) k db t here final =
    run-final rest k (step c cmd db) t (step-final c cmd k db t here final) final
