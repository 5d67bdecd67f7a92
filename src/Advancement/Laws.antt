-- ===== src/Advancement/Laws.antt =====
-- What an automatic step makes: one read-only task, which settles the finding that it was made for.
use personal_agent_runtime.Base.{
  ℕ, String, Bool, true, Option, none, some, [], ◌∷◌, ◌++◌, ◌==◌, string_eq, ◌≡◌, ◌⊎◌, inl, inr,
  refl, sym, ap, ◌∙◌, arith, Bool-cases, Option-cases,
}
use personal_agent_runtime.Base.Text.{strip, is_empty}
use personal_agent_runtime.Base.Table.Rows.{find-test}
use personal_agent_runtime.Json.{Fields, obj, get, is_str_at}
use personal_agent_runtime.Store.{Task, Db, ok, Call, task_by_id}
use personal_agent_runtime.Tasks.{create_task, get_task, members, new_row, task_by_key}
use personal_agent_runtime.Tasks.Effects.{Result-cases, create_task-ok}
use personal_agent_runtime.Reconcile.{represents_successor}
use personal_agent_runtime.Scheduler.{Decision, materialize_next, decision_kind_eq, decide}
use personal_agent_runtime.Advancement.{
  advanced, text_of, successor_context, successor_idempotency_key, successor_task,
  materialize_successor, advance_parent, advance_selected, advance_once,
}

same_id : (id : String) (t : Task) (db : Db) → task_by_id id db ≡ some t → t.id ≡ id
same_id id t db here =
    let e : (t.id == id) ≡ true = find-test (λ x. x.id == id) db.tasks here in ground (arith, e)

same_text : (s : String) → (s == s) ≡ true
same_text s = ground arith

module _ (hexdigest : String → String) where
  -- A task held the key already and nothing was written, or one was added: it is read-only, about
  -- the next action, and represents it as a successor at any time.
  abbrev pub Succeeds : Task → Db → String → Db → Type 0
  Succeeds parent db id db' =
      let next = strip (text_of parent.next_action) in
      ((db' ≡ db)
        × ((r : Task) × (r.id ≡ id)
            × (task_by_key (successor_idempotency_key hexdigest parent.id next) db ≡ some r)))
      ⊎ ((t : Task) × (t.id ≡ id)
          × (db'.tasks ≡ db.tasks ++ (t ∷ []))
          × (db'.runs ≡ db.runs)
          × (t.mode ≡ "read-only")
          × (t.goal ≡ next)
          × ((now : ℕ) → represents_successor now parent t ≡ true))

  names_parent :
      (id : String) (d : Fields) → is_str_at "parent_task_id" id (successor_context id d) ≡ true
  unfolding is_str_at get string_eq
  names_parent id d = same_text id

  -- The context of the successor names its parent.
  successor-represents :
      (parent t : Task) (d : Fields) (now : ℕ) (db : Db)
      → task_by_id parent.id db ≡ some parent
      → task_by_id t.id db ≡ none
      → t.context ≡ obj (successor_context parent.id d)
      → represents_successor now parent t ≡ true
  unfolding represents_successor
  successor-represents parent t d now db here new context =
      let named = names_parent parent.id d in
      elim (string_eq.dec t.id parent.id) [
        | yes p ↦ absurd (cc (here, new, p))
        | no n ↦ ground (arith, context, named, n)
      ]

  materialize_successor-Succeeds :
      (c : Call) (decision decision' : Decision) (parent : Task) (d : Fields) (changed : Bool)
      (id : String) (key : Option String) (db db' : Db)
      → task_by_id parent.id db ≡ some parent
      → materialize_successor hexdigest c decision parent (strip (text_of parent.next_action)) d db
        ≡ ok (advanced decision' changed id key, db')
      → Succeeds parent db id db'
  unfolding materialize_successor
  materialize_successor-Succeeds c decision decision' parent d changed id key db db' here h =
      let next = strip (text_of parent.next_action) in
      elim (Result-cases (create_task c (successor_task hexdigest parent next d) db)) [
        | inr (x, e) ↦ absurd (ground (arith, h, e))
        | inl ((r, db1), e) ↦
            let (max, _, _, how) =
              create_task-ok c (successor_task hexdigest parent next d) db db1 r e in
            let id_is : r.id ≡ id = ground (arith, h, e) in
            let db_is : db1 ≡ db' = ground (arith, h, e) in
            elim how [
              | inl (same, held) ↦ inl (sym db_is ∙ same, (r, id_is, held))
              | inr ((tasks, new, r_is, runs), free) ↦ inr (
                new_row c (successor_task hexdigest parent next d) max,
                ap (λ x. x.id) (sym r_is) ∙ id_is,
                ap (λ x. x.tasks) (sym db_is) ∙ tasks,
                ap (λ x. x.runs) (sym db_is) ∙ runs,
                refl,
                refl,
                λ now.
                    successor-represents parent
                      (new_row c (successor_task hexdigest parent next d) max) d now db here new
                      refl,
              )
            ]
      ]

  -- The parent's row, and what it is read for
  advance_selected-Succeeds :
      (c : Call) (decision decision' : Decision) (id0 : String) (changed : Bool) (id : String)
      (key : Option String) (db db' : Db)
      → advance_selected hexdigest c decision (get_task id0 db) db
        ≡ ok (advanced decision' changed id key, db')
      → (parent : Task) × (task_by_id id0 db ≡ some parent)
        × (parent.mode ≡ "read-only")
        × Succeeds parent db id db'
  unfolding get_task
  advance_selected-Succeeds c decision decision' id0 changed id key db db' h =
      elim (Option-cases (task_by_id id0 db)) [
        | inl n ↦ absurd (ground (arith, h, n))
        | inr (parent, here) ↦
            let self : task_by_id parent.id db ≡ some parent =
              ap (λ x. task_by_id x db) (same_id id0 parent db here) ∙ here in
            let h1 : advance_parent hexdigest c decision parent db
                ≡ ok (advanced decision' changed id key, db') =
              rw (get_task, here) at h in
            elim (string_eq.dec parent.mode "read-only") [
              | no n ↦ absurd (ground (arith, h1, n))
              | yes mode ↦ elim (Bool-cases (is_empty (strip (text_of parent.next_action)))) [
                | inl b ↦ absurd (ground (arith, h1, mode, b))
                | inr b ↦ elim (Result-cases (members parent.context)) [
                  | inr (x, e) ↦ absurd (ground (arith, h1, mode, b, e))
                  | inl (d, e) ↦ (
                    parent,
                    here,
                    mode,
                    materialize_successor-Succeeds c decision decision' parent d changed id key db
                        db' self (ground (arith, h1, mode, b, e)),
                  )
                ]
              ]
            ]
      ]

  -- A step that advanced followed a decision to materialize the next action of a stored, read-only
  -- task. Either a task held the key of that action and nothing was written; or one task was added,
  -- read-only and about that action, which represents it at any time: the finding is settled.
  pub advance_once-Succeeds :
      (c : Call) (worker : Option String) (decision : Decision) (changed : Bool) (id : String)
      (key : Option String) (db db' : Db)
      → advance_once hexdigest c worker db ≡ ok (advanced decision changed id key, db')
      → (chosen : Decision) × (decide c.now worker none db ≡ ok chosen)
        × (chosen.decision ≡ materialize_next)
        × ((parent : Task) × (task_by_id (text_of chosen.task_id) db ≡ some parent)
            × (parent.mode ≡ "read-only")
            × Succeeds parent db id db')
  unfolding advance_once
  advance_once-Succeeds c worker decision changed id key db db' h =
      elim (Result-cases (decide c.now worker none db)) [
        | inr (x, e) ↦ absurd (ground (arith, h, e))
        | inl (chosen, e) ↦ elim (decision_kind_eq.dec chosen.decision materialize_next) [
          | no n ↦ absurd (ground (arith, h, e, n))
          | yes kind ↦ (
            chosen,
            e,
            kind,
            advance_selected-Succeeds c chosen decision (text_of chosen.task_id) changed id key db
                db' (ground (arith, h, e, kind)),
          )
        ]
      ]
