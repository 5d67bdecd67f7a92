-- ===== src/Ingress/Laws.antt =====
-- An event is stored once for its key, and keeps what it says.
use personal_agent_runtime.Base.{
  ℕ, String, Bool, true, Option, none, some, List, [], ◌∷◌, ◌==◌, string_eq, if◌then◌else◌, ◌||◌,
  ◌≡◌, inl, inr, refl, ap, ◌∙◌, arith, leb, Bool-cases, Option-cases, ◌&&◌,
}
use personal_agent_runtime.Base.Table.{find, update, count}
use personal_agent_runtime.Base.Table.Rows.{count-none}
use personal_agent_runtime.Base.Table.Keys.{by_key-update, by_key-append_new, by_key-append_old}
use personal_agent_runtime.Json.Canonical.{json_eq}
use personal_agent_runtime.Store.{◌|>>◌, bind-ok, Result, ok, raised, Call}
use personal_agent_runtime.Ingress.{
  IngressStatus, received, IngressEvent, Ingress, NewEvent, checked_event, new_event, is_same_event,
  has_event_id, has_event_key, checked_source, non_empty, event_object, replayed_event,
  insert_ingress, ingest_event, ingress_status_eq,
}

module _ (c : Call) (q : NewEvent) (rows : Ingress) where
  -- The row that is returned has the key, and is what was asked for.
  insert_ingress-ok :
      (e : IngressEvent) (rows' : Ingress)
      → insert_ingress c q rows ≡ ok (e, rows')
      → (find (has_event_key q.idempotency_key) rows' ≡ some e) × (is_same_event q e ≡ true)
  unfolding insert_ingress
  insert_ingress-ok e rows' h =
      elim (Bool-cases (
        leb (count (λ x. has_event_id (c.uuid 0) x || has_event_key q.idempotency_key x) rows) 0)) [
          | inl z ↦
              let free =
                (count-none (has_event_id (c.uuid 0)) (has_event_key q.idempotency_key) rows z).1 in
              (
                ground (
                  arith,
                  h,
                  z,
                  by_key-append_new (λ x. x.idempotency_key) rows (new_event c q) free,
                ),
                ground (arith, h, z),
              )
          | inr z ↦ elim (Option-cases (find (has_event_key q.idempotency_key) rows)) [
            | inl n ↦ absurd (ground (arith, h, z, n))
            | inr (x, s) ↦ elim (Bool-cases (is_same_event q x)) [
              | inl y ↦ (ground (arith, h, z, s, y), ground (arith, h, z, s, y))
              | inr y ↦ absurd (ground (arith, h, z, s, y))
            ]
          ]
        ]

  -- A row with the key that is what is asked for is returned, and nothing is written.
  insert_ingress-replays :
      (e : IngressEvent)
      → find (has_event_key q.idempotency_key) rows ≡ some e
      → is_same_event q e ≡ true
      → insert_ingress c q rows ≡ ok (e, rows)
  unfolding insert_ingress
  insert_ingress-replays e here same =
      elim (Bool-cases (
        leb (count (λ x. has_event_id (c.uuid 0) x || has_event_key q.idempotency_key x) rows) 0)) [
          | inl z ↦ absurd (
              cc (
                (count-none (has_event_id (c.uuid 0)) (has_event_key q.idempotency_key) rows z).1,
                here,
              ))
          | inr z ↦ rw z (rw here (rw same refl))
        ]

-- What an event says, beside its status
abbrev pub SameEvent : IngressEvent → IngressEvent → Type 0
SameEvent e e' =
    (e.id ≡ e'.id)
    × (e.idempotency_key ≡ e'.idempotency_key)
    × (e.source ≡ e'.source)
    × (e.kind ≡ e'.kind)
    × (e.payload ≡ e'.payload)
    × (e.requested_action ≡ e'.requested_action)
    × (e.authority ≡ e'.authority)

-- The writes on the table: `ingest_event`, and the status that the dispatcher gives to a received event
pub data Command : Type 0 where
  ingest : NewEvent → Command
  move : String → IngressStatus → Command

abbrev pub after : Result (IngressEvent × Ingress) → Ingress → Ingress
after (raised _) rows = rows
after (ok (_, rows')) rows = rows'

abbrev pub moved_event : ℕ → IngressStatus → IngressEvent → IngressEvent
moved_event ts status e = record e { status = status; updated_at = ts }

abbrev pub is_unmoved : String → IngressEvent → Bool
is_unmoved id e = e.id == id && e.status == received

unfoldable pub step : Call → Command → Ingress → Ingress
step c (ingest q) rows = after (ingest_event c q rows) rows
step c (move id status) rows = update (is_unmoved id) (moved_event c.now status) rows

abbrev pub History : Type 0
History = List (Call × Command)

unfoldable pub run_events : History → Ingress → Ingress
run_events [] rows = rows
run_events ((c, cmd) ∷ rest) rows = run_events rest (step c cmd rows)

-- A row that a key finds is found by it afterwards, with the same content.
abbrev Keeps : String → Ingress → IngressEvent → Type 0
Keeps key rows e = (e' : IngressEvent) × (find (has_event_key key) rows ≡ some e') × SameEvent e e'

insert_ingress-Keeps :
    (c : Call) (q : NewEvent) (key : String) (rows : Ingress) (e : IngressEvent)
    → find (has_event_key key) rows ≡ some e
    → Keeps key (after (insert_ingress c q rows) rows) e
unfolding insert_ingress
insert_ingress-Keeps c q key rows e here =
    elim (Bool-cases
      (leb (count (λ x. has_event_id (c.uuid 0) x || has_event_key q.idempotency_key x) rows) 0)) [
        | inl z ↦ (
          e,
          rw z (by_key-append_old (λ x. x.idempotency_key) key rows (new_event c q) {x = e} here),
          ground arith,
        )
        | inr z ↦ (
          e,
          rw z (rw (replayed-kept (find (has_event_key q.idempotency_key) rows)) here),
          ground arith,
        )
      ]
  where
    replayed-kept : (o : Option IngressEvent) → after (replayed_event q rows o) rows ≡ rows
    replayed-kept none = refl
    replayed-kept (some x) = elim (Bool-cases (is_same_event q x)) [
      | inl y ↦ rw y refl
      | inr y ↦ rw y refl
    ]

bind-Keeps :
    {A : Type 0} (key : String) (rows : Ingress) (e : IngressEvent) (r : Result A)
    (f : A → Result (IngressEvent × Ingress))
    → find (has_event_key key) rows ≡ some e
    → ((a : A) → Keeps key (after (f a) rows) e)
    → Keeps key (after (r |>> f) rows) e
bind-Keeps key rows e (raised x) f here h = (e, here, ground arith)
bind-Keeps key rows e (ok a) f here h = h a

step-Keeps :
    (c : Call) (cmd : Command) (key : String) (rows : Ingress) (e : IngressEvent)
    → find (has_event_key key) rows ≡ some e
    → Keeps key (step c cmd rows) e
unfolding step ingest_event
step-Keeps c (ingest q) key rows e here =
    bind-Keeps key rows e (checked_event q) (λ checked. insert_ingress c checked rows) here
      (λ checked. insert_ingress-Keeps c checked key rows e here)
step-Keeps c (move id status) key rows e here = (
  if is_unmoved id e then moved_event c.now status e else e,
  by_key-update (λ x. x.idempotency_key) key (is_unmoved id) (moved_event c.now status) rows
        (λ x. refl)
      ∙ rw here refl,
  elim (Bool-cases (is_unmoved id e)) [ inl o ↦ rw o (ground arith) | inr o ↦ rw o (ground arith) ],
)

run_events-Keeps :
    (h : History) (key : String) (rows : Ingress) (e : IngressEvent)
    → find (has_event_key key) rows ≡ some e
    → Keeps key (run_events h rows) e
unfolding run_events
run_events-Keeps [] key rows e here = (e, here, ground arith)
run_events-Keeps ((c, cmd) ∷ rest) key rows e here =
    let (e', after_step, same) = step-Keeps c cmd key rows e here in
    let (e'', later, same') = run_events-Keeps rest key (step c cmd rows) e' after_step in
    (e'', later, ground arith)

same_event :
    (q : NewEvent) (e e' : IngressEvent)
    → is_same_event q e ≡ true
    → SameEvent e e'
    → is_same_event q e' ≡ true
same_event q e e' h (_, _, a, b, d, f, g) = rw (← a, ← b, ← d, ← f, ← g) h

-- An event that was accepted, or that was found under its key, is what was asked for.
pub ingest_event-ok :
    (c : Call) (q : NewEvent) (rows rows' : Ingress) (e : IngressEvent)
    → ingest_event c q rows ≡ ok (e, rows')
    → (checked : NewEvent) × (checked_event q ≡ ok checked)
      × (find (has_event_key checked.idempotency_key) rows' ≡ some e)
      × (is_same_event checked e ≡ true)
unfolding ingest_event
ingest_event-ok c q rows rows' e h =
    let (checked, passed, inserted) =
      bind-ok (checked_event q) (λ x. insert_ingress c x rows) (e, rows') h in
    let (here, same) = insert_ingress-ok c checked rows e rows' inserted in
    (checked, passed, here, same)

-- An event that was accepted is accepted again, whatever was ingested or dispatched in between: the
-- event under its key is returned, with the same content, and nothing is written.
pub ingest_event-idempotent :
    (c c' : Call) (q : NewEvent) (h : History) (rows rows' : Ingress) (e : IngressEvent)
    → ingest_event c q rows ≡ ok (e, rows')
    → (e' : IngressEvent) × (ingest_event c' q (run_events h rows') ≡ ok (e', run_events h rows'))
      × SameEvent e e'
unfolding ingest_event
ingest_event-idempotent c c' q h rows rows' e first =
    let (checked, passed, here, same) = ingest_event-ok c q rows rows' e first in
    let (e', later, kept) = run_events-Keeps h checked.idempotency_key rows' e here in
    let again =
      insert_ingress-replays c' checked (run_events h rows') e' later
        (same_event checked e e' same kept) in
    (e', rw passed again, kept)

checked_source-same : (s t : String) → checked_source s ≡ ok t → t ≡ s
checked_source-same s t e = ground (arith, e)

-- What a stored event says, against the arguments
pub ingest_event-stores :
    (c : Call) (q : NewEvent) (rows rows' : Ingress) (e : IngressEvent)
    → ingest_event c q rows ≡ ok (e, rows')
    → (e.source ≡ q.source)
      × (event_object "payload" q.payload ≡ ok e.payload)
      × (event_object "requested_action" q.requested_action ≡ ok e.requested_action)
      × (event_object "authority" q.authority ≡ ok e.authority)
ingest_event-stores c q rows rows' e h =
    let (checked, passed, here, same) = ingest_event-ok c q rows rows' e h in
    let (key, _, p1) = bind-ok (non_empty "idempotency_key" q.idempotency_key) _ checked passed in
    let (source, s, p2) = bind-ok (checked_source q.source) _ checked p1 in
    let (kind, _, p3) = bind-ok (non_empty "kind" q.kind) _ checked p2 in
    let (payload, p, p4) = bind-ok (event_object "payload" q.payload) _ checked p3 in
    let (action, a, p5) =
      bind-ok (event_object "requested_action" q.requested_action) _ checked p4 in
    let (authority, t, p6) = bind-ok (event_object "authority" q.authority) _ checked p5 in
    let source_is : source ≡ q.source = checked_source-same q.source source s in
    (
      ground (arith, p6, same, source_is),
      p ∙ ap ok (ground (arith, p6, same)),
      a ∙ ap ok (ground (arith, p6, same)),
      t ∙ ap ok (ground (arith, p6, same)),
    )
