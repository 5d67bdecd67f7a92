-- ===== src/Dispatcher/Drain.antt =====
-- What a bounded batch of dispatches does to the received events.
use mathlib.Core.Path.{subst}
use personal_agent_runtime.Base.{
  ℕ, pos, suc, ◌+◌, String, true, none, some, List, [], ◌∷◌, ◌==◌, string_eq, if◌then◌else◌, ◌≡◌,
  ◌≢◌, inl, inr, refl, sym, ap, ◌∙◌, arith, All, length, take, ltb, leb,
}
use personal_agent_runtime.Base.Table.{select, find, update, count}
use personal_agent_runtime.Base.Table.Rows.{find-test}
use personal_agent_runtime.Base.Table.Keys.{Distinct, by_key-update, Distinct-update, Distinct-self}
use personal_agent_runtime.Base.Table.Sorted.{All-map_of, All-selected}
use personal_agent_runtime.Base.Table.Order.{by_time_and_id, All-by_time_and_id}
use personal_agent_runtime.Base.Table.Batch.{
  All-take, length-take, length-select, any-count, length-by_time_and_id, Distinct-batch,
}
use personal_agent_runtime.Store.{ok, Call, ◌|>>◌, ok-injective, checked_limit}
use personal_agent_runtime.Tasks.Effects.{Result-cases}
use personal_agent_runtime.Ingress.{
  IngressStatus, received, ingress_status_eq, IngressEvent, Ingress, get_event, has_event_id,
}
use personal_agent_runtime.Materialization.{Runtime}
use personal_agent_runtime.Dispatcher.{
  is_received, moved_row, is_pending, Dispatch, is_materialized, is_already_materialized,
  is_blocked, dispatch_event, dispatch_all, read_events, pending_events, has_pending_events,
  Dispatched, summary_of, dispatch_batch, dispatch_pending_events,
}
use personal_agent_runtime.Dispatcher.Moves.{is_settled, dispatch_event-Moved, count-moved}

-- The event of the same id is in the table, and is received.
abbrev IsPendingIn : Ingress → IngressEvent → Type 0
IsPendingIn rows e =
    (y : IngressEvent) × (find (has_event_id e.id) rows ≡ some y) × (y.status ≡ received)

-- The move of one event leaves any other as it is.
IsPendingIn-moved :
    (ts : ℕ) (event_id : String) (status : IngressStatus) (rows : Ingress) (e : IngressEvent)
    → event_id ≢ e.id
    → IsPendingIn rows e
    → IsPendingIn (update (is_received event_id) (moved_row ts status) rows) e
unfolding is_received
IsPendingIn-moved ts event_id status rows e other (y, here, pending) =
    let same : (y.id == e.id) ≡ true = find-test (has_event_id e.id) rows here in
    (
      y,
      by_key-update (λ x. x.id) e.id (is_received event_id) (moved_row ts status) rows (λ x. refl)
          ∙ ground (arith, here, same, other),
      pending,
    )

absent-other :
    (k : String) (es : Ingress) → find (has_event_id k) es ≡ none → All (λ e. k ≢ e.id) es
unfolding find
absent-other k [] h = tt
absent-other k (e ∷ es) h = (λ p. ground (arith, h, p), absent-other k es (ground (arith, h)))

All-moved :
    (ts : ℕ) (event_id : String) (status : IngressStatus) (rows es : Ingress)
    → All (λ e. event_id ≢ e.id) es
    → All (IsPendingIn rows) es
    → All (IsPendingIn (update (is_received event_id) (moved_row ts status) rows)) es
All-moved ts event_id status rows [] others all = tt
All-moved ts event_id status rows (e ∷ es) others all = (
  IsPendingIn-moved ts event_id status rows e others.0 all.0,
  All-moved ts event_id status rows es others.1 all.1,
)

-- The counts of the summary
abbrev counted : List Dispatch → ℕ
counted ds = count is_materialized ds + (count is_already_materialized ds + count is_blocked ds)

counted-cons :
    (d : Dispatch) (ds : List Dispatch) → is_settled d ≡ true → counted (d ∷ ds) ≡ suc (counted ds)
unfolding count
counted-cons (Dispatch.already_terminal s) ds h = cc
counted-cons (Dispatch.blocked r) ds h = ground arith
counted-cons (Dispatch.invalid e) ds h = ground arith
counted-cons (Dispatch.already_materialized t) ds h = ground arith
counted-cons (Dispatch.dispatched t) ds h = ground arith

-- A batch that is dispatched without an exception leaves so many received events fewer, and counts all.
abbrev Drained : Ingress → List Dispatch → Runtime → Runtime → Type 0
Drained es ds rt rt' =
    (count is_pending rt'.ingress + length es ≡ count is_pending rt.ingress)
    × (counted ds ≡ length es)
    × (rt'.approvals ≡ rt.approvals)

-- The first dispatch of a batch, and the others
dispatch_all-cons :
    (calls : ℕ → Call) (e : IngressEvent) (es : Ingress) (ds : List Dispatch) (rt rt' : Runtime)
    → dispatch_all calls (e ∷ es) rt ≡ (ok ds, rt')
    → (d : Dispatch) × (others : List Dispatch) × (rt1 : Runtime) × (dispatch_event
          (calls 0)
          e.id
          rt
        ≡ (ok d, rt1))
      × (dispatch_all (λ n. calls (suc n)) es rt1 ≡ (ok others, rt'))
      × (ds ≡ d ∷ others)
unfolding dispatch_all
dispatch_all-cons calls e es ds rt rt' h =
    let r = dispatch_event (calls 0) e.id rt in
    let rs = dispatch_all (λ n. calls (suc n)) es r.1 in
    elim (Result-cases r.0) [
      | inr (x, f) ↦ absurd (ground (arith, h, f))
      | inl (d, f) ↦ elim (Result-cases rs.0) [
        | inr (x, g) ↦ absurd (ground (arith, h, f, g))
        | inl (others, g) ↦
            let last : rs.1 ≡ rt' = ground (arith, h, f, g) in
            (
              d,
              others,
              r.1,
              ap (λ x. (x, r.1)) f,
              ap (λ x. (x, rs.1)) g ∙ ap (λ x. (ok others, x)) last,
              ground (arith, h, f, g),
            )
      ]
    ]

dispatch_all-Drained :
    (calls : ℕ → Call) (es : Ingress) (ds : List Dispatch) (rt rt' : Runtime)
    → Distinct (λ e. e.id) rt.ingress
    → Distinct (λ e. e.id) es
    → All (IsPendingIn rt.ingress) es
    → dispatch_all calls es rt ≡ (ok ds, rt')
    → Drained es ds rt rt'
unfolding dispatch_all count get_event find
dispatch_all-Drained calls [] ds rt rt' ids distinct all h =
    (ground (arith, h), sym (ap counted (ok-injective [] ds (ap (λ r. r.0) h))), ground (arith, h))
dispatch_all-Drained calls (e ∷ es) ds rt rt' ids distinct ((y, here, pending), all) h =
    let (d, others, rt1, first, rest, is) = dispatch_all-cons calls e es ds rt rt' h in
    let (is_one_of, status, other, moved, kept) =
      dispatch_event-Moved (calls 0) e.id y d rt rt1 here pending first in
    let table = update (is_received e.id) (moved_row (calls 0).now status) rt.ingress in
    let fewer = count-moved (calls 0).now e.id status rt.ingress y ids here pending other in
    let ids' =
      Distinct-update (λ x. x.id) (is_received e.id) (moved_row (calls 0).now status) rt.ingress
        (λ x. refl) ids in
    let all' : All (IsPendingIn rt1.ingress) es =
      subst (λ t. All (IsPendingIn t) es) (sym moved)
        (All-moved (calls 0).now e.id status rt.ingress es (absent-other e.id es distinct.0) all) in
    let (drained, counts, kept') =
      dispatch_all-Drained (λ n. calls (suc n)) es others rt1 rt'
        (subst (Distinct (λ x. x.id)) (sym moved) ids') distinct.1 all' rest in
    (
      omega (arith, drained, fewer, ap (count is_pending) moved),
      ap counted is ∙ counted-cons d others is_one_of ∙ ap suc counts,
      kept' ∙ kept,
    )

-- The summary of a batch
pub dispatch_batch-ok :
    (calls : ℕ → Call) (es : Ingress) (rt rt' : Runtime) (s : Dispatched)
    → dispatch_batch calls es rt ≡ (ok s, rt')
    → (ds : List Dispatch) × (dispatch_all calls es rt ≡ (ok ds, rt'))
      × (s ≡ summary_of (length es) (has_pending_events rt'.ingress) ds)
dispatch_batch-ok calls es rt rt' s h =
    let r = dispatch_all calls es rt in
    let last : r.1 ≡ rt' = ap (λ x. x.1) h in
    elim (Result-cases r.0) [
      | inr (x, e) ↦ absurd (ground (arith, h, e))
      | inl (ds, e) ↦ (
        ds,
        ap (λ x. (x, r.1)) e ∙ ap (λ x. (ok ds, x)) last,
        subst (λ x. s ≡ summary_of (length es) (has_pending_events x.ingress) ds) last
            (sym (
              ok-injective _ s (
                sym (
                  ap
                    (λ x. x |>> λ y. ok (summary_of (length es) (has_pending_events r.1.ingress) y))
                    e)
                ∙ ap (λ x. x.0) h))),
      )
    ]

-- The events of a batch are what the table says of them.
read_events-same :
    (rows es : Ingress)
    → All (λ e. find (has_event_id e.id) rows ≡ some e) es
    → read_events rows es ≡ es
unfolding read_events get_event
read_events-same rows [] all = refl
read_events-same rows (e ∷ es) (here, all) =
    rw (read_events, here) (ap (λ xs. e ∷ xs) (read_events-same rows es all))

module _ (n : ℕ) (rows : Ingress) (ids : Distinct (λ e. e.id) rows) where
  abbrev batch : Ingress
  batch = take n (by_time_and_id (λ e. e.created_at) (λ e. e.id) (select is_pending rows))

  batch-stored : All (λ e. (find (has_event_id e.id) rows ≡ some e) × (is_pending e ≡ true)) batch
  batch-stored =
      All-take _ n (by_time_and_id (λ e. e.created_at) (λ e. e.id) (select is_pending rows)) (
        All-by_time_and_id (λ e. e.created_at) (λ e. e.id) _ (select is_pending rows)
          (All-selected (λ e. find (has_event_id e.id) rows ≡ some e) is_pending rows
            (Distinct-self (λ e. e.id) rows ids)))

  pending_events-batch : pending_events n rows ≡ batch
  unfolding pending_events
  pending_events-batch = read_events-same rows batch (All-map_of batch (λ e p. p.0) batch-stored)

  batch-IsPendingIn : All (IsPendingIn rows) batch
  batch-IsPendingIn = All-map_of batch (λ e p. (e, p.0, ground (arith, p.1))) batch-stored

  length-batch : length batch ≡ (if leb n (count is_pending rows) then n else count is_pending rows)
  length-batch =
      length-take n (by_time_and_id (λ e. e.created_at) (λ e. e.id) (select is_pending rows))
      ∙ ap (λ k. if leb n k then n else k)
          (length-by_time_and_id (λ e. e.created_at) (λ e. e.id) (select is_pending rows)
            ∙ length-select is_pending rows)

-- A call that returns has handled the first received events, up to the limit: so many are received
-- fewer, each is counted once in the summary, more are said to be left exactly where the limit was
-- less than their number, and no approval was touched.
pub dispatch_pending_events-drains :
    (calls : ℕ → Call) (n : ℕ) (rt rt' : Runtime) (s : Dispatched)
    → Distinct (λ e. e.id) rt.ingress
    → dispatch_pending_events calls (pos n) rt ≡ (ok s, rt')
    → (count is_pending rt'.ingress + s.scanned ≡ count is_pending rt.ingress)
      × (s.scanned
          ≡ (if leb n (count is_pending rt.ingress) then n else count is_pending rt.ingress))
      × (s.materialized + (s.already_materialized + s.blocked) ≡ s.scanned)
      × (s.has_more ≡ ltb n (count is_pending rt.ingress))
      × (rt'.approvals ≡ rt.approvals)
unfolding dispatch_pending_events
dispatch_pending_events-drains calls n rt rt' s ids h =
    elim (Result-cases (checked_limit (pos n))) [
      | inr (x, e) ↦ absurd (ground (arith, h, e))
      | inl (m, e) ↦
          let m_is_n : m ≡ n = ground (arith, e) in
          let h1 : dispatch_batch calls (pending_events m rt.ingress) rt ≡ (ok s, rt') =
            rw (dispatch_pending_events, e) at h in
          let h2 : dispatch_batch calls (batch n rt.ingress ids) rt ≡ (ok s, rt') =
            subst (λ es. dispatch_batch calls es rt ≡ (ok s, rt'))
              (ap (λ k. pending_events k rt.ingress) m_is_n ∙ pending_events-batch n rt.ingress ids)
              h1 in
          let (ds, all, is) = dispatch_batch-ok calls (batch n rt.ingress ids) rt rt' s h2 in
          let (fewer, counts, kept) =
            dispatch_all-Drained calls (batch n rt.ingress ids) ds rt rt' ids
              (Distinct-batch (λ e. e.created_at) (λ e. e.id) n is_pending rt.ingress ids)
              (batch-IsPendingIn n rt.ingress ids) all in
          let size = length-batch n rt.ingress ids in
          let scanned : s.scanned ≡ length (batch n rt.ingress ids) = ap (λ x. x.scanned) is in
          (
            ap (λ k. count is_pending rt'.ingress + k) scanned ∙ fewer,
            scanned ∙ size,
            ap (λ x. x.materialized + (x.already_materialized + x.blocked)) is
                ∙ counts
                ∙ sym scanned,
            ap (λ x. x.has_more) is
                ∙ any-count is_pending rt'.ingress
                ∙ ground (arith, fewer, size),
            kept,
          )
    ]
