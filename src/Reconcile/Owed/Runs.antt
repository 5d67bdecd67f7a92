-- ===== src/Reconcile/Owed/Runs.antt =====
-- The tests of `reconcile` on runs and tasks, as what they say.
use personal_agent_runtime.Base.{
  ℕ, String, true, false, Option, none, some, string_eq, ◌==◌, ◌≡◌, ◌↔◌, inl, inr, arith, refl,
  Bool-cases, Option-cases,
}
use personal_agent_runtime.Json.{
  Json, Items, arr, nil, cons, obj, str, null, bool, int, float, Fields, get, truthy, truthy_at,
  is_str_at,
}
use personal_agent_runtime.Store.{task_status_eq, Task, Run}
use personal_agent_runtime.Reconcile.{
  json_obj, is_critic, has_accepted_verdict, needs_review, has_items, represents_successor,
  pending_action, is_active,
}
use personal_agent_runtime.Reconcile.Owed.{
  HasText, IsCritic, Accepts, RequiresReview, IsActive, Represents,
}

text_of :
    (text : String) (o : Option Json)
    → elim o [ some (str s) ↦ s == text | _ ↦ false ] ≡ true
    → o ≡ some (str text)
text_of text none e = cc
text_of text (some (str s)) e = ground arith
text_of text (some null) e = cc
text_of text (some (bool b)) e = cc
text_of text (some (int b)) e = cc
text_of text (some (float b)) e = cc
text_of text (some (arr b)) e = cc
text_of text (some (obj b)) e = cc

pub is_str_at-get :
    (key text : String) (d : Fields) → (is_str_at key text d ≡ true) ↔ (get key d ≡ some (str text))
unfolding is_str_at
is_str_at-get key text d = (λ e. text_of text (get key d) e, λ e. rw (is_str_at, e) (ground arith))

pub is_str_at-HasText :
    (key text : String) (j : Json) → (is_str_at key text (json_obj j) ≡ true) ↔ HasText key text j
unfolding is_str_at get
is_str_at-HasText key text (obj d) = (
  λ e. (d, refl, (is_str_at-get key text d).0 e),
  λ (d', same, e). (is_str_at-get key text d).1 (ground (arith, same, e)),
)
is_str_at-HasText key text j = (λ e. cc, λ (d', same, e). cc)

pub is_critic-IsCritic : (r : Run) → (is_critic r ≡ true) ↔ IsCritic r
is_critic-IsCritic r = is_str_at-HasText "role" "critic" r.metadata

accepted_of :
    (o : Option Json)
    → elim o [ some (obj review) ↦ is_str_at "verdict" "accepted" review | _ ↦ false ] ≡ true
    → (v : Fields) × (o ≡ some (obj v)) × (is_str_at "verdict" "accepted" v ≡ true)
accepted_of none e = cc
accepted_of (some (str s)) e = cc
accepted_of (some null) e = cc
accepted_of (some (bool b)) e = cc
accepted_of (some (int b)) e = cc
accepted_of (some (float b)) e = cc
accepted_of (some (arr b)) e = cc
accepted_of (some (obj v)) e = (v, refl, e)

accepts_of :
    (j : Json)
    → has_accepted_verdict (json_obj j) ≡ true
    → (d : Fields) × (v : Fields) × (j ≡ obj d)
      × (get "review" d ≡ some (obj v))
      × (get "verdict" v ≡ some (str "accepted"))
unfolding get
accepts_of (obj d) e =
    let (v, review, verdict) = accepted_of (get "review" d) e in
    (d, v, refl, review, (is_str_at-get "verdict" "accepted" v).0 verdict)
accepts_of j e = cc

pub accepted-Accepts : (r : Run) → (has_accepted_verdict (json_obj r.metadata) ≡ true) ↔ Accepts r
accepted-Accepts r = (
  λ e. accepts_of r.metadata e,
  λ (d, v, same, review, verdict).
      rw same (ground (arith, review, (is_str_at-get "verdict" "accepted" v).1 verdict)),
)

truthy_of :
    (key : String) (d : Fields)
    → truthy_at key d ≡ true
    → (v : Json) × (get key d ≡ some v) × (truthy v ≡ true)
unfolding truthy_at
truthy_of key d e = elim (Option-cases (get key d)) [
  | inl n ↦ absurd (ground (arith, e, n))
  | inr (v, s) ↦ (v, s, ground (arith, e, s))
]

required_of :
    (j : Json)
    → truthy_at "requires_independent_review" (json_obj j) ≡ true
    → (d : Fields) × (v : Json) × (j ≡ obj d)
      × (get "requires_independent_review" d ≡ some v)
      × (truthy v ≡ true)
unfolding truthy_at get
required_of (obj d) e =
    let (v, s, t) = truthy_of "requires_independent_review" d e in (d, v, refl, s, t)
required_of j e = cc

pub needs_review-RequiresReview : (t : Task) → (needs_review t ≡ true) ↔ RequiresReview t
unfolding truthy_at
needs_review-RequiresReview t =
    (λ e. required_of t.context e, λ (d, v, same, s, h). rw same (rw (truthy_at, s) h))

pub has_items-cons :
    (j : Json)
    → (has_items j ≡ true) ↔ ((first : Json) × (rest : Items) × (j ≡ arr (cons first rest)))
has_items-cons (arr (cons v vs)) = (λ e. (v, vs, refl), λ h. refl)
has_items-cons (arr nil) = (λ e. cc, λ (v, vs, e). cc)
has_items-cons j = (λ e. cc, λ (v, vs, e). cc)

pub is_active-IsActive : (now : ℕ) (u : Task) → (is_active now u ≡ true) ↔ IsActive now u
is_active-IsActive now u = (λ e. ground arith, λ h. ground arith)

-- The test of one task against an action that is recorded
pub represents_successor-Represents :
    (now : ℕ) (t u : Task) (action : String)
    → pending_action t ≡ some action
    → (represents_successor now t u ≡ true) ↔ Represents now t action u
unfolding represents_successor
represents_successor-Represents now t u action e =
    let parent = is_str_at-HasText "parent_task_id" t.id u.context in
    let active = is_active-IsActive now u in
    (
      λ h. (
        ground (arith, h),
        elim (Bool-cases (is_str_at "parent_task_id" t.id (json_obj u.context))) [
          | inl p ↦ inl (parent.0 p)
          | inr n ↦ inr (active.0 (ground (arith, h, n, e)), ground (arith, h, n, e))
        ],
      ),
      λ (other, how). elim how [
        | inl p ↦ rw (parent.1 p) (ground (arith, other))
        | inr (a, s) ↦ rw (e, active.1 a, s) (ground (arith, other))
      ],
    )
