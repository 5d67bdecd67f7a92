-- ===== src/Materialization/Context.antt =====
-- The context of a task that an event becomes: nothing that the runtime owns comes from the request.
use personal_agent_runtime.Base.{
  String, Bool, true, false, Option, none, some, ◌==◌, string_eq, if◌then◌else◌, ◌≡◌, refl, sym, ap,
  ◌∙◌, arith, contains,
}
use personal_agent_runtime.Json.{Json, str, Fields, end, field, get, put, merge}
use personal_agent_runtime.Approvals.{Approval}
use personal_agent_runtime.Ingress.{IngressEvent}
use personal_agent_runtime.Materialization.{runtime_owned_context_keys, TaskRequest}
use personal_agent_runtime.Materialization.Create.{
  sanitize_context, provenance, with_approval, task_context,
}

get-put :
    (k j : String) (v : Json) (d : Fields)
    → get k (put j v d) ≡ (if j == k then some v else get k d)
unfolding get put
get-put k j v end = refl
get-put k j v (field i w d) = elim (string_eq.dec i j) [
  | yes p ↦ elim (string_eq.dec i k) [ yes q ↦ ground (arith, p, q) | no q ↦ ground (arith, p, q) ]
  | no n ↦ elim (string_eq.dec i k) [
    | yes q ↦ ground (arith, n, q)
    | no q ↦ ground (arith, n, q, get-put k j v d)
  ]
]

-- A pair that is left out exactly where its key is one that is left out
get-kept :
    (k j : String) (v : Json) (out out_k : Bool) (rest d : Fields)
    → (j ≡ k → out ≡ out_k)
    → get k rest ≡ (if out_k then none else get k d)
    → get k (if out then rest else field j v rest) ≡ (if out_k then none else get k (field j v d))
unfolding get
get-kept k j v true true rest d same h = h
get-kept k j v false true rest d same h = elim (string_eq.dec j k) [
  | yes p ↦ cc (same p)
  | no n ↦ ground (arith, n, h)
]
get-kept k j v true false rest d same h = elim (string_eq.dec j k) [
  | yes p ↦ cc (same p)
  | no n ↦ ground (arith, n, h)
]
get-kept k j v false false rest d same h = elim (string_eq.dec j k) [
  | yes p ↦ ground (arith, p)
  | no n ↦ ground (arith, n, h)
]

get-end : (k : String) (b : Bool) → get k end ≡ (if b then none else get k end)
unfolding get
get-end k true = refl
get-end k false = refl

get-sanitize_context :
    (k : String) (d : Fields)
    → get k (sanitize_context d) ≡ (if contains runtime_owned_context_keys k then none else get k d)
unfolding sanitize_context
get-sanitize_context k end = get-end k (contains runtime_owned_context_keys k)
get-sanitize_context k (field j v d) =
    get-kept k j v (contains runtime_owned_context_keys j) (contains runtime_owned_context_keys k)
      (sanitize_context d) d (λ p. ap (contains runtime_owned_context_keys) p)
      (get-sanitize_context k d)

-- No key stands twice.
abbrev Distinct : Fields → Type 0
Distinct end = Unit
Distinct (field k v d) = (get k d ≡ none) × Distinct d

-- The first value that there is
abbrev pub over : Option Json → Option Json → Option Json
over (some v) o = some v
over none o = o

get-merge : (k : String) (a b : Fields) → Distinct b → get k (merge a b) ≡ over (get k b) (get k a)
unfolding get merge
get-merge k a end h = refl
get-merge k a (field j v d) h = elim (string_eq.dec j k) [
  | yes p ↦
      let missing : get k d ≡ none = ap (λ x. get x d) (sym p) ∙ h.0 in
      ground (arith, p, missing, get-merge k (put j v a) d h.1, get-put k j v a)
  | no n ↦ ground (arith, n, get-merge k (put j v a) d h.1, get-put k j v a)
]

provenance-Distinct : (event : IngressEvent) (q : TaskRequest) → Distinct (provenance event q)
unfolding get string_eq
provenance-Distinct event q = (refl, (refl, (refl, (refl, (refl, (refl, (refl, tt)))))))

get-with_approval :
    (k : String) (approval : Option Approval) (a b : Fields) (o : Option Json)
    → get k a ≡ over (get k b) o
    → get k (with_approval approval a) ≡ over (get k (with_approval approval b)) o
get-with_approval k none a b o h = h
get-with_approval k (some approval) a b o h = elim (string_eq.dec "approval_id" k) [
  | yes p ↦ ground (
    arith,
    p,
    get-put k "approval_id" (str approval.id) a,
    get-put k "approval_id" (str approval.id) b,
  )
  | no n ↦ ground (
    arith,
    n,
    h,
    get-put k "approval_id" (str approval.id) a,
    get-put k "approval_id" (str approval.id) b,
  )
]

-- The value of every key in the context of the task: the one that the runtime writes itself, if it
-- writes any; else none, where the key is one that the runtime owns; else the one of the request's
-- context.
pub get-task_context :
    (k : String) (event : IngressEvent) (q : TaskRequest) (approval : Option Approval)
    → get k (task_context event q approval)
      ≡ over
          (get k (with_approval approval (provenance event q)))
          (if contains runtime_owned_context_keys k then none else get k q.context)
unfolding task_context
get-task_context k event q approval =
    get-with_approval k approval (merge (sanitize_context q.context) (provenance event q))
      (provenance event q) (if contains runtime_owned_context_keys k then none else get k q.context)
      (get-merge k (sanitize_context q.context) (provenance event q) (provenance-Distinct event q)
        ∙ ap (over (get k (provenance event q))) (get-sanitize_context k q.context))
