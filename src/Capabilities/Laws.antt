-- ===== src/Capabilities/Laws.antt =====
-- A worker may take a task exactly when it declared what the task requires.
use personal_agent_runtime.Base.{
  append-nil, String, ℤ, true, false, Option, none, some, List, [], ◌∷◌, ◌++◌, ◌==◌, string_eq, not,
  ◌||◌, ◌≡◌, ◌≢◌, ◌↔◌, ◌⊎◌, inl, inr, refl, arith, All, contains, Bool-cases, map, ◌∙◌, ap,
}
use mathlib.Core.Path.{subst}
use text.Mathlib.Text.{is_lt}
use Prim.Native.String.{compare}
use personal_agent_runtime.Base.Text.{strip, is_blank}
use personal_agent_runtime.Base.Table.{select}
use personal_agent_runtime.Store.{
  Task, WorkerCapability, Db, ok, raised, ok-injective, Call, task_by_id,
}
use personal_agent_runtime.Tasks.{claim_task}
use personal_agent_runtime.Tasks.Effects.{Result-cases}
use personal_agent_runtime.Capabilities.Names.{
  lower, normalize_capabilities, validate_capability, validate_all, insert_text, sort_texts,
  matches_pattern, is_reserved,
}
use personal_agent_runtime.Capabilities.{
  required_capabilities, get_worker_capabilities, declare_worker_capabilities, replace_capabilities,
  eligibility_of, evaluate_worker_eligibility, identity, worker_eligibility, is_nil, difference,
  row_of, with_eligibility, not_eligible, claim_task_if_eligible,
}

-- A worker with a name declared each of these capabilities.
abbrev pub Declares : Option String → List String → Db → Type 0
Declares none required db = ⊥
Declares (some w) required db = All (λ c. contains (get_worker_capabilities w db) c ≡ true) required

-- There is nothing required, or the worker declared it all.
abbrev pub Serves : List String → Option String → Db → Type 0
Serves [] worker db = Unit
Serves (c ∷ cs) worker db = Declares (identity worker) (c ∷ cs) db

difference-nil :
    (required declared : List String)
    → (is_nil (difference required declared) ≡ true)
      ↔ All (λ c. contains declared c ≡ true) required
unfolding select
difference-nil [] declared = (λ _. tt, λ _. refl)
difference-nil (c ∷ cs) declared = elim (Bool-cases (contains declared c)) [
  | inl e ↦ (
    λ h. (e, (difference-nil cs declared).0 (rw e at h)),
    λ a. rw e ((difference-nil cs declared).1 a.1),
  )
  | inr e ↦ (λ h. absurd (cc (rw e at h)), λ a. cc)
]

worker_eligibility-Declares :
    (required : List String) (worker : Option String) (db : Db)
    → ((worker_eligibility required worker db).eligible ≡ true) ↔ Declares worker required db
worker_eligibility-Declares required none db = (λ h. cc, λ a. absurd a)
worker_eligibility-Declares required (some w) db =
    difference-nil required (get_worker_capabilities w db)

pub eligibility_of-Serves :
    (required : List String) (worker : Option String) (db : Db)
    → ((eligibility_of required worker db).eligible ≡ true) ↔ Serves required worker db
unfolding eligibility_of
eligibility_of-Serves [] worker db = (λ _. tt, λ _. refl)
eligibility_of-Serves (c ∷ cs) worker db = worker_eligibility-Declares (c ∷ cs) (identity worker) db

-- Where the task's required capabilities can be read, a worker is eligible for it exactly when there
-- is nothing required or the worker has a name and declared every one of them.
pub evaluate_worker_eligibility-Serves :
    (task : Task) (worker : Option String) (required : List String) (db : Db)
    → required_capabilities task ≡ ok required
    → evaluate_worker_eligibility task worker db ≡ ok (eligibility_of required worker db)
      × (((eligibility_of required worker db).eligible ≡ true) ↔ Serves required worker db)
unfolding evaluate_worker_eligibility
evaluate_worker_eligibility-Serves task worker required db e =
    (rw (evaluate_worker_eligibility, e) refl, eligibility_of-Serves required worker db)

-- A guarded claim of a stored task is the claim itself for a worker that declared everything, with the
-- verdict beside it, and raises for any other.
pub claim_task_if_eligible-Serves :
    (c : Call) (task_id : String) (worker : String) (minutes : ℤ) (role : String)
    (provider : Option String) (model : Option String) (task : Task) (required : List String)
    (db : Db)
    → task_by_id task_id db ≡ some task
    → required_capabilities task ≡ ok required
    → (Serves required (some worker) db
        × (claim_task_if_eligible c task_id worker minutes role provider model db
            ≡ with_eligibility
                (eligibility_of required (some worker) db)
                (claim_task c task_id worker minutes role provider model db)))
      ⊎ ((¬ Serves required (some worker) db)
          × (claim_task_if_eligible c task_id worker minutes role provider model db
              ≡ raised (not_eligible (eligibility_of required (some worker) db))))
unfolding claim_task_if_eligible evaluate_worker_eligibility
claim_task_if_eligible-Serves c task_id worker minutes role provider model task required db here e =
    elim (Bool-cases (eligibility_of required (some worker) db).eligible) [
      | inl y ↦ inl (
        (eligibility_of-Serves required (some worker) db).0 y,
        rw (claim_task_if_eligible, here, evaluate_worker_eligibility, e, y) refl,
      )
      | inr n ↦ inr (
        λ s. cc ((eligibility_of-Serves required (some worker) db).1 s, n),
        rw (claim_task_if_eligible, here, evaluate_worker_eligibility, e, n) refl,
      )
    ]

contains-insert_text :
    (s c : String) (ts : List String) → contains (insert_text s ts) c ≡ (c == s || contains ts c)
unfolding insert_text
contains-insert_text s c [] = refl
contains-insert_text s c (t ∷ ts) = ground (arith, contains-insert_text s c ts)

contains-sort_texts : (ss : List String) (c : String) → contains (sort_texts ss) c ≡ contains ss c
unfolding sort_texts
contains-sort_texts [] c = refl
contains-sort_texts (s ∷ ss) c =
    contains-insert_text s c (sort_texts ss) ∙ ap (λ b. c == s || b) (contains-sort_texts ss c)

names_of : String → List WorkerCapability → List String
names_of w rows = map (λ r. r.capability) (select (λ r. r.worker == w) rows)

-- The names of a worker after the DELETE and the INSERTs
names_of-append :
    (w : String) (xs ys : List WorkerCapability)
    → names_of w (xs ++ ys) ≡ names_of w xs ++ names_of w ys
unfolding names_of select
names_of-append w [] ys = refl
names_of-append w (x ∷ xs) ys = ground (arith, names_of-append w xs ys)

names_of-own : (w : String) (cs : List String) → names_of w (map (row_of w) cs) ≡ cs
unfolding names_of select
names_of-own w [] = refl
names_of-own w (c ∷ cs) = ground (arith, names_of-own w cs)

names_of-other : (v w : String) (cs : List String) → v ≢ w → names_of v (map (row_of w) cs) ≡ []
unfolding names_of select
names_of-other v w [] n = refl
names_of-other v w (c ∷ cs) n = ground (arith, names_of-other v w cs n)

names_of-deleted :
    (w : String) (rows : List WorkerCapability)
    → names_of w (select (λ r. not (r.worker == w)) rows) ≡ []
unfolding names_of select
names_of-deleted w [] = refl
names_of-deleted w (r ∷ rs) = ground (arith, names_of-deleted w rs)

names_of-kept :
    (v w : String) (rows : List WorkerCapability)
    → v ≢ w
    → names_of v (select (λ r. not (r.worker == w)) rows) ≡ names_of v rows
unfolding names_of select
names_of-kept v w [] n = refl
names_of-kept v w (r ∷ rs) n = ground (arith, names_of-kept v w rs n)

-- A name that passed the validation
abbrev pub IsName : String → Type 0
IsName c = (matches_pattern c ≡ true) × (is_reserved c ≡ false)

validate_capability-IsName : (s : String) {c : String} → validate_capability s ≡ ok c → IsName c
unfolding validate_capability
validate_capability-IsName s {c} e =
    let value = lower (strip s) in
    elim (Bool-cases (matches_pattern value)) [
      | inr m ↦ cc (rw m at e)
      | inl m ↦ elim (Bool-cases (is_reserved value)) [
        | inl r ↦ cc (rw (m, r) at e)
        | inr r ↦ subst IsName (ok-injective value c (rw (m, r) at e)) (m, r)
      ]
    ]

insert_text-IsName :
    (s : String) (ts : List String) → IsName s → All IsName ts → All IsName (insert_text s ts)
unfolding insert_text
insert_text-IsName s [] h a = (h, tt)
insert_text-IsName s (t ∷ ts) h a =
    let rest = insert_text-IsName s ts h a.1 in
    elim (Bool-cases (s == t)) [
      | inl e ↦ rw e a
      | inr e ↦ rw e (elim (Bool-cases (is_lt (compare s t))) [
        | inl l ↦ rw l (h, a)
        | inr l ↦ rw l (a.0, rest)
      ])
    ]

sort_texts-IsName : (ss : List String) → All IsName ss → All IsName (sort_texts ss)
unfolding sort_texts
sort_texts-IsName [] a = tt
sort_texts-IsName (s ∷ ss) a = insert_text-IsName s (sort_texts ss) a.0 (sort_texts-IsName ss a.1)

validate_all-IsName :
    (ss : List String) {cs : List String} → validate_all ss ≡ ok cs → All IsName cs
unfolding validate_all
validate_all-IsName [] {cs} e = subst (All IsName) (ok-injective [] cs e) tt
validate_all-IsName (s ∷ ss) {cs} e = elim (Result-cases (validate_capability s)) [
  | inr (x, r) ↦ absurd (ground (arith, e, r))
  | inl (c, v) ↦ elim (Result-cases (validate_all ss)) [
    | inr (x, r) ↦ absurd (ground (arith, e, v, r))
    | inl (rest, w) ↦
        subst (All IsName) (ok-injective (c ∷ rest) cs (ground (arith, e, v, w)))
          (validate_capability-IsName s v, validate_all-IsName ss w)
  ]
]

normalize_capabilities-IsName :
    (ss : List String) {cs : List String} → normalize_capabilities ss ≡ ok cs → All IsName cs
unfolding normalize_capabilities
normalize_capabilities-IsName ss {cs} e = elim (Result-cases (validate_all ss)) [
  | inr (x, r) ↦ absurd (ground (arith, e, r))
  | inl (valid, v) ↦
      subst (All IsName) (ok-injective (sort_texts valid) cs (ground (arith, e, v)))
        (sort_texts-IsName valid (validate_all-IsName ss v))
]

get-replace_own :
    (w : String) (n : List String) (db : Db)
    → get_worker_capabilities w (replace_capabilities w n db) ≡ sort_texts n
unfolding get_worker_capabilities replace_capabilities names_of
get-replace_own w n db = ap sort_texts (
    names_of-append w (select (λ r. not (r.worker == w)) db.worker_capabilities) (map (row_of w) n)
    ∙ rw (names_of-deleted w db.worker_capabilities) (names_of-own w n))

get-replace_other :
    (v w : String) (n : List String) (db : Db)
    → v ≢ w
    → get_worker_capabilities v (replace_capabilities w n db) ≡ get_worker_capabilities v db
unfolding get_worker_capabilities replace_capabilities names_of
get-replace_other v w n db differ = ap sort_texts (
    names_of-append v (select (λ r. not (r.worker == w)) db.worker_capabilities) (map (row_of w) n)
    ∙ rw (names_of-kept v w db.worker_capabilities differ)
        (rw (names_of-other v w n differ) (append-nil (names_of v db.worker_capabilities))))

declare_worker_capabilities-ok :
    (w : String) (caps n : List String) (db db' : Db)
    → declare_worker_capabilities w caps db ≡ ok (n, db')
    → (normalize_capabilities caps ≡ ok n) × (db' ≡ replace_capabilities w n db)
unfolding declare_worker_capabilities
declare_worker_capabilities-ok w caps n db db' e = elim (Bool-cases (is_blank w)) [
  | inl b ↦ absurd (ground (arith, e, b))
  | inr b ↦ elim (Result-cases (normalize_capabilities caps)) [
    | inr (x, r) ↦ absurd (ground (arith, e, b, r))
    | inl (valid, v) ↦ (ground arith, ground arith)
  ]
]

-- After a worker's declaration it has exactly the declared names, each of which has the form of a
-- name and is not reserved for authority, and every other worker has what it had.
pub declare_worker_capabilities-replaces :
    (w v c : String) (caps n : List String) (db db' : Db)
    → declare_worker_capabilities w caps db ≡ ok (n, db')
    → v ≢ w
    → (normalize_capabilities caps ≡ ok n)
      × All IsName n
      × (contains (get_worker_capabilities w db') c ≡ contains n c)
      × (get_worker_capabilities v db' ≡ get_worker_capabilities v db)
declare_worker_capabilities-replaces w v c caps n db db' e differ =
    let (valid, after) = declare_worker_capabilities-ok w caps n db db' e in
    (
      valid,
      normalize_capabilities-IsName caps valid,
      rw after (rw (get-replace_own w n db) (contains-sort_texts n c)),
      rw after (get-replace_other v w n db differ),
    )
