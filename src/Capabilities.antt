-- ===== src/Capabilities.antt =====
-- Worker capabilities: par/capabilities.py.
pub mod Names
pub mod Laws
use personal_agent_runtime.Base.{
  ℤ, String, ◌<>◌, Bool, true, false, Option, none, some, List, [], ◌∷◌, ◌++◌, ◌==◌, string_eq,
  contains, if◌then◌else◌, not, ◌&&◌, map,
}
use personal_agent_runtime.Base.Text.{is_blank, is_empty}
use personal_agent_runtime.Base.Table.{select}
use personal_agent_runtime.Json.{Json, null, str, arr, Items, nil, cons, Fields, get}
use personal_agent_runtime.Store.{
  Task, WorkerCapability, Db, Error, value_error, key_error, runtime_error, Result, ok, raised, M,
  Call, task_by_id,
}
use personal_agent_runtime.Tasks.{members, claim_task}
use personal_agent_runtime.Capabilities.Names.{normalize_capabilities, sort_texts}

-- The members of a JSON list, if each is a text
unfoldable pub texts : Items → Option (List String)
texts nil = some []
texts (cons (str s) rest) = elim (texts rest) [ none ↦ none | some ss ↦ some (s ∷ ss) ]
texts (cons _ _) = none

-- The value at the key `required_capabilities`
abbrev pub listed_capabilities : Option Json → Result (List String)
listed_capabilities none = ok []
listed_capabilities (some null) = ok []
listed_capabilities (some (arr items)) = elim (texts items) [
  | none ↦ raised (value_error "task required_capabilities must be a list of strings")
  | some values ↦ normalize_capabilities values
]
listed_capabilities (some _) =
    raised (value_error "task required_capabilities must be a list of strings")

unfoldable pub required_capabilities : Task → Result (List String)
unfolding texts
required_capabilities task = elim (members task.context) [
  | raised e ↦ raised e
  | ok context ↦ listed_capabilities (get "required_capabilities" context)
]

abbrev pub row_of : String → String → WorkerCapability
row_of worker capability = record { worker = worker; capability = capability }

-- The DELETE and the INSERTs of `declare_worker_capabilities`
unfoldable pub replace_capabilities : String → List String → Db → Db
replace_capabilities worker normalized db = record db {
  worker_capabilities =
      select (λ r. not (r.worker == worker)) db.worker_capabilities
      ++ map (row_of worker) normalized;
}

-- The normalized list is the part of the result that is not given.
unfoldable pub declare_worker_capabilities : String → List String → M (List String)
unfolding replace_capabilities
declare_worker_capabilities worker capabilities db =
    if is_blank worker
    then raised (value_error "worker is required")
    else elim (normalize_capabilities capabilities) [
      | raised e ↦ raised e
      | ok normalized ↦ ok (normalized, replace_capabilities worker normalized db)
    ]

unfoldable pub get_worker_capabilities : String → Db → List String
get_worker_capabilities worker db =
    sort_texts (map (λ r. r.capability) (select (λ r. r.worker == worker) db.worker_capabilities))

pub record Eligibility : Type 0 where
  pub eligible : Bool
  pub worker : Option String
  pub required_capabilities : List String
  pub declared_capabilities : List String
  pub missing_capabilities : List String
  pub reason : String
  pub authority_expanded : Bool

-- A worker that is None or the empty text is no identity.
abbrev pub identity : Option String → Option String
identity none = none
identity (some w) = if is_empty w then none else some w

abbrev pub is_nil : List String → Bool
is_nil [] = true
is_nil (_ ∷ _) = false

-- `sorted(set(required) - set(declared))`, of a sorted list with no member twice
abbrev pub difference : List String → List String → List String
difference required declared = select (λ c. not (contains declared c)) required

-- What is said of a worker's identity, where something is required
abbrev pub worker_eligibility : List String → Option String → Db → Eligibility
worker_eligibility required none db = record {
  eligible = false;
  worker = none;
  required_capabilities = required;
  declared_capabilities = [];
  missing_capabilities = required;
  reason = "task requires capabilities but no worker identity was provided";
  authority_expanded = false;
}
worker_eligibility required (some w) db =
    let declared = get_worker_capabilities w db in
    let missing = difference required declared in
    record {
      eligible = is_nil missing;
      worker = some w;
      required_capabilities = required;
      declared_capabilities = declared;
      missing_capabilities = missing;
      reason =
          if is_nil missing
          then "all required capabilities are declared"
          else "worker is missing required capabilities";
      authority_expanded = false;
    }

abbrev pub declared_by : Option String → Db → List String
declared_by none db = []
declared_by (some w) db = get_worker_capabilities w db

unfoldable pub eligibility_of : List String → Option String → Db → Eligibility
eligibility_of [] worker db = record {
  eligible = true;
  worker = worker;
  required_capabilities = [];
  declared_capabilities = declared_by (identity worker) db;
  missing_capabilities = [];
  reason = "task has no required capabilities";
  authority_expanded = false;
}
eligibility_of (c ∷ cs) worker db = worker_eligibility (c ∷ cs) (identity worker) db

unfoldable pub evaluate_worker_eligibility : Task → Option String → Db → Result Eligibility
unfolding eligibility_of
evaluate_worker_eligibility task worker db = elim (required_capabilities task) [
  | raised e ↦ raised e
  | ok required ↦ ok (eligibility_of required worker db)
]

-- `", ".join(names)`
abbrev pub joined : List String → String
joined [] = ""
joined (n ∷ []) = n
joined (n ∷ (m ∷ rest)) = n <> (", " <> joined (m ∷ rest))

-- `claimed["eligibility"] = eligibility`
abbrev pub with_eligibility :
    Eligibility → Result ((Task × String) × Db) → Result (((Task × String) × Eligibility) × Db)
with_eligibility eligibility (raised e) = raised e
with_eligibility eligibility (ok (claimed, db)) = ok ((claimed, eligibility), db)

abbrev pub not_eligible : Eligibility → Error
not_eligible eligibility = runtime_error (
    "worker is not eligible for task; missing capabilities: "
    <> joined eligibility.missing_capabilities)

unfoldable pub claim_task_if_eligible :
    Call
    → String
    → String
    → ℤ
    → String
    → Option String
    → Option String
    → M ((Task × String) × Eligibility)
claim_task_if_eligible c task_id worker minutes role provider model db =
    elim (task_by_id task_id db) [
      | none ↦ raised (key_error task_id)
      | some task ↦ elim (evaluate_worker_eligibility task (some worker) db) [
        | raised e ↦ raised e
        | ok eligibility ↦
            if not eligibility.eligible
            then raised (not_eligible eligibility)
            else with_eligibility eligibility
                (claim_task c task_id worker minutes role provider model db)
      ]
    ]
