-- ===== src/Store/Transaction.antt =====
-- `with connect(path) as conn`: a transaction commits what it wrote, or raises and writes nothing.
use personal_agent_runtime.Base.{
  ℕ, ◌≡◌, refl, ℤ, String, Bool, Option, none, some, [], ◌∷◌, ◌++◌, ◌==◌, string_eq, if◌then◌else◌,
  not, ◌&&◌, ◌+◌, ◌-◌, ◌*◌, pos, negsuc, leb, ltb, is_some, ◌||◌,
}
use personal_agent_runtime.Base.Table.{find, update, count}
use personal_agent_runtime.Store.Rows.{Task, Run, Db}
use personal_agent_runtime.Json.{Json}

-- The Python exceptions, with their message where the code reads it.
pub data Error : Type 0 where
  value_error key_error runtime_error : String → Error
  type_error overflow_error integrity_error attribute_error file_not_found : Error

pub data Result {ℓ} (A : Type ℓ) : Type ℓ where
  ok : A → Result A
  raised : Error → Result A

pub ok-injective {ℓ} : {A : Type ℓ} (a b : A) → ok a ≡ ok b → a ≡ b
ok-injective a b e = cc

pub raised-injective {ℓ} :
    {A : Type ℓ} (x y : Error) → ◌≡◌ {A = Result A} (raised x) (raised y) → x ≡ y
raised-injective x y e = cc

infixr 4 ◌|>>◌
abbrev pub ◌|>>◌ {ℓ} : {A B : Type ℓ} → Result A → (A → Result B) → Result B
(raised e) |>> f = raised e
(ok a) |>> f = f a

-- A chain of checks that returned passed each of them.
pub bind-ok :
    {A B : Type 0} (r : Result A) (f : A → Result B) (b : B)
    → (r |>> f) ≡ ok b
    → (a : A) × (r ≡ ok a) × (f a ≡ ok b)
bind-ok (raised e) f b h = cc
bind-ok (ok a) f b h = (a, refl, h)

-- `limit < 1 or limit > 1000`
abbrev pub checked_limit : ℤ → Result ℕ
checked_limit (negsuc _) = raised (value_error "limit must be between 1 and 1000")
checked_limit (pos n) =
    if ltb n 1 || ltb 1000 n then raised (value_error "limit must be between 1 and 1000") else ok n

abbrev pub M : Type 0 → Type 0
M A = Db → Result (A × Db)

infixl 5 ◌>>=◌ ◌>>◌
abbrev pub ◌>>=◌ : {A B : Type 0} → M A → (A → M B) → M B
◌>>=◌ m f db = elim (m db) [ ok (a, db') ↦ f a db' | raised e ↦ raised e ]

abbrev pub ◌>>◌ : {A B : Type 0} → M A → M B → M B
m >> k = m >>= λ _. k

module _ {A : Type 0} where
  abbrev pub pure : A → M A
  pure a db = ok (a, db)

  abbrev pub raise : Error → M A
  raise e db = raised e

  abbrev pub gets : (Db → A) → M A
  gets f db = ok (f db, db)

  abbrev pub or_raise : Option A → Error → M A
  or_raise o e db = elim o [ none ↦ raised e | some a ↦ ok (a, db) ]

  abbrev pub lift : Result A → M A
  lift r db = elim r [ ok a ↦ ok (a, db) | raised e ↦ raised e ]

  -- The database after the `with` block.
  abbrev pub committed : Result (A × Db) → Db → Db
  committed (ok (_, db')) db = db'
  committed (raised _) db = db

abbrev pub raise_unless : Bool → Error → Db → Result (Unit {0} × Db)
raise_unless b e db = if b then ok (tt, db) else raised e

-- What a call reads from outside: the clock, and the results of its calls of `uuid.uuid4`.
pub record Call : Type 0 where
  pub now : ℕ
  pub uuid : ℕ → String

-- `datetime.max`, and one minute
abbrev pub max_datetime : ℕ
max_datetime = 315537897599999999

abbrev pub minute : ℕ
minute = 60000000

-- `now + timedelta(minutes=m)`
unfoldable pub plus_minutes : ℕ → ℤ → Result ℕ
plus_minutes now (pos m) =
    if leb (now + m * minute) max_datetime then ok (now + m * minute) else raised overflow_error
plus_minutes now (negsuc m) =
    if leb ((m + 1) * minute) now then ok (now - (m + 1) * minute) else raised overflow_error

-- `SELECT * FROM tasks WHERE id=?`
abbrev pub task_by_id : String → Db → Option Task
task_by_id id db = find (λ t. t.id == id) db.tasks

-- An UPDATE of a table, with its `rowcount`
abbrev pub update_tasks : (Task → Bool) → (Task → Task) → M ℕ
update_tasks p f db = ok (count p db.tasks, record db { tasks = update p f db.tasks })

abbrev pub update_runs : (Run → Bool) → (Run → Run) → M ℕ
update_runs p f db = ok (count p db.runs, record db { runs = update p f db.runs })

-- `tasks.id` is referenced by the row, and `PRAGMA foreign_keys` is on.
abbrev pub has_task : String → Db → Bool
has_task id db = is_some (task_by_id id db)

-- The primary key and the foreign key of a table are checked by each INSERT.
unfoldable pub insert_run : Run → M (Unit {0})
insert_run r db =
    if not (is_some (find (λ x. x.id == r.id) db.runs)) && has_task r.task_id db
    then ok (tt, record db { runs = db.runs ++ (r ∷ []) })
    else raised integrity_error

-- An event of a task. (No event of the runtime has a NULL task.)
unfoldable pub insert_event : String → String → String → Option String → Json → ℕ → M (Unit {0})
insert_event id task_id type actor payload ts db =
    if not (is_some (find (λ x. x.id == id) db.events)) && has_task task_id db
    then ok (
      tt,
      record db {
        events =
            db.events
            ++ (record {
              id = id;
              task_id = some task_id;
              type = type;
              actor = actor;
              payload = payload;
              created_at = ts;
            }
                ∷ []);
      },
    )
    else raised integrity_error
