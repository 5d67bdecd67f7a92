-- ===== src/Json.antt =====
-- JSON values
pub mod Canonical
use personal_agent_runtime.Base.Text.{is_empty}
use personal_agent_runtime.Base.{
  zero, not, ℤ, pos, String, Bool, true, false, Option, none, some, List, [], ◌∷◌, ◌==◌, string_eq,
  if◌then◌else◌,
}

-- A Python float: mantissa and binary exponent, or one of the values that are not finite.
pub data Float : Type 0 where
  finite : ℤ → ℤ → Float
  nan inf neg_inf : Float

mutual
  pub data Json : Type 0 where
    null : Json
    bool : Bool → Json
    int : ℤ → Json
    float : Float → Json
    str : String → Json
    arr : Items → Json
    obj : Fields → Json

  pub data Items : Type 0 where
    nil : Items
    cons : Json → Items → Items

  pub data Fields : Type 0 where
    end : Fields
    field : String → Json → Fields → Fields

-- A dict written out
abbrev pub fields : List (String × Json) → Fields
fields [] = end
fields ((k, v) ∷ rest) = field k v (fields rest)

abbrev pub object : List (String × Json) → Json
object kvs = obj (fields kvs)

-- `d.get(k)`, with `none` where the key is absent
unfoldable pub get : String → Fields → Option Json
get k end = none
get k (field j v d) = if j == k then some v else get k d

-- `d[k] = v`
unfoldable pub put : String → Json → Fields → Fields
put k v end = field k v end
put k v (field j w d) = if j == k then field j v d else field j w (put k v d)

-- `{**a, **b}`
unfoldable pub merge : Fields → Fields → Fields
unfolding put
merge a end = a
merge a (field k v b) = merge (put k v a) b

-- `bool(value)` of what `json.loads` returns
unfoldable pub truthy : Json → Bool
truthy null = false
truthy (bool b) = b
truthy (int (pos zero)) = false
truthy (int _) = true
truthy (float (finite (pos zero) _)) = false
truthy (float _) = true
truthy (str s) = not (is_empty s)
truthy (arr nil) = false
truthy (arr (cons _ _)) = true
truthy (obj end) = false
truthy (obj (field _ _ _)) = true

-- `bool(d.get(k))`
unfoldable pub truthy_at : String → Fields → Bool
unfolding get truthy
truthy_at k d = elim (get k d) [ none ↦ false | some v ↦ truthy v ]

-- `value or default`
abbrev pub or_default : Option Json → Json → Json
or_default none d = d
or_default (some v) d = if truthy v then v else d

-- `d.get(k) == text`
unfoldable pub is_str_at : String → String → Fields → Bool
unfolding get
is_str_at k text d = elim (get k d) [ some (str s) ↦ s == text | _ ↦ false ]

-- A column that may be NULL, as `json.dumps` writes it.
abbrev pub opt_str : Option String → Json
opt_str none = null
opt_str (some s) = str s
