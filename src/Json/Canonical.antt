-- ===== src/Json/Canonical.antt =====
-- `json.dumps(value, sort_keys=True, separators=(",", ":"), allow_nan=False)`: the text that it writes
-- stands for the value with the keys of its dicts in order, and two such texts are the same exactly
-- when these are.
use native.Mathlib.Decide.{ℕ_discrete}
use text.Mathlib.Text.{is_lt}
use Prim.Native.String.{compare}
use personal_agent_runtime.Base.{String, Bool, true, false, string_eq, Eq, if◌then◌else◌, ◌&&◌}
use personal_agent_runtime.Json.{
  Json, float, arr, obj, Items, nil, cons, Fields, end, field, finite,
}

Json-discrete : Discrete Json
Json-discrete = hlevel (ℕ_discrete, string_eq.dec)

Fields-discrete : Discrete Fields
Fields-discrete = hlevel (ℕ_discrete, string_eq.dec)

instance unfoldable pub json_eq : Eq Json
unfolding Json-discrete
json_eq = record { dec = Json-discrete }

instance unfoldable pub fields_eq : Eq Fields
unfolding Fields-discrete
fields_eq = record { dec = Fields-discrete }

-- A pair put in its place among pairs in the order of their keys
unfoldable pub insert_field : String → Json → Fields → Fields
insert_field k v end = field k v end
insert_field k v (field j w d) =
    let rest = insert_field k v d in
    if is_lt (compare j k) then field j w rest else field k v (field j w d)

unfoldable mutual
  unfolding insert_field

  pub canonical : Json → Json
  canonical (arr items) = arr (canonical_items items)
  canonical (obj d) = obj (canonical_fields d)
  canonical v = v

  pub canonical_items : Items → Items
  canonical_items nil = nil
  canonical_items (cons v rest) = cons (canonical v) (canonical_items rest)

  pub canonical_fields : Fields → Fields
  canonical_fields end = end
  canonical_fields (field k v d) = insert_field k (canonical v) (canonical_fields d)

-- `allow_nan=False`: no float in the value is a NaN or infinite.
unfoldable mutual
  pub is_finite : Json → Bool
  is_finite (float (finite _ _)) = true
  is_finite (float _) = false
  is_finite (arr items) = all_finite items
  is_finite (obj d) = are_finite d
  is_finite _ = true

  pub all_finite : Items → Bool
  all_finite nil = true
  all_finite (cons v rest) = is_finite v && all_finite rest

  pub are_finite : Fields → Bool
  are_finite end = true
  are_finite (field _ v d) = is_finite v && are_finite d
