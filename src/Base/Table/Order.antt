-- ===== src/Base/Table/Order.antt =====
-- `ORDER BY created_at ASC, id ASC`
use Prim.Native.Nat.{ℕ}
use Prim.Native.String.{String, compare}
use text.Mathlib.Text.{is_lt}
use mathlib.Core.Path.{◌≡◌, refl, ◌∙◌, ap}
use mathlib.Core.Bool.{Bool, ◌||◌, ◌&&◌}
use mathlib.Core.Logic.{inl, inr}
use mathlib.Core.List.{List, [], ◌∷◌}
use native.Mathlib.Omega.{arith}
use personal_agent_runtime.Base.Equality.{if◌then◌else◌}
use personal_agent_runtime.Base.Lists.{All, any}
use personal_agent_runtime.Base.Tests.{ltb, leb, Bool-cases}

module _ {A : Type 0} (time : A → ℕ) (id : A → String) where
  -- A row put before the first one that is not before it
  unfoldable pub insert_row : A → List A → List A
  insert_row r [] = r ∷ []
  insert_row r (s ∷ ss) =
      let rest = insert_row r ss in
      if ltb (time r) (time s) || (leb (time r) (time s) && is_lt (compare (id r) (id s)))
      then r ∷ s ∷ ss
      else s ∷ rest

  unfoldable pub by_time_and_id : List A → List A
  unfolding insert_row
  by_time_and_id [] = []
  by_time_and_id (r ∷ rs) = insert_row r (by_time_and_id rs)

  any-insert_row :
      (p : A → Bool) (r : A) (ss : List A) → any p (insert_row r ss) ≡ (p r || any p ss)
  unfolding insert_row
  any-insert_row p r [] = refl
  any-insert_row p r (s ∷ ss) = ground (arith, any-insert_row p r ss)

  -- Sorting keeps the rows.
  pub any-by_time_and_id : (p : A → Bool) (rs : List A) → any p (by_time_and_id rs) ≡ any p rs
  unfolding by_time_and_id
  any-by_time_and_id p [] = refl
  any-by_time_and_id p (r ∷ rs) =
      any-insert_row p r (by_time_and_id rs) ∙ ap (λ b. p r || b) (any-by_time_and_id p rs)

  All-insert_row : (P : A → Type 0) (r : A) (ss : List A) → P r → All P ss → All P (insert_row r ss)
  unfolding insert_row
  All-insert_row P r [] h hs = (h, hs)
  All-insert_row P r (s ∷ ss) h hs =
      elim (Bool-cases
        (ltb (time r) (time s) || (leb (time r) (time s) && is_lt (compare (id r) (id s))))) [
          | inl e ↦ rw e (h, hs)
          | inr e ↦ rw e (hs.0, All-insert_row P r ss h hs.1)
        ]

  pub All-by_time_and_id : (P : A → Type 0) (rs : List A) → All P rs → All P (by_time_and_id rs)
  unfolding by_time_and_id
  All-by_time_and_id P [] h = tt
  All-by_time_and_id P (r ∷ rs) h =
      All-insert_row P r (by_time_and_id rs) h.0 (All-by_time_and_id P rs h.1)
