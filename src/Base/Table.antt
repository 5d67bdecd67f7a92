-- ===== src/Base/Table.antt =====
-- Tables in rowid order, and the SQL that the runtime issues on them.
pub mod Rows
pub mod Keys
pub mod Sorted
pub mod Order
pub mod Batch
pub mod Latest
use Prim.Native.Nat.{ℕ, ◌+◌}
use mathlib.Core.Path.{◌≡◌, refl, ◌∙◌, ap}
use mathlib.Core.Bool.{Bool, ◌||◌}
use mathlib.Core.Option.{Option, none, some}
use mathlib.Core.List.{List, [], ◌∷◌}
use native.Mathlib.Omega.{arith}
use personal_agent_runtime.Base.Equality.{if◌then◌else◌}
use personal_agent_runtime.Base.Lists.{any}
use personal_agent_runtime.Base.Tests.{leb}

module _ {A : Type 0} where
  -- `SELECT * FROM t WHERE p`
  unfoldable pub select : (A → Bool) → List A → List A
  select p [] = []
  select p (x ∷ xs) = let rest = select p xs in if p x then x ∷ rest else rest

  -- `SELECT * FROM t WHERE p`, `fetchone`
  unfoldable pub find : (A → Bool) → List A → Option A
  find p [] = none
  find p (x ∷ xs) = if p x then some x else find p xs

  -- `UPDATE t SET f WHERE p`
  unfoldable pub update : (A → Bool) → (A → A) → List A → List A
  update p f [] = []
  update p f (x ∷ xs) = (if p x then f x else x) ∷ update p f xs

  -- the `rowcount` of that UPDATE
  unfoldable pub count : (A → Bool) → List A → ℕ
  count p [] = 0
  count p (x ∷ xs) = (if p x then 1 else 0) + count p xs

  -- `ORDER BY … LIMIT 1`: the first row that no other is before.
  unfoldable pub first_by : (A → A → Bool) → List A → Option A
  first_by before [] = none
  first_by before (x ∷ xs) = elim (first_by before xs) [
    | none ↦ some x
    | some y ↦ if before y x then some y else some x
  ]

  -- `ORDER BY key` in ascending order; rows of one key keep their order.
  unfoldable pub insert_by : (A → ℕ) → A → List A → List A
  insert_by key x [] = x ∷ []
  insert_by key x (y ∷ ys) = if leb (key x) (key y) then x ∷ y ∷ ys else y ∷ insert_by key x ys

  unfoldable pub sort_by : (A → ℕ) → List A → List A
  unfolding insert_by
  sort_by key [] = []
  sort_by key (x ∷ xs) = insert_by key x (sort_by key xs)

  -- `rows[-1] if rows else None`
  abbrev pub last : List A → Option A
  last [] = none
  last (x ∷ xs) = elim (last xs) [ none ↦ some x | some y ↦ some y ]

  any-insert_by :
      (p : A → Bool) (key : A → ℕ) (x : A) (xs : List A)
      → any p (insert_by key x xs) ≡ (p x || any p xs)
  unfolding insert_by
  any-insert_by p key x [] = refl
  any-insert_by p key x (y ∷ ys) = ground (arith, any-insert_by p key x ys)

  -- Sorting keeps the rows.
  pub any-sort_by : (p : A → Bool) (key : A → ℕ) (xs : List A) → any p (sort_by key xs) ≡ any p xs
  unfolding sort_by
  any-sort_by p key [] = refl
  any-sort_by p key (x ∷ xs) =
      any-insert_by p key x (sort_by key xs) ∙ ap (λ b. p x || b) (any-sort_by p key xs)
