-- ===== src/Base/Table/Keys.antt =====
-- Rows found by their key.
use personal_agent_runtime.Base.Table.{find, update, count}
use personal_agent_runtime.Base.Table.Rows.{find-append}
use personal_agent_runtime.Base.Table.Sorted.{All-map_of}
use personal_agent_runtime.Base.Lists.{All, any}
use personal_agent_runtime.Base.Equality.{if◌then◌else◌, ◌==◌, string_eq}
use Prim.Native.String.{String}
use mathlib.Core.Path.{◌≡◌, refl}
use mathlib.Core.Bool.{Bool, false, ◌&&◌}
use mathlib.Core.Option.{Option, none, some}
use mathlib.Core.List.{List, [], ◌∷◌, ◌++◌}
use native.Mathlib.Omega.{arith}

module _ {A : Type 0} (key : A → String) where
  abbrev pub by_key : String → List A → Option A
  by_key k = find (λ x. key x == k)

  -- The row of a key after an UPDATE that leaves keys alone
  pub by_key-update :
      (k : String) (p : A → Bool) (f : A → A) (xs : List A)
      → ((x : A) → key (f x) ≡ key x)
      → by_key k (update p f xs)
        ≡ elim (by_key k xs) [ some x ↦ some (if p x then f x else x) | none ↦ none ]
  unfolding find update
  by_key-update k p f [] same = refl
  by_key-update k p f (x ∷ xs) same = ground (arith, by_key-update k p f xs same, same x)

  -- No key stands twice.
  abbrev pub Distinct : List A → Type 0
  Distinct [] = Unit
  Distinct (x ∷ xs) = (by_key (key x) xs ≡ none) × Distinct xs

  pub Distinct-update :
      (p : A → Bool) (f : A → A) (xs : List A)
      → ((x : A) → key (f x) ≡ key x)
      → Distinct xs
      → Distinct (update p f xs)
  unfolding update
  Distinct-update p f [] same d = tt
  Distinct-update p f (x ∷ xs) same d =
      ground (arith, by_key-update (key x) p f xs same, same x, Distinct-update p f xs same d.1)

  pub Distinct-append :
      (xs : List A) (y : A) → by_key (key y) xs ≡ none → Distinct xs → Distinct (xs ++ (y ∷ []))
  unfolding find
  Distinct-append [] y new d = (refl, tt)
  Distinct-append (x ∷ xs) y new d =
      ground (arith, Distinct-append xs y, find-append (λ z. key z == key x) xs y)

  count-absent :
      (k : String) (c : A → Bool) (xs : List A)
      → by_key k xs ≡ none
      → count (λ x. key x == k && c x) xs ≡ 0
  unfolding count find
  count-absent k c [] e = refl
  count-absent k c (x ∷ xs) e = ground (arith, count-absent k c xs)

  -- The `rowcount` of an UPDATE by key is 1 or 0, as the row of the key passes the other tests.
  pub count-by_key :
      (k : String) (c : A → Bool) (xs : List A)
      → Distinct xs
      → count (λ x. key x == k && c x) xs
        ≡ elim (by_key k xs) [ some x ↦ if c x then 1 else 0 | none ↦ 0 ]
  unfolding count find
  count-by_key k c [] d = refl
  count-by_key k c (x ∷ xs) d = ground (arith, count-by_key k c xs d.1, count-absent (key x) c xs)

  pub by_key-append_new :
      (xs : List A) (y : A) → by_key (key y) xs ≡ none → by_key (key y) (xs ++ (y ∷ [])) ≡ some y
  unfolding find
  by_key-append_new xs y new = ground (arith, find-append (λ z. key z == key y) xs y)

  -- Rows that are found stay found.
  pub by_key-append_old :
      (k : String) (xs : List A) (y : A) {x : A}
      → by_key k xs ≡ some x
      → by_key k (xs ++ (y ∷ [])) ≡ some x
  unfolding find
  by_key-append_old k xs y old = ground (arith, find-append (λ z. key z == k) xs y)

  -- Where no key stands twice, each row is the one of its key.
  pub Distinct-self : (xs : List A) → Distinct xs → All (λ x. by_key (key x) xs ≡ some x) xs
  unfolding find
  Distinct-self [] d = tt
  Distinct-self (x ∷ xs) d =
      (ground arith, All-map_of xs (λ y h. ground (arith, d.0)) (Distinct-self xs d.1))

  any-absent :
      (k : String) (c : A → Bool) (xs : List A)
      → by_key k xs ≡ none
      → any (λ x. key x == k && c x) xs ≡ false
  unfolding find
  any-absent k c [] e = refl
  any-absent k c (x ∷ xs) e = ground (arith, any-absent k c xs)

  -- Whether some row of a key passes a test is whether the row of the key does.
  pub any-by_key :
      (k : String) (c : A → Bool) (xs : List A)
      → Distinct xs
      → any (λ x. key x == k && c x) xs ≡ elim (by_key k xs) [ some x ↦ c x | none ↦ false ]
  unfolding find
  any-by_key k c [] d = refl
  any-by_key k c (x ∷ xs) d = ground (arith, any-by_key k c xs d.1, any-absent (key x) c xs)
