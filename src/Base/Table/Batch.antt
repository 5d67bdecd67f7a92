-- ===== src/Base/Table/Batch.antt =====
-- A bounded batch of the rows that a SELECT keeps, in order: how many they are, and that keys stay unique.
use Prim.Native.Nat.{ℕ, zero, suc}
use Prim.Native.String.{String, compare}
use text.Mathlib.Text.{is_lt}
use mathlib.Core.Path.{◌≡◌, refl, ◌∙◌, ap, sym}
use mathlib.Core.Logic.{inl, inr}
use mathlib.Core.Bool.{Bool, false, ◌||◌, ◌&&◌}
use mathlib.Core.Option.{none}
use mathlib.Core.List.{List, [], ◌∷◌}
use native.Mathlib.Omega.{arith}
use personal_agent_runtime.Base.Equality.{if◌then◌else◌, ◌==◌, string_eq}
use personal_agent_runtime.Base.Lists.{All, any, length, take}
use personal_agent_runtime.Base.Tests.{ltb, leb, Bool-cases}
use personal_agent_runtime.Base.Table.{select, find, count}
use personal_agent_runtime.Base.Table.Keys.{Distinct}
use personal_agent_runtime.Base.Table.Order.{insert_row, by_time_and_id}

module _ {A : Type 0} where
  pub All-take : (P : A → Type 0) (n : ℕ) (xs : List A) → All P xs → All P (take n xs)
  All-take P zero xs h = tt
  All-take P (suc n) [] h = tt
  All-take P (suc n) (x ∷ xs) h = (h.0, All-take P n xs h.1)

  pub length-take :
      (n : ℕ) (xs : List A) → length (take n xs) ≡ (if leb n (length xs) then n else length xs)
  length-take zero xs = ground arith
  length-take (suc n) [] = ground arith
  length-take (suc n) (x ∷ xs) = ground (arith, length-take n xs)

  pub length-select : (p : A → Bool) (xs : List A) → length (select p xs) ≡ count p xs
  unfolding select count
  length-select p [] = refl
  length-select p (x ∷ xs) = ground (arith, length-select p xs)

  pub any-count : (p : A → Bool) (xs : List A) → any p xs ≡ ltb 0 (count p xs)
  unfolding count
  any-count p [] = refl
  any-count p (x ∷ xs) = ground (arith, any-count p xs)

  find-take : (p : A → Bool) (n : ℕ) (xs : List A) → find p xs ≡ none → find p (take n xs) ≡ none
  unfolding find
  find-take p zero xs e = refl
  find-take p (suc n) [] e = refl
  find-take p (suc n) (x ∷ xs) e = ground (arith, find-take p n xs)

  find-select : (p q : A → Bool) (xs : List A) → find p xs ≡ none → find p (select q xs) ≡ none
  unfolding find select
  find-select p q [] e = refl
  find-select p q (x ∷ xs) e = ground (arith, find-select p q xs)

module _ {A : Type 0} (time : A → ℕ) (id : A → String) where
  length-insert_row : (r : A) (ss : List A) → length (insert_row time id r ss) ≡ suc (length ss)
  unfolding insert_row
  length-insert_row r [] = refl
  length-insert_row r (s ∷ ss) = ground (arith, length-insert_row r ss)

  pub length-by_time_and_id : (rs : List A) → length (by_time_and_id time id rs) ≡ length rs
  unfolding by_time_and_id
  length-by_time_and_id [] = refl
  length-by_time_and_id (r ∷ rs) =
      length-insert_row r (by_time_and_id time id rs) ∙ ap suc (length-by_time_and_id rs)

  find-insert_row :
      (p : A → Bool) (r : A) (ss : List A)
      → p r ≡ false
      → find p ss ≡ none
      → find p (insert_row time id r ss) ≡ none
  unfolding insert_row find
  find-insert_row p r [] f e = ground (arith, f)
  find-insert_row p r (s ∷ ss) f e = ground (arith, f, find-insert_row p r ss f)

  find-by_time_and_id :
      (p : A → Bool) (rs : List A) → find p rs ≡ none → find p (by_time_and_id time id rs) ≡ none
  unfolding by_time_and_id find
  find-by_time_and_id p [] e = refl
  find-by_time_and_id p (r ∷ rs) e =
      find-insert_row p r (by_time_and_id time id rs) (ground (arith, e))
        (find-by_time_and_id p rs (ground (arith, e)))

  Distinct-insert_row :
      (r : A) (ss : List A)
      → find (λ x. id x == id r) ss ≡ none
      → Distinct id ss
      → Distinct id (insert_row time id r ss)
  unfolding insert_row find
  Distinct-insert_row r [] e d = (refl, tt)
  Distinct-insert_row r (s ∷ ss) e d =
      elim (Bool-cases
        (ltb (time r) (time s) || (leb (time r) (time s) && is_lt (compare (id r) (id s))))) [
          | inl b ↦ rw b (e, d)
          | inr b ↦ elim (string_eq.dec (id s) (id r)) [
            | yes p ↦ absurd (ground (arith, e, p))
            | no n ↦ rw b (
              find-insert_row (λ x. id x == id s) r ss
                  (ground (arith, λ (q : id r ≡ id s). n (sym q))) d.0,
              Distinct-insert_row r ss (ground (arith, e, n)) d.1,
            )
          ]
        ]

  Distinct-by_time_and_id : (rs : List A) → Distinct id rs → Distinct id (by_time_and_id time id rs)
  unfolding by_time_and_id
  Distinct-by_time_and_id [] d = tt
  Distinct-by_time_and_id (r ∷ rs) d =
      Distinct-insert_row r (by_time_and_id time id rs)
        (find-by_time_and_id (λ x. id x == id r) rs d.0) (Distinct-by_time_and_id rs d.1)

  Distinct-select : (p : A → Bool) (xs : List A) → Distinct id xs → Distinct id (select p xs)
  unfolding select
  Distinct-select p [] d = tt
  Distinct-select p (x ∷ xs) d = elim (Bool-cases (p x)) [
    | inl e ↦ rw e (find-select (λ y. id y == id x) p xs d.0, Distinct-select p xs d.1)
    | inr e ↦ rw e (Distinct-select p xs d.1)
  ]

  Distinct-take : (n : ℕ) (xs : List A) → Distinct id xs → Distinct id (take n xs)
  Distinct-take zero xs d = tt
  Distinct-take (suc n) [] d = tt
  Distinct-take (suc n) (x ∷ xs) d =
      (find-take (λ y. id y == id x) n xs d.0, Distinct-take n xs d.1)

  -- The keys of a batch are unique where those of the table are.
  pub Distinct-batch :
      (n : ℕ) (p : A → Bool) (xs : List A)
      → Distinct id xs
      → Distinct id (take n (by_time_and_id time id (select p xs)))
  Distinct-batch n p xs d =
      Distinct-take n (by_time_and_id time id (select p xs))
        (Distinct-by_time_and_id (select p xs) (Distinct-select p xs d))
