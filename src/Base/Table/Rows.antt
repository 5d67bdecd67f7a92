-- ===== src/Base/Table/Rows.antt =====
-- What holds of the rows of a table after an UPDATE, an INSERT and a SELECT.
use personal_agent_runtime.Base.Table.{find, update, count}
use personal_agent_runtime.Base.Tests.{Bool-cases, leb}
use personal_agent_runtime.Base.Lists.{All}
use personal_agent_runtime.Base.Equality.{if◌then◌else◌}
use mathlib.Core.Path.{◌≡◌, refl, subst}
use mathlib.Core.Logic.{inl, inr}
use mathlib.Core.Bool.{Bool, true, false, ◌||◌}
use mathlib.Core.Option.{none, some, some-injective}
use mathlib.Core.List.{List, [], ◌∷◌, ◌++◌}
use native.Mathlib.Omega.{arith}

module _ {A : Type 0} where
  pub All-update :
      (P : A → Type 0) (p : A → Bool) (f : A → A) (xs : List A)
      → ((x : A) → P x → p x ≡ true → P (f x))
      → All P xs
      → All P (update p f xs)
  unfolding update
  All-update P p f [] keep h = tt
  All-update P p f (x ∷ xs) keep h = elim (Bool-cases (p x)) [
    | inl e ↦ rw e (keep x h.0 e, All-update P p f xs keep h.1)
    | inr e ↦ rw e (h.0, All-update P p f xs keep h.1)
  ]

  pub find-test : (p : A → Bool) (xs : List A) {x : A} → find p xs ≡ some x → p x ≡ true
  unfolding find
  find-test p [] e = cc
  find-test p (y ∷ xs) {x} e = ground (arith, find-test p xs {x = x})

  pub All-find :
      (P : A → Type 0) (p : A → Bool) (xs : List A) {x : A} → All P xs → find p xs ≡ some x → P x
  unfolding find
  All-find P p [] h e = cc
  All-find P p (y ∷ xs) {x} h e = elim (Bool-cases (p y)) [
    | inl t ↦ subst P (some-injective y x (rw t at e)) h.0
    | inr f ↦ All-find P p xs h.1 (rw f at e)
  ]

  -- A row that is inserted last is found if none before it is.
  pub find-append :
      (p : A → Bool) (xs : List A) (y : A)
      → find p (xs ++ (y ∷ []))
        ≡ elim (find p xs) [ some x ↦ some x | none ↦ if p y then some y else none ]
  unfolding find
  find-append p [] y = refl
  find-append p (x ∷ xs) y = ground (arith, find-append p xs y)

  -- Where no row passes a test, a row that is found by another one fails it.
  pub find-none :
      (p q : A → Bool) (xs : List A) {x : A} → find q xs ≡ none → find p xs ≡ some x → q x ≡ false
  unfolding find
  find-none p q [] n e = cc
  find-none p q (y ∷ xs) {x} n e = elim (Bool-cases (p y)) [
    | inl t ↦ subst (λ z. q z ≡ false) (some-injective y x (rw t at e)) (ground arith)
    | inr f ↦ find-none p q xs (ground arith) (rw f at e)
  ]

  -- An INSERT OR IGNORE that meets no conflict: no row passes either test.
  pub count-none :
      (p q : A → Bool) (xs : List A)
      → leb (count (λ x. p x || q x) xs) 0 ≡ true
      → (find p xs ≡ none) × (find q xs ≡ none)
  unfolding find count
  count-none p q [] e = (refl, refl)
  count-none p q (x ∷ xs) e = (ground (arith, count-none p q xs), ground (arith, count-none p q xs))
