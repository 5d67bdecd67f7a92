-- ===== src/Base/Table/Sorted.antt =====
-- The first row of an ordering, and rows that a SELECT keeps.
use Prim.Native.Nat.{ℕ, ◌≤◌}
use personal_agent_runtime.Base.Table.{select, first_by}
use personal_agent_runtime.Base.Tests.{Bool-cases, Option-cases}
use personal_agent_runtime.Base.Lists.{All, any}
use mathlib.Core.Path.{◌≡◌, refl, subst}
use mathlib.Core.Logic.{inl, inr}
use mathlib.Core.Bool.{Bool, true, false}
use mathlib.Core.Option.{none, some, some-injective}
use mathlib.Core.List.{Memᴰ, List, [], ◌∷◌}
use native.Mathlib.Omega.{arith}

module _ {A : Type 0} where
  pub All-map_of : {P Q : A → Type 0} (xs : List A) → ((x : A) → P x → Q x) → All P xs → All Q xs
  All-map_of [] h a = tt
  All-map_of (x ∷ xs) h a = (h x a.0, All-map_of xs h a.1)

  pub All-select : (P : A → Type 0) (p : A → Bool) (xs : List A) → All P xs → All P (select p xs)
  unfolding select
  All-select P p [] h = tt
  All-select P p (x ∷ xs) h = elim (Bool-cases (p x)) [
    | inl e ↦ rw e (h.0, All-select P p xs h.1)
    | inr e ↦ rw e (All-select P p xs h.1)
  ]

  -- What is proved of the selected rows holds of each row that passes the test.
  pub All-of_select :
      (P : A → Type 0) (p : A → Bool) (xs : List A)
      → All P (select p xs)
      → All (λ x. p x ≡ true → P x) xs
  unfolding select
  All-of_select P p [] h = tt
  All-of_select P p (x ∷ xs) h = elim (Bool-cases (p x)) [
    | inl e ↦ (λ _. (rw e at h).0, All-of_select P p xs (rw e at h).1)
    | inr e ↦ (λ t. cc, All-of_select P p xs (rw e at h))
  ]

  pub All-test : (p : A → Bool) (xs : List A) → All (λ x. p x ≡ true) (select p xs)
  unfolding select
  All-test p [] = tt
  All-test p (x ∷ xs) = elim (Bool-cases (p x)) [
    | inl e ↦ rw e (e, All-test p xs)
    | inr e ↦ rw e (All-test p xs)
  ]

  -- What is selected, with the test that it passed
  pub All-selected :
      (P : A → Type 0) (p : A → Bool) (xs : List A)
      → All P xs
      → All (λ x. P x × (p x ≡ true)) (select p xs)
  unfolding select
  All-selected P p [] h = tt
  All-selected P p (x ∷ xs) h = elim (Bool-cases (p x)) [
    | inl e ↦ rw e ((h.0, e), All-selected P p xs h.1)
    | inr e ↦ rw e (All-selected P p xs h.1)
  ]

  module _ (before : A → A → Bool) where
    pub first_by-none : (xs : List A) → first_by before xs ≡ none → xs ≡ []
    unfolding first_by
    first_by-none [] e = refl
    first_by-none (x ∷ xs) e = ground arith

    pub All-first_by :
        (P : A → Type 0) (xs : List A) {m : A} → All P xs → first_by before xs ≡ some m → P m
    unfolding first_by
    All-first_by P [] h e = cc
    All-first_by P (x ∷ xs) {m} h e = elim (Option-cases (first_by before xs)) [
      | inl n ↦ subst P (some-injective x m (rw (n, first_by) at e)) h.0
      | inr (y, s) ↦ elim (Bool-cases (before y x)) [
        | inl b ↦ All-first_by P xs {m = m} h.1 (ground arith)
        | inr b ↦ subst P (some-injective x m (ground arith)) h.0
      ]
    ]

    module _ (irreflexive : (a : A) → before a a ≡ false)
        (asymmetric : (a b : A) → before a b ≡ true → before b a ≡ false)
        (not_before_trans : (a b c : A)
          → before a b ≡ false
          → before b c ≡ false
          → before a c ≡ false) where
      -- No row is before the first one.
      pub first_by-least :
          (xs : List A) {m : A} → first_by before xs ≡ some m → All (λ x. before x m ≡ false) xs
      unfolding first_by
      first_by-least [] e = tt
      first_by-least (x ∷ xs) {m} e = elim (Option-cases (first_by before xs)) [
        | inl n ↦ rw (first_by-none xs n) (
          subst (λ z. before x z ≡ false) (some-injective x m (ground arith)) (irreflexive x),
          tt,
        )
        | inr (y, s) ↦ elim (Bool-cases (before y x)) [
          | inl b ↦ (ground (arith, asymmetric y x), first_by-least xs {m = m} (ground arith))
          | inr b ↦
              let q : x ≡ m = some-injective x m (ground arith) in
              (
                rw (← q) (irreflexive x),
                All-map_of xs (λ z h. rw (← q) (not_before_trans z y x h b))
                    (first_by-least xs {m = y} s),
              )
        ]
      ]

  -- Every row of a list is one of its rows.
  pub All-Mem : (xs : List A) → All (λ x. Memᴰ x xs) xs
  All-Mem [] = tt
  All-Mem (x ∷ xs) = (Memᴰ.head refl, All-map_of xs (λ y h. Memᴰ.tail h) (All-Mem xs))

  -- The first row of an ordering that respects a rank is a row of the least rank.
  module _ (before : A → A → Bool) (rank : A → ℕ)
      (rises : (a b : A) → before a b ≡ true → rank a ≤ rank b)
      (falls : (a b : A) → before a b ≡ false → rank b ≤ rank a) where
    pub first_by-rank :
        (xs : List A) {m : A} → first_by before xs ≡ some m → All (λ x. rank m ≤ rank x) xs
    unfolding first_by
    first_by-rank [] e = tt
    first_by-rank (x ∷ xs) {m} e = elim (Option-cases (first_by before xs)) [
      | inl n ↦
          rw (first_by-none before xs n)
            (subst (λ z. rank z ≤ rank x) (some-injective x m (ground arith)) (omega arith), tt)
      | inr (y, s) ↦ elim (Bool-cases (before y x)) [
        | inl b ↦
            let q : y ≡ m = some-injective y m (ground arith) in
            (
              subst (λ z. rank z ≤ rank x) q (rises y x b),
              subst (λ z. All (λ w. rank z ≤ rank w) xs) q (first_by-rank xs {m = y} s),
            )
        | inr b ↦
            let q : x ≡ m = some-injective x m (ground arith) in
            (
              subst (λ z. rank z ≤ rank x) q (omega arith),
              All-map_of xs (λ w h. subst (λ z. rank z ≤ rank w) q (omega (arith, falls y x b, h)))
                  (first_by-rank xs {m = y} s),
            )
      ]
    ]

  pub select-nil : (p : A → Bool) (xs : List A) → select p xs ≡ [] → All (λ x. p x ≡ false) xs
  unfolding select
  select-nil p [] e = tt
  select-nil p (x ∷ xs) e = (ground arith, select-nil p xs (ground arith))

  -- Each row meets the test that it makes itself, if it passes its own.
  pub All-any_self :
      (r : A → A → Bool) (xs : List A)
      → ((x : A) → r x x ≡ true)
      → All (λ x. any (r x) xs ≡ true) xs
  All-any_self r [] self = tt
  All-any_self r (x ∷ xs) self = (
    rw (self x) refl,
    All-map_of xs
        (λ y h. rw h (elim (Bool-cases (r y x)) [ inl e ↦ rw e refl | inr e ↦ rw e refl ]))
        (All-any_self r xs self),
  )

  pub nil-select : (p : A → Bool) (xs : List A) → All (λ x. p x ≡ false) xs → select p xs ≡ []
  unfolding select
  nil-select p [] a = refl
  nil-select p (x ∷ xs) a = rw a.0 (nil-select p xs a.1)
