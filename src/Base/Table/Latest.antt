-- ===== src/Base/Table/Latest.antt =====
-- `ORDER BY key`, and the last of the rows that pass a test.
use Prim.Native.Nat.{ℕ, ◌≤◌, ◌<◌}
use personal_agent_runtime.Base.Table.{select, sort_by, insert_by, last}
use personal_agent_runtime.Base.Equality.{if◌then◌else◌}
use personal_agent_runtime.Base.Tests.{Bool-cases, Option-cases, leb}
use personal_agent_runtime.Base.Table.Sorted.{All-map_of}
use personal_agent_runtime.Base.Lists.{All, any}
use mathlib.Core.Path.{◌≡◌, refl, subst, ◌∙◌, sym, ap}
use mathlib.Core.Logic.{◌⊎◌, inl, inr, ◌↔◌}
use mathlib.Core.Bool.{Bool, true, false, ◌&&◌}
use mathlib.Core.Option.{Option, none, some, some-injective}
use mathlib.Core.List.{List, [], ◌∷◌, Memᴰ}
use native.Mathlib.Omega.{arith}

module _ {A : Type 0} where
  -- `r` is the one of the rows with `P` that has the largest key, and the last of those in the table.
  abbrev pub IsLastBy : (A → Type 0) → (A → ℕ) → List A → A → Type 0
  IsLastBy P key [] r = ⊥
  IsLastBy P key (x ∷ xs) r =
      ((x ≡ r) × P x × All (λ s. P s → key s < key r) xs)
      ⊎ (IsLastBy P key xs r × (P x → key x ≤ key r))

  pub any-select : (p q : A → Bool) (xs : List A) → any q (select p xs) ≡ any (λ x. p x && q x) xs
  unfolding select
  any-select p q [] = refl
  any-select p q (x ∷ xs) = ground (arith, any-select p q xs)

  pub select-select :
      (p q : A → Bool) (xs : List A) → select q (select p xs) ≡ select (λ x. p x && q x) xs
  unfolding select
  select-select p q [] = refl
  select-select p q (x ∷ xs) = ground (arith, select-select p q xs)

  pub any-Mem : (p : A → Bool) (xs : List A) → any p xs ≡ true → (x : A) × Memᴰ x xs × (p x ≡ true)
  any-Mem p [] e = cc
  any-Mem p (x ∷ xs) e = elim (Bool-cases (p x)) [
    | inl h ↦ (x, Memᴰ.head refl, h)
    | inr h ↦ let (y, m, k) = any-Mem p xs (rw h at e) in (y, Memᴰ.tail m, k)
  ]

  pub Mem-any : (p : A → Bool) (xs : List A) {x : A} → Memᴰ x xs → p x ≡ true → any p xs ≡ true
  Mem-any p [] m h = elim m [ ]
  Mem-any p (y ∷ xs) (Memᴰ.head e) h = rw (← e, h) refl
  Mem-any p (y ∷ xs) {x} (Memᴰ.tail m) h = ground (arith, Mem-any p xs {x = x} m h)

  pub any-none : (p : A → Bool) (xs : List A) → any p xs ≡ false → All (λ x. p x ≡ false) xs
  any-none p [] e = tt
  any-none p (x ∷ xs) e = (ground arith, any-none p xs (ground arith))

  pub none-any : (p : A → Bool) (xs : List A) → All (λ x. p x ≡ false) xs → any p xs ≡ false
  none-any p [] a = refl
  none-any p (x ∷ xs) a = rw (a.0, none-any p xs a.1) refl

  -- The later one of a row and of the last row after it
  later : (A → ℕ) → A → Option A → A
  later key x none = x
  later key x (some y) = if leb (key x) (key y) then y else x

  latest : (A → Bool) → (A → ℕ) → List A → Option A
  unfolding later
  latest p key [] = none
  latest p key (x ∷ xs) =
      let rest = latest p key xs in if p x then some (later key x rest) else rest

  IsSorted : (A → ℕ) → List A → Type 0
  IsSorted key [] = Unit
  IsSorted key (x ∷ xs) = All (λ y. key x ≤ key y) xs × IsSorted key xs

  All-insert_by :
      (P : A → Type 0) (key : A → ℕ) (x : A) (xs : List A)
      → P x
      → All P xs
      → All P (insert_by key x xs)
  unfolding insert_by
  All-insert_by P key x [] h hs = (h, hs)
  All-insert_by P key x (y ∷ ys) h hs = elim (Bool-cases (leb (key x) (key y))) [
    | inl e ↦ rw e (h, hs)
    | inr e ↦ rw e (hs.0, All-insert_by P key x ys h hs.1)
  ]

  insert_by-IsSorted :
      (key : A → ℕ) (x : A) (xs : List A) → IsSorted key xs → IsSorted key (insert_by key x xs)
  unfolding insert_by IsSorted
  insert_by-IsSorted key x [] s = (tt, tt)
  insert_by-IsSorted key x (y ∷ ys) s = elim (Bool-cases (leb (key x) (key y))) [
    | inl e ↦
        let below : key x ≤ key y = ground arith in
        rw e ((below, All-map_of ys (λ z h. omega (arith, h, below)) s.0), s)
    | inr e ↦ rw e (
      All-insert_by (λ z. key y ≤ key z) key x ys (ground arith) s.0,
      insert_by-IsSorted key x ys s.1,
    )
  ]

  sort_by-IsSorted : (key : A → ℕ) (xs : List A) → IsSorted key (sort_by key xs)
  unfolding sort_by IsSorted
  sort_by-IsSorted key [] = tt
  sort_by-IsSorted key (x ∷ xs) =
      insert_by-IsSorted key x (sort_by key xs) (sort_by-IsSorted key xs)

  All-last :
      (P : A → Type 0) (p : A → Bool) (xs : List A) {r : A}
      → All P xs
      → last (select p xs) ≡ some r
      → P r
  unfolding select
  All-last P p [] h e = cc
  All-last P p (x ∷ xs) {r} h e = elim (Option-cases (last (select p xs))) [
    | inl n ↦ elim (Bool-cases (p x)) [
      | inl t ↦ subst P (some-injective x r (ground arith)) h.0
      | inr f ↦ absurd (ground arith)
    ]
    | inr (y, s) ↦ All-last P p xs {r = r} h.1 (ground arith)
  ]

  last-insert_by :
      (p : A → Bool) (key : A → ℕ) (x : A) (xs : List A)
      → IsSorted key xs
      → last (select p (insert_by key x xs))
        ≡ (if p x then some (later key x (last (select p xs))) else last (select p xs))
  unfolding insert_by select later IsSorted
  last-insert_by p key x [] s = ground arith
  last-insert_by p key x (z ∷ zs) s = elim (Bool-cases (leb (key x) (key z))) [
    | inl e ↦ elim (Option-cases (last (select p zs))) [
      | inl n ↦ ground arith
      | inr (y, l) ↦
          let above : key z ≤ key y = All-last (λ w. key z ≤ key w) p zs {r = y} s.0 l in
          ground arith
    ]
    | inr e ↦
        let rest = last-insert_by p key x zs s.1 in
        elim (Option-cases (last (select p zs))) [
          | inl n ↦ ground (arith, rest)
          | inr (y, l) ↦ ground (arith, rest)
        ]
  ]

  last-sort_by :
      (p : A → Bool) (key : A → ℕ) (xs : List A)
      → last (select p (sort_by key xs)) ≡ latest p key xs
  unfolding sort_by latest select
  last-sort_by p key [] = refl
  last-sort_by p key (x ∷ xs) =
      last-insert_by p key x (sort_by key xs) (sort_by-IsSorted key xs)
      ∙ rw (last-sort_by p key xs) refl

  module _ (P : A → Type 0) (p : A → Bool) (decides : (x : A) → (p x ≡ true) ↔ P x)
      (key : A → ℕ) where
    latest-none : (xs : List A) → latest p key xs ≡ none → All (λ x. ¬ P x) xs
    unfolding latest
    latest-none [] e = tt
    latest-none (x ∷ xs) e = elim (Bool-cases (p x)) [
      | inl t ↦ absurd (cc (rw t at e))
      | inr f ↦ (λ h. cc ((decides x).1 h, f), latest-none xs (rw f at e))
    ]

    none-latest : (xs : List A) → All (λ x. ¬ P x) xs → latest p key xs ≡ none
    unfolding latest
    none-latest [] a = refl
    none-latest (x ∷ xs) a = elim (Bool-cases (p x)) [
      | inl t ↦ absurd (a.0 ((decides x).0 t))
      | inr f ↦ rw f (none-latest xs a.1)
    ]

    IsLastBy-bound : (xs : List A) (r : A) → IsLastBy P key xs r → All (λ s. P s → key s ≤ key r) xs
    IsLastBy-bound [] r h = absurd h
    IsLastBy-bound (x ∷ xs) r (inl (e, h, a)) =
        (λ _. rw e (omega arith), All-map_of xs (λ s below k. omega (arith, below k)) a)
    IsLastBy-bound (x ∷ xs) r (inr (h, below)) = (below, IsLastBy-bound xs r h)

    latest-IsLastBy : (xs : List A) (r : A) → latest p key xs ≡ some r → IsLastBy P key xs r
    unfolding latest later
    latest-IsLastBy [] r e = cc
    latest-IsLastBy (x ∷ xs) r e = elim (Bool-cases (p x)) [
      | inr f ↦ inr (latest-IsLastBy xs r (rw f at e), λ h. absurd (cc ((decides x).1 h, f)))
      | inl t ↦ elim (Option-cases (latest p key xs)) [
        | inl n ↦
            let q : x ≡ r = some-injective x r (ground (arith, e, t, n)) in
            inl (q, (decides x).0 t, All-map_of xs (λ s no h. absurd (no h)) (latest-none xs n))
        | inr (y, l) ↦
            let past : IsLastBy P key xs y = latest-IsLastBy xs y l in
            elim (Bool-cases (leb (key x) (key y))) [
              | inl b ↦
                  let q : y ≡ r = some-injective y r (ground (arith, e, t, l, b)) in
                  inr (subst (λ z. IsLastBy P key xs z) q past, λ _. rw (← q) (ground arith))
              | inr b ↦
                  let q : x ≡ r = some-injective x r (ground (arith, e, t, l, b)) in
                  inl (
                    q,
                    (decides x).0 t,
                    All-map_of xs (λ s below h. rw (← q) (ground (arith, below h, b)))
                        (IsLastBy-bound xs y past),
                  )
            ]
      ]
    ]

    latest-test :
        (Q : A → Type 0) (xs : List A) (r : A) → All Q xs → latest p key xs ≡ some r → P r × Q r
    unfolding latest later
    latest-test Q [] r a e = cc
    latest-test Q (x ∷ xs) r a e = elim (Bool-cases (p x)) [
      | inr f ↦ latest-test Q xs r a.1 (rw f at e)
      | inl t ↦ elim (Option-cases (latest p key xs)) [
        | inl n ↦
            let q : x ≡ r = some-injective x r (ground (arith, e, t, n)) in
            subst (λ z. P z × Q z) q ((decides x).0 t, a.0)
        | inr (y, l) ↦ elim (Bool-cases (leb (key x) (key y))) [
          | inl b ↦ latest-test Q xs r a.1 (ground (arith, e, t, l, b))
          | inr b ↦
              let q : x ≡ r = some-injective x r (ground (arith, e, t, l, b)) in
              subst (λ z. P z × Q z) q ((decides x).0 t, a.0)
        ]
      ]
    ]

    IsLastBy-latest : (xs : List A) (r : A) → IsLastBy P key xs r → latest p key xs ≡ some r
    unfolding latest later
    IsLastBy-latest [] r h = absurd h
    IsLastBy-latest (x ∷ xs) r (inl (q, h, a)) =
        let t : p x ≡ true = (decides x).1 h in
        elim (Option-cases (latest p key xs)) [
          | inl n ↦ rw (t, n) (ap (λ z. some z) q)
          | inr (y, l) ↦
              let (py, less) = latest-test (λ s. P s → key s < key r) xs y a l in
              let below : key y < key x = rw q (less py) in rw (t, l) (ground (arith, below, q))
        ]
    IsLastBy-latest (x ∷ xs) r (inr (h, below)) =
        let rest = IsLastBy-latest xs r h in
        elim (Bool-cases (p x)) [
          | inl t ↦
              let b : key x ≤ key r = below ((decides x).0 t) in rw (t, rest) (ground (arith, b))
          | inr f ↦ rw f rest
        ]

    -- The last of the sorted rows that pass the test
    pub last-IsLastBy :
        (xs : List A) (r : A) → (last (select p (sort_by key xs)) ≡ some r) ↔ IsLastBy P key xs r
    last-IsLastBy xs r = (
      λ e. latest-IsLastBy xs r (sym (last-sort_by p key xs) ∙ e),
      λ h. last-sort_by p key xs ∙ IsLastBy-latest xs r h,
    )

    pub last-none : (xs : List A) → (last (select p (sort_by key xs)) ≡ none) ↔ All (λ x. ¬ P x) xs
    last-none xs = (
      λ e. latest-none xs (sym (last-sort_by p key xs) ∙ e),
      λ a. last-sort_by p key xs ∙ none-latest xs a,
    )
