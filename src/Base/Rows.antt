-- ===== src/Base/Rows.antt =====
-- Queries of a table as a list of rows: the first row that passes a test, a change of it, and how many
-- rows pass.
use Prim.Native.Nat.{ℕ, suc, ◌≤◌}
use mathlib.Core.Path.{◌≡◌, refl, ap, ◌∙◌}
use mathlib.Core.Logic.{inl, inr}
use mathlib.Core.Bool.{Bool, true, false}
use mathlib.Core.Option.{Option, none, some}
use mathlib.Core.List.{List, [], ◌∷◌, ◌++◌}
use native.Mathlib.Omega.{arith}
use devflowfix.Base.Tests.{if◌then◌else◌, Bool-cases}
use devflowfix.Base.Lists.{length, keep}

module _ {ℓ} {A : Type ℓ} where
  -- The first element that passes a test, as the first row of a query is.
  unfoldable pub find : (A → Bool) → List A → Option A
  find p [] = none
  find p (x ∷ xs) = let rest = find p xs in if p x then some x else rest

  unfoldable pub change_first : (A → Bool) → (A → A) → List A → List A
  change_first p f [] = []
  change_first p f (x ∷ xs) = let rest = change_first p f xs in if p x then f x ∷ xs else x ∷ rest

  -- The first row of a narrower test, where the wider one finds a row that passes it.
  pub find-change :
      (p q : A → Bool) (f : A → A) (xs : List A) (x : A)
      → find p xs ≡ some x
      → ((y : A) → q y ≡ true → p y ≡ true)
      → q (f x) ≡ true
      → find q (change_first p f xs) ≡ some (f x)
  unfolding find change_first
  find-change p q f [] x e n h = cc
  find-change p q f (y ∷ xs) x e n h = elim (Bool-cases (p y)) [
    | inl t ↦ let same : y ≡ x = ground (arith, e, t) in rw (t, same) (ground (arith, h))
    | inr t ↦ elim (Bool-cases (q y)) [
      | inl u ↦ absurd (ground (arith, n y u, t))
      | inr u ↦ ground (arith, t, u, find-change p q f xs x (ground (arith, e, t)) n h)
    ]
  ]

  pub find-last :
      (p q : A → Bool) (xs : List A) (x : A)
      → find p xs ≡ none
      → ((y : A) → q y ≡ true → p y ≡ true)
      → q x ≡ true
      → find q (xs ++ x ∷ []) ≡ some x
  unfolding find
  find-last p q [] x e n h = ground (arith, h)
  find-last p q (y ∷ xs) x e n h = elim (Bool-cases (q y)) [
    | inl u ↦ absurd (ground (arith, n y u, e))
    | inr u ↦ elim (Bool-cases (p y)) [
      | inl t ↦ absurd (ground (arith, t, e))
      | inr t ↦ ground (arith, u, find-last p q xs x (ground (arith, e, t)) n h)
    ]
  ]

  -- A change of rows that neither before nor after pass a test is not seen by it.
  pub find-unchanged :
      (p q : A → Bool) (f : A → A) (xs : List A)
      → ((y : A) → p y ≡ true → q y ≡ false)
      → ((y : A) → p y ≡ true → q (f y) ≡ false)
      → find q (change_first p f xs) ≡ find q xs
  unfolding find change_first
  find-unchanged p q f [] a b = refl
  find-unchanged p q f (y ∷ xs) a b = elim (Bool-cases (p y)) [
    | inl t ↦ ground (arith, t, a y t, b y t)
    | inr t ↦ ground (arith, t, find-unchanged p q f xs a b)
  ]

  pub find-append-none :
      (q : A → Bool) (xs : List A) (x : A) → q x ≡ false → find q (xs ++ x ∷ []) ≡ find q xs
  unfolding find
  find-append-none q [] x h = ground (arith, h)
  find-append-none q (y ∷ xs) x h = ground (arith, find-append-none q xs x h)

  pub find-passes : (p : A → Bool) (xs : List A) (x : A) → find p xs ≡ some x → p x ≡ true
  unfolding find
  find-passes p [] x e = cc
  find-passes p (y ∷ xs) x e = elim (Bool-cases (p y)) [
    | inl t ↦ let same : y ≡ x = ground (arith, e, t) in rw (← same) t
    | inr t ↦ find-passes p xs x (ground (arith, e, t))
  ]

  unfoldable pub count : (A → Bool) → List A → ℕ
  count p xs = length (keep p xs)

  pub count-change :
      (p q : A → Bool) (f : A → A) (xs : List A)
      → ((y : A) → q (f y) ≡ q y)
      → count q (change_first p f xs) ≡ count q xs
  unfolding count keep change_first
  count-change p q f [] h = refl
  count-change p q f (y ∷ xs) h = ground (arith, h y, count-change p q f xs h)

  pub find-count-none : (p : A → Bool) (xs : List A) → find p xs ≡ none → count p xs ≡ 0
  unfolding count keep find
  find-count-none p [] e = refl
  find-count-none p (y ∷ xs) e = ground (arith, e, find-count-none p xs)

  count-none-find :
      (q r : A → Bool) (xs : List A)
      → ((y : A) → r y ≡ true → q y ≡ true)
      → count q xs ≡ 0
      → find r xs ≡ none
  unfolding count keep find
  count-none-find q r [] n e = refl
  count-none-find q r (y ∷ xs) n e = elim (Bool-cases (r y)) [
    | inl t ↦ absurd (ground (arith, n y t, e))
    | inr t ↦ elim (Bool-cases (q y)) [
      | inl u ↦ absurd (ground (arith, u, e))
      | inr u ↦ ground (arith, t, u, e, count-none-find q r xs n)
    ]
  ]

  find-counts :
      (p q : A → Bool) (xs : List A) (x : A) → find p xs ≡ some x → q x ≡ true → 1 ≤ count q xs
  unfolding count keep find
  find-counts p q [] x e h = cc
  find-counts p q (y ∷ xs) x e h = elim (Bool-cases (p y)) [
    | inl t ↦ let same : q y ≡ true = ground (arith, e, t, h) in ground (arith, same)
    | inr t ↦ ground (arith, find-counts p q xs x (ground (arith, e, t)) h)
  ]

  -- The only row of a test is changed so that a narrower one no longer finds it.
  pub find-gone :
      (p q r : A → Bool) (f : A → A) (xs : List A) (x : A)
      → find p xs ≡ some x
      → q x ≡ true
      → r (f x) ≡ false
      → ((y : A) → r y ≡ true → q y ≡ true)
      → count q xs ≤ 1
      → find r (change_first p f xs) ≡ none
  unfolding find change_first count keep
  find-gone p q r f [] x e h g n c = cc
  find-gone p q r f (y ∷ xs) x e h g n c = elim (Bool-cases (p y)) [
    | inl t ↦
        let same : y ≡ x = ground (arith, e, t) in
        let first : q y ≡ true = ap q same ∙ h in
        let gone : r (f y) ≡ false = ap (λ z. r (f z)) same ∙ g in
        ground (arith, t, gone, count-none-find q r xs n (ground (arith, first, c)))
    | inr t ↦
        let later = find-counts p q xs x (ground (arith, e, t)) h in
        let skip : q y ≡ false = ground (arith, later, c) in
        let unseen : r y ≡ false = ground (arith, n y, skip) in
        ground (
          arith,
          t,
          unseen,
          find-gone p q r f xs x (ground (arith, e, t)) h g n (ground (arith, skip, c)),
        )
  ]

  pub count-append-one :
      (q : A → Bool) (xs : List A) (x : A)
      → count q (xs ++ x ∷ []) ≡ (if q x then suc (count q xs) else count q xs)
  unfolding count keep
  count-append-one q [] x = ground arith
  count-append-one q (y ∷ xs) x = ground (arith, count-append-one q xs x)

  -- The one row that is changed may be changed to one that fails the test.
  pub count-change-found :
      (p q : A → Bool) (f : A → A) (xs : List A) (x : A)
      → find p xs ≡ some x
      → q (f x) ≡ false
      → count q xs ≡ 0
      → count q (change_first p f xs) ≡ 0
  unfolding count keep change_first find
  count-change-found p q f [] x e h n = refl
  count-change-found p q f (y ∷ xs) x e h n = elim (Bool-cases (p y)) [
    | inl t ↦
        let same : y ≡ x = ground (arith, e, t) in
        let fails : q (f y) ≡ false = rw same h in ground (arith, t, n, fails)
    | inr t ↦
        let rest = count-change-found p q f xs x (ground (arith, e, t)) h in
        ground (arith, t, n, rest)
  ]

  pub find-fails :
      (p q : A → Bool) (xs : List A) (x : A) → find p xs ≡ some x → count q xs ≡ 0 → q x ≡ false
  find-fails p q xs x e h = elim (Bool-cases (q x)) [
    | inl t ↦ let least = find-counts p q xs x e t in absurd (omega arith)
    | inr t ↦ t
  ]
