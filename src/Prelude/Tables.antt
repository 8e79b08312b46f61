-- ===== src/Prelude/Tables.antt =====
-- A database table as the list of its rows: SELECT, UPDATE … WHERE, count and the predicate that
-- holds of every row.
use Prim.Native.Nat.{ℕ, suc, ◌+◌}
use mathlib.Core.Path.{◌≡◌, refl, ap}
use mathlib.Core.Bool.{Bool, true, false, ◌||◌, not}
use mathlib.Core.Option.{Option, none, some}
use mathlib.Core.List.{List, [], ◌∷◌, ◌++◌}
use mathlib.Core.Logic.{inl, inr}
use native.Mathlib.Omega.{arith}
use esafe.Prelude.Tests.{if◌then◌else◌, Bool-cases}

module _ {ℓ} {A : Type ℓ} where
  abbrev pub length : List A → ℕ
  length [] = 0
  length (x ∷ xs) = suc (length xs)

  -- SELECT … WHERE p, of which the first row is taken.
  unfoldable pub select : (A → Bool) → List A → Option A
  select p [] = none
  select p (x ∷ xs) = if p x then some x else select p xs

  -- EXISTS (SELECT … WHERE p).
  unfoldable pub exists : (A → Bool) → List A → Bool
  exists p [] = false
  exists p (x ∷ xs) = p x || exists p xs

  unfoldable pub filter : (A → Bool) → List A → List A
  filter p [] = []
  filter p (x ∷ xs) = let rest = filter p xs in if p x then x ∷ rest else rest

  -- UPDATE … SET f WHERE p.
  unfoldable pub update : (A → Bool) → (A → A) → List A → List A
  update p f [] = []
  update p f (x ∷ xs) = (if p x then f x else x) ∷ update p f xs

  abbrev pub All {κ} : (A → Type κ) → List A → Type κ
  All P [] = Unit
  All P (x ∷ xs) = P x × All P xs

module _ {ℓ κ} {A : Type ℓ} (P : A → Type κ) where
  pub All-append : (xs ys : List A) → All P xs → All P ys → All P (xs ++ ys)
  All-append [] ys hx hy = hy
  All-append (x ∷ xs) ys hx hy = (hx.0, All-append xs ys hx.1 hy)

  pub All-select : (p : A → Bool) (xs : List A) (a : A) → All P xs → select p xs ≡ some a → P a
  unfolding select
  All-select p [] a h e = ground arith
  All-select p (x ∷ xs) a h e = elim (Bool-cases (p x)) [
    | inl y ↦ ground (arith, h.0)
    | inr n ↦ All-select p xs a h.1 (rw n at e)
  ]

  pub All-any : (xs : List A) → ((a : A) → P a) → All P xs
  All-any [] f = tt
  All-any (x ∷ xs) f = (f x, All-any xs f)

module _ {ℓ κ μ} {A : Type ℓ} (P : A → Type κ) (Q : A → Type μ) where
  pub All-map : (xs : List A) → ((a : A) → P a → Q a) → All P xs → All Q xs
  All-map [] f h = tt
  All-map (x ∷ xs) f h = (f x h.0, All-map xs f h.1)

  pub All-both : (xs : List A) → All P xs → All Q xs → All (λ a. P a × Q a) xs
  All-both [] hp hq = tt
  All-both (x ∷ xs) hp hq = ((hp.0, hq.0), All-both xs hp.1 hq.1)

  -- An update keeps a predicate of the rows if the assignment does on the rows that it takes and
  -- the others keep it by themselves.
  pub All-update :
      (p : A → Bool) (f : A → A) (xs : List A)
      → ((a : A) → P a → p a ≡ true → Q (f a))
      → ((a : A) → P a → p a ≡ false → Q a)
      → All P xs
      → All Q (update p f xs)
  unfolding update
  All-update p f [] hit miss h = tt
  All-update p f (x ∷ xs) hit miss h = elim (Bool-cases (p x)) [
    | inl y ↦ (rw y (hit x h.0 y), All-update p f xs hit miss h.1)
    | inr n ↦ (rw n (miss x h.0 n), All-update p f xs hit miss h.1)
  ]

module _ {ℓ} {A : Type ℓ} where
  -- What SELECT finds satisfies its condition.
  pub select_sound : (p : A → Bool) (xs : List A) (a : A) → select p xs ≡ some a → p a ≡ true
  unfolding select
  select_sound p [] a e = ground arith
  select_sound p (x ∷ xs) a e = elim (Bool-cases (p x)) [
    | inl y ↦ ground arith
    | inr n ↦ select_sound p xs a (rw n at e)
  ]

  pub select-exists :
      (p : A → Bool) (xs : List A) (a : A) → select p xs ≡ some a → exists p xs ≡ true
  unfolding select exists
  select-exists p [] a e = ground arith
  select-exists p (x ∷ xs) a e = elim (Bool-cases (p x)) [
    | inl y ↦ ground arith
    | inr n ↦ rw n (select-exists p xs a (rw n at e))
  ]

  pub exists-implied :
      (p q : A → Bool) (xs : List A)
      → ((a : A) → p a ≡ true → q a ≡ true)
      → exists p xs ≡ true
      → exists q xs ≡ true
  unfolding exists
  exists-implied p q [] f e = ground arith
  exists-implied p q (x ∷ xs) f e = ground (arith, f x, exists-implied p q xs f)

  -- A row that is found is still found when rows are added behind.
  pub select-append :
      (p : A → Bool) (xs ys : List A) (a : A) → select p xs ≡ some a → select p (xs ++ ys) ≡ some a
  unfolding select
  select-append p [] ys a e = ground arith
  select-append p (x ∷ xs) ys a e = elim (Bool-cases (p x)) [
    | inl y ↦ ground arith
    | inr n ↦ rw n (select-append p xs ys a (rw n at e))
  ]

  -- A test that no row passes finds nothing, and the other way round.
  pub exists-false : (p : A → Bool) (xs : List A) → exists p xs ≡ false → All (λ a. p a ≡ false) xs
  unfolding exists
  exists-false p [] h = tt
  exists-false p (x ∷ xs) h = elim (Bool-cases (p x)) [
    | inl y ↦ ground arith
    | inr n ↦ (n, exists-false p xs (rw n at h))
  ]

  pub exists-append :
      (p : A → Bool) (xs ys : List A) → exists p (xs ++ ys) ≡ (exists p xs || exists p ys)
  unfolding exists
  exists-append p [] ys = refl
  exists-append p (x ∷ xs) ys = elim (Bool-cases (p x)) [
    | inl y ↦ rw y
    | inr n ↦ rw n (exists-append p xs ys)
  ]

  pub filter-append :
      (p : A → Bool) (xs ys : List A) → filter p (xs ++ ys) ≡ filter p xs ++ filter p ys
  unfolding filter
  filter-append p [] ys = refl
  filter-append p (x ∷ xs) ys = elim (Bool-cases (p x)) [
    | inl y ↦ rw y (ap (λ zs. x ∷ zs) (filter-append p xs ys))
    | inr n ↦ rw n (filter-append p xs ys)
  ]

  pub filter-none : (p : A → Bool) (xs : List A) → All (λ a. p a ≡ false) xs → filter p xs ≡ []
  unfolding filter
  filter-none p [] h = refl
  filter-none p (x ∷ xs) h = rw h.0 (filter-none p xs h.1)

  -- A condition splits a table in two parts.
  pub length-filter :
      (p : A → Bool) (xs : List A)
      → length xs ≡ length (filter p xs) + length (filter (λ a. not (p a)) xs)
  unfolding filter
  length-filter p [] = refl
  length-filter p (x ∷ xs) = elim (Bool-cases (p x)) [
    | inl y ↦ rw y (ground (arith, length-filter p xs))
    | inr n ↦ rw n (ground (arith, length-filter p xs))
  ]

  pub length-update : (p : A → Bool) (f : A → A) (xs : List A) → length (update p f xs) ≡ length xs
  unfolding update
  length-update p f [] = refl
  length-update p f (x ∷ xs) = ap suc (length-update p f xs)
