-- ===== src/Prelude/Keys.antt =====
-- Tables with a primary key, a number.
use Prim.Native.Nat.{ℕ}
use mathlib.Core.Path.{◌≡◌, refl, sym, subst}
use mathlib.Core.Bool.{Bool, true, false}
use mathlib.Core.Logic.{inl, inr}
use mathlib.Core.Option
use mathlib.Core.Option.{Option, none, some}
use mathlib.Core.List.{List, [], ◌∷◌, ◌++◌}
use native.Mathlib.Omega.{arith}
use esafe.Prelude.Tests.{◌==◌, Bool-cases, if◌then◌else◌}
use esafe.Prelude.Tables.{All, All-append, All-both, All-map, All-update, select, exists, update}

module _ {ℓ} {A : Type ℓ} (key : A → ℕ) where
  -- No two rows have the same key.
  abbrev pub Unique : List A → Type 0
  Unique [] = Unit
  Unique (x ∷ xs) = All (λ y. (key y == key x) ≡ false) xs × Unique xs

  eq_turned : (a b : ℕ) → (a == b) ≡ false → (b == a) ≡ false
  eq_turned a b h = ground arith

  pub Unique-append :
      (xs : List A) (new : A)
      → Unique xs
      → exists (λ y. key y == key new) xs ≡ false
      → Unique (xs ++ new ∷ [])
  unfolding exists
  Unique-append [] new h free = (tt, tt)
  Unique-append (x ∷ xs) new h free = (
    All-append (λ y. (key y == key x) ≡ false) xs (new ∷ []) h.0
        (eq_turned (key x) (key new) (ground arith), tt),
    Unique-append xs new h.1 (ground arith),
  )

  same_key_ne : (a b c : ℕ) → (a == b) ≡ false → c ≡ a → (c == b) ≡ false
  same_key_ne a b c h e = ground arith

  kept_key :
      (p : A → Bool) (f : A → A) (x : A)
      → ((a : A) → key (f a) ≡ key a)
      → key (if p x then f x else x) ≡ key x
  kept_key p f x keeps = elim (Bool-cases (p x)) [ inl y ↦ rw y (keeps x) | inr n ↦ rw n ]

  pub Unique-update :
      (p : A → Bool) (f : A → A) (xs : List A)
      → ((a : A) → key (f a) ≡ key a)
      → Unique xs
      → Unique (update p f xs)
  unfolding update
  Unique-update p f [] keeps h = tt
  Unique-update p f (x ∷ xs) keeps h = (
    subst (λ k. All (λ y. (key y == k) ≡ false) (update p f xs)) (sym (kept_key p f x keeps))
        (All-update (λ y. (key y == key x) ≡ false) (λ y. (key y == key x) ≡ false) p f xs
          (λ y n t. same_key_ne (key y) (key x) (key (f y)) n (keeps y)) (λ y n t. n) h.0),
    Unique-update p f xs keeps h.1,
  )

  -- A row found by its key is the only one with that key.
  pub select-Unique :
      (k : ℕ) (xs : List A) (w : A)
      → Unique xs
      → select (λ a. key a == k) xs ≡ some w
      → All (λ v. (key v == k) ≡ true → v ≡ w) xs
  unfolding select
  select-Unique k [] w h e = tt
  select-Unique k (x ∷ xs) w h e = elim (Bool-cases (key x == k)) [
    | inl y ↦ (
      (λ v. ground arith),
      All-map (λ v. (key v == key x) ≡ false) (λ v. (key v == k) ≡ true → v ≡ w) xs
          (λ v n m. absurd (ground arith)) h.0,
    )
    | inr n ↦ ((λ m. absurd (ground arith)), select-Unique k xs w h.1 (rw n at e))
  ]

module _ {ℓ κ μ} {A : Type ℓ} (key : A → ℕ) (P : A → Type κ) (Q : A → Type μ) where
  -- An assignment to the row that a key finds: what it needs of that row, and what the others keep.
  pub All-update_found :
      (k : ℕ) (f : A → A) (xs : List A) (w : A)
      → Unique key xs
      → select (λ a. key a == k) xs ≡ some w
      → (P w → Q (f w))
      → ((v : A) → P v → Q v)
      → All P xs
      → All Q (update (λ a. key a == k) f xs)
  All-update_found k f xs w keys found hit miss h =
      All-update (λ v. P v × ((key v == k) ≡ true → v ≡ w)) Q (λ a. key a == k) f xs
        (λ v s y. subst (λ v. Q (f v)) (sym (s.1 y)) (hit (subst P (s.1 y) s.0)))
        (λ v s n. miss v s.0)
        (All-both P (λ v. (key v == k) ≡ true → v ≡ w) xs h (select-Unique key k xs w keys found))

-- What SELECT finds after an UPDATE that leaves its condition alone.
pub select-update {ℓ} :
    {A : Type ℓ} (q p : A → Bool) (f : A → A) (xs : List A)
    → ((a : A) → q (f a) ≡ q a)
    → select q (update p f xs) ≡ Option.map (λ a. if p a then f a else a) (select q xs)
unfolding select update
select-update q p f [] keeps = refl
select-update q p f (x ∷ xs) keeps = elim (Bool-cases (p x)) [
  | inl y ↦ rw y (elim (Bool-cases (q x)) [
    | inl t ↦ rw (keeps x) (rw t (rw y))
    | inr t ↦ rw (keeps x) (rw t (select-update q p f xs keeps))
  ])
  | inr n ↦ rw n (elim (Bool-cases (q x)) [
    | inl t ↦ rw t (rw n)
    | inr t ↦ rw t (select-update q p f xs keeps)
  ])
]
