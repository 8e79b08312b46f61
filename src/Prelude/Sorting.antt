-- ===== src/Prelude/Sorting.antt =====
-- ORDER BY and `sorted`: a stable sort by a Boolean order.
use Prim.Native.Nat.{suc}
use mathlib.Core.Path.{◌≡◌, refl, ap, ◌∙◌}
use mathlib.Core.Bool.{Bool, true, false}
use mathlib.Core.List.{List, [], ◌∷◌}
use mathlib.Core.Logic.{inl, inr}
use native.Mathlib.Omega.{arith}
use esafe.Prelude.Tests.{if◌then◌else◌, Bool-cases}
use esafe.Prelude.Tables.{length, exists, filter, All, All-map, All-both}

module _ {ℓ} {A : Type ℓ} (before : A → A → Bool) where
  unfoldable pub insert : A → List A → List A
  insert x [] = x ∷ []
  insert x (y ∷ ys) = let rest = insert x ys in if before x y then x ∷ y ∷ ys else y ∷ rest

  unfoldable pub sort_by : List A → List A
  sort_by [] = []
  sort_by (x ∷ xs) = insert x (sort_by xs)

  length-insert : (x : A) (xs : List A) → length (insert x xs) ≡ suc (length xs)
  unfolding insert
  length-insert x [] = refl
  length-insert x (y ∷ ys) = ground (arith, length-insert x ys)

  pub length-sort_by : (xs : List A) → length (sort_by xs) ≡ length xs
  unfolding sort_by
  length-sort_by [] = refl
  length-sort_by (x ∷ xs) = length-insert x (sort_by xs) ∙ ap suc (length-sort_by xs)

  All-insert {κ} : (P : A → Type κ) (x : A) (xs : List A) → P x → All P xs → All P (insert x xs)
  unfolding insert
  All-insert P x [] h hs = (h, tt)
  All-insert P x (y ∷ ys) h hs = elim (Bool-cases (before x y)) [
    | inl b ↦ rw b (h, (hs.0, hs.1))
    | inr b ↦ rw b (hs.0, All-insert P x ys h hs.1)
  ]

  -- What holds of all elements holds of all after the sort.
  pub All-sort_by {κ} : (P : A → Type κ) (xs : List A) → All P xs → All P (sort_by xs)
  unfolding sort_by
  All-sort_by P [] h = tt
  All-sort_by P (x ∷ xs) h = All-insert P x (sort_by xs) h.0 (All-sort_by P xs h.1)

  length-filter-insert :
      (p : A → Bool) (x : A) (xs : List A)
      → length (filter p (insert x xs)) ≡ length (filter p (x ∷ xs))
  unfolding insert filter
  length-filter-insert p x [] = refl
  length-filter-insert p x (y ∷ ys) = elim (Bool-cases (before x y)) [
    | inl b ↦ rw b
    | inr b ↦ rw b (ground (arith, length-filter-insert p x ys))
  ]

  -- A sort keeps how many elements pass a test.
  pub length-filter-sort_by :
      (p : A → Bool) (xs : List A) → length (filter p (sort_by xs)) ≡ length (filter p xs)
  unfolding sort_by filter
  length-filter-sort_by p [] = refl
  length-filter-sort_by p (x ∷ xs) =
      length-filter-insert p x (sort_by xs) ∙ ground (arith, length-filter-sort_by p xs)

  exists-insert : (p : A → Bool) (x : A) (xs : List A) → exists p (insert x xs) ≡ exists p (x ∷ xs)
  unfolding insert exists
  exists-insert p x [] = refl
  exists-insert p x (y ∷ ys) = elim (Bool-cases (before x y)) [
    | inl b ↦ rw b
    | inr b ↦ rw b (ground (arith, exists-insert p x ys))
  ]

  -- A sort keeps whether some element passes a test.
  pub exists-sort_by : (p : A → Bool) (xs : List A) → exists p (sort_by xs) ≡ exists p xs
  unfolding sort_by exists
  exists-sort_by p [] = refl
  exists-sort_by p (x ∷ xs) = exists-insert p x (sort_by xs) ∙ ground (arith, exists-sort_by p xs)

-- Every element is related to all elements behind it.
abbrev pub Pairwise {ℓ κ} : {A : Type ℓ} → (A → A → Type κ) → List A → Type κ
Pairwise R [] = Unit
Pairwise R (x ∷ xs) = All (R x) xs × Pairwise R xs

module _ {ℓ κ} {A : Type ℓ} (before : A → A → Bool) (R : A → A → Type κ)
    (first : (a b : A) → before a b ≡ true → R a b)
    (second : (a b : A) → before a b ≡ false → R b a)
    (through : (a b c : A) → R a b → R b c → R a c) where
  Pairwise-insert : (x : A) (xs : List A) → Pairwise R xs → Pairwise R (insert before x xs)
  unfolding insert
  Pairwise-insert x [] h = (tt, tt)
  Pairwise-insert x (y ∷ ys) h = elim (Bool-cases (before x y)) [
    | inl b ↦
        rw b ((first x y b, All-map (R y) (R x) ys (λ z r. through x y z (first x y b) r) h.0), h)
    | inr b ↦ rw b (All-insert before (R y) x ys (second x y b) h.0, Pairwise-insert x ys h.1)
  ]

  -- The order of the sort: any transitive relation that the test decides, one way or the other.
  pub Pairwise-sort_by : (xs : List A) → Pairwise R (sort_by before xs)
  unfolding sort_by
  Pairwise-sort_by [] = tt
  Pairwise-sort_by (x ∷ xs) = Pairwise-insert x (sort_by before xs) (Pairwise-sort_by xs)

module _ {ℓ κ μ} {A : Type ℓ} (R : A → A → Type κ) (S : A → A → Type μ) (self : (a : A) → S a a)
    (forth : (a b : A) → R a b → S a b) (back : (a b : A) → R a b → S b a) where
  -- What holds of two elements in either order and of an element with itself holds of any two.
  pub Pairwise-All : (xs : List A) → Pairwise R xs → All (λ a. All (S a) xs) xs
  Pairwise-All [] h = tt
  Pairwise-All (x ∷ xs) h = (
    (self x, All-map (R x) (S x) xs (forth x) h.0),
    All-map (λ a. S a x × All (S a) xs) (λ a. All (S a) (x ∷ xs)) xs (λ a k. k)
        (All-both (λ a. S a x) (λ a. All (S a) xs) xs (All-map (R x) (λ a. S a x) xs (back x) h.0)
          (Pairwise-All xs h.1)),
  )
