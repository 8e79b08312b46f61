-- ===== src/Rag/Passes.antt =====
-- backend/app/rag_search.py: what each pass of `select_context` keeps.
use esafe.Prelude.{
  ℕ, suc, Bool, true, false, ◌≡◌, ◌≤◌, ◌<◌, refl, ap, subst, List, [], ◌∷◌, ◌++◌, ◌+◌, arith, inl,
  inr, Bool-cases, ◌==◌, if◌then◌else◌, length, exists, filter, All, All-any,
}
use esafe.Rag.Rows.{Floats, Group, FusedCandidate}
use esafe.Rag.Selecting.{
  max_selected, cap, of_group, of_document, of_chunk, Picked, taken, is_barred, group_pass, is_used,
  fill,
}

pub length-filter-snoc {ℓ} :
    {A : Type ℓ} (p : A → Bool) (xs : List A) (x : A)
    → length (filter p (xs ++ x ∷ [])) ≡ length (filter p xs) + (if p x then 1 else 0)
unfolding filter
length-filter-snoc p [] x = ground arith
length-filter-snoc p (y ∷ ys) x = ground (arith, length-filter-snoc p ys x)

pub length-snoc {ℓ} : {A : Type ℓ} (xs : List A) (x : A) → length (xs ++ x ∷ []) ≡ suc (length xs)
length-snoc [] x = refl
length-snoc (y ∷ ys) x = ap suc (length-snoc ys x)

module _ (fl : Floats) where
  pub still_room :
      (write : ℕ → ℕ) (c : FusedCandidate fl) (s : Picked fl)
      → length s.selected < max_selected
      → (length (taken fl write c s).selected == max_selected) ≡ false
      → length (taken fl write c s).selected < max_selected
  unfolding taken
  still_room write c s room t = ground (arith, length-snoc s.selected c)

  -- `per_document` counts the selected chunks of each document.
  abbrev pub Counted : Picked fl → Type 0
  Counted s = (d : ℕ) → s.per_document d ≡ length (filter (of_document fl d) s.selected)

  abbrev pub AtMost : ℕ → Picked fl → Type 0
  AtMost n s = (d : ℕ) → s.per_document d ≤ n

  pub taken-Counted :
      (write : ℕ → ℕ) (c : FusedCandidate fl) (s : Picked fl)
      → write (s.per_document c.row.document_id) ≡ suc (s.per_document c.row.document_id)
      → Counted s
      → Counted (taken fl write c s)
  unfolding taken
  taken-Counted write c s w h d =
      rw (length-filter-snoc (of_document fl d) s.selected c)
        (elim (Bool-cases (c.row.document_id == d)) [
          | inl y ↦
              let same : c.row.document_id ≡ d = ground arith in
              rw y (
                subst
                  (λ k.
                    write (s.per_document k) ≡ length (filter (of_document fl k) s.selected) + 1)
                  same (omega (arith, h c.row.document_id)))
          | inr n ↦ rw n (omega (arith, h d))
        ])

  pub taken-AtMost :
      (n : ℕ) (write : ℕ → ℕ) (c : FusedCandidate fl) (s : Picked fl)
      → write (s.per_document c.row.document_id) ≤ n
      → AtMost n s
      → AtMost n (taken fl write c s)
  unfolding taken
  taken-AtMost n write c s w h d = elim (Bool-cases (c.row.document_id == d)) [
    | inl y ↦
        let same : c.row.document_id ≡ d = ground arith in
        rw y (subst (λ k. write (s.per_document k) ≤ n) same w)
    | inr m ↦ rw m (h d)
  ]

  -- What the two tests say of a candidate that is taken.
  pub not_barred :
      (g : Group) (c : FusedCandidate fl) (s : Picked fl)
      → is_barred fl g c s ≡ false
      → (of_group fl g c ≡ true)
        × (s.per_document c.row.document_id ≡ 0)
        × (length (filter (of_group fl g) s.selected) < cap g)
  unfolding is_barred
  not_barred g c s n = (ground arith, ground arith, ground arith)

  pub not_used :
      (limit : ℕ) (c : FusedCandidate fl) (s : Picked fl)
      → is_used fl limit c s ≡ false
      → (exists (of_chunk fl c) s.selected ≡ false) × (s.per_document c.row.document_id < limit)
  unfolding is_used
  not_used limit c s n = (ground arith, ground arith)

  -- Induction on the pass of a group, over candidates with a property.
  pub group_pass_over {ℓ κ} :
      (Q : FusedCandidate fl → Type κ) (P : Picked fl → Type ℓ) (g : Group)
      → ((c : FusedCandidate fl) (s : Picked fl)
          → Q c
          → is_barred fl g c s ≡ false
          → P s
          → P (taken fl suc c s))
      → (cs : List (FusedCandidate fl)) (s : Picked fl) → All Q cs
      → P s
      → P (group_pass fl g cs s)
  unfolding group_pass
  group_pass_over Q P g step [] s q h = h
  group_pass_over Q P g step (c ∷ cs) s q h = elim (Bool-cases (is_barred fl g c s)) [
    | inl y ↦ rw y (group_pass_over Q P g step cs s q.1 h)
    | inr n ↦ rw n (group_pass_over Q P g step cs (taken fl suc c s) q.1 (step c s q.0 n h))
  ]

  pub group_pass_induction {ℓ} :
      (P : Picked fl → Type ℓ) (g : Group)
      → ((c : FusedCandidate fl) (s : Picked fl)
          → is_barred fl g c s ≡ false
          → P s
          → P (taken fl suc c s))
      → (cs : List (FusedCandidate fl)) (s : Picked fl) → P s
      → P (group_pass fl g cs s)
  group_pass_induction P g step cs s h =
      group_pass_over (λ c. Unit {0}) P g (λ c s q. step c s) cs s
        (All-any (λ c. Unit {0}) cs (λ c. tt)) h

  -- Induction on the second and the third pass, which take while fewer than twelve are selected.
  pub fill_over {ℓ κ} :
      (Q : FusedCandidate fl → Type κ) (P : Picked fl → Type ℓ) (limit : ℕ) (write : ℕ → ℕ)
      → ((c : FusedCandidate fl) (s : Picked fl)
          → Q c
          → is_used fl limit c s ≡ false
          → length s.selected < max_selected
          → P s
          → P (taken fl write c s))
      → (cs : List (FusedCandidate fl)) (s : Picked fl) → All Q cs
      → length s.selected < max_selected
      → P s
      → P (fill fl limit write cs s)
  unfolding fill
  fill_over Q P limit write step [] s q room h = h
  fill_over Q P limit write step (c ∷ cs) s q room h = elim (Bool-cases (is_used fl limit c s)) [
    | inl y ↦ rw y (fill_over Q P limit write step cs s q.1 room h)
    | inr n ↦
        let next = step c s q.0 n room h in
        rw n (elim (Bool-cases (length (taken fl write c s).selected == max_selected)) [
          | inl t ↦ rw t next
          | inr t ↦ rw t (
              fill_over Q P limit write step cs (taken fl write c s) q.1
                (still_room write c s room t) next)
        ])
  ]

  pub fill_induction {ℓ} :
      (P : Picked fl → Type ℓ) (limit : ℕ) (write : ℕ → ℕ)
      → ((c : FusedCandidate fl) (s : Picked fl)
          → is_used fl limit c s ≡ false
          → length s.selected < max_selected
          → P s
          → P (taken fl write c s))
      → (cs : List (FusedCandidate fl)) (s : Picked fl) → length s.selected < max_selected
      → P s
      → P (fill fl limit write cs s)
  fill_induction P limit write step cs s =
      fill_over (λ c. Unit {0}) P limit write (λ c s q. step c s) cs s
        (All-any (λ c. Unit {0}) cs (λ c. tt))
