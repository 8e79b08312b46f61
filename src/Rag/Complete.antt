-- ===== src/Rag/Complete.antt =====
-- backend/app/rag_search.py: what `select_context` does not leave out, and when its evidence suffices.
use esafe.Prelude.{
  ℕ, suc, true, false, ◌≡◌, ◌≤◌, ◌<◌, refl, sym, subst, List, [], ◌∷◌, arith, inl, inr, Bool-cases,
  ◌||◌, ltb, leb, ◌==◌, ==_refl, length, exists, exists-append, filter, All, All-map,
  length-sort_by, length-filter-sort_by, exists-sort_by,
}
use esafe.Rag.Rows.{Floats, FusedCandidate}
use esafe.Rag.Selecting.{
  max_selected, of_document, of_chunk, Picked, taken, is_used, fill, fill_if_short, group_passes,
  picked, context_order, select_context,
}
use esafe.Rag.Passes.{still_room, fill_induction}
use esafe.Rag.Bounds.{picked-Kept}

module _ (fl : Floats) where
  used-taken :
      (limit : ℕ) (write : ℕ → ℕ) (c b : FusedCandidate fl) (s : Picked fl)
      → s.per_document b.row.document_id ≤ write (s.per_document b.row.document_id)
      → is_used fl limit c s ≡ true
      → is_used fl limit c (taken fl write b s) ≡ true
  unfolding is_used taken
  used-taken limit write c b s grows h =
      elim (Bool-cases (b.row.document_id == c.row.document_id)) [
        | inl y ↦
            let same : b.row.document_id ≡ c.row.document_id = ground arith in
            let grew = subst (λ k. s.per_document k ≤ write (s.per_document k)) same grows in
            rw (y, exists-append) (ground (arith, h))
        | inr n ↦ rw (n, exists-append) (ground (arith, h))
      ]

  used_itself :
      (limit : ℕ) (write : ℕ → ℕ) (c : FusedCandidate fl) (s : Picked fl)
      → is_used fl limit c (taken fl write c s) ≡ true
  unfolding is_used taken exists
  used_itself limit write c s = rw exists-append (ground (arith, ==_refl c.row.chunk_id))

  fill_skip :
      (c : FusedCandidate fl) (cs : List (FusedCandidate fl)) (s : Picked fl)
      → is_used fl 2 c s ≡ true
      → fill fl 2 suc (c ∷ cs) s ≡ fill fl 2 suc cs s
  unfolding fill
  fill_skip c cs s y = rw y refl

  fill_stop :
      (c : FusedCandidate fl) (cs : List (FusedCandidate fl)) (s : Picked fl)
      → is_used fl 2 c s ≡ false
      → (length (taken fl suc c s).selected == max_selected) ≡ true
      → fill fl 2 suc (c ∷ cs) s ≡ taken fl suc c s
  unfolding fill
  fill_stop c cs s n t = rw n (rw t refl)

  fill_go :
      (c : FusedCandidate fl) (cs : List (FusedCandidate fl)) (s : Picked fl)
      → is_used fl 2 c s ≡ false
      → (length (taken fl suc c s).selected == max_selected) ≡ false
      → fill fl 2 suc (c ∷ cs) s ≡ fill fl 2 suc cs (taken fl suc c s)
  unfolding fill
  fill_go c cs s n t = rw n (rw t refl)

  used_later :
      (c : FusedCandidate fl) (cs : List (FusedCandidate fl)) (s : Picked fl)
      → length s.selected < max_selected
      → is_used fl 2 c s ≡ true
      → is_used fl 2 c (fill fl 2 suc cs s) ≡ true
  used_later c cs s =
      fill_induction fl (λ s. is_used fl 2 c s ≡ true) 2 suc
        (λ b s n r h. used-taken 2 suc c b s (omega arith) h) cs s

  -- The last pass, when it does not end full, has used every candidate.
  fill_complete :
      (cs : List (FusedCandidate fl)) (s : Picked fl)
      → length s.selected < max_selected
      → length (fill fl 2 suc cs s).selected < max_selected
      → All (λ c. is_used fl 2 c (fill fl 2 suc cs s) ≡ true) cs
  fill_complete [] s room short = tt
  fill_complete (c ∷ cs) s room short =
      let used_by : Picked fl → Type 0 = λ r. All (λ c. is_used fl 2 c r ≡ true) (c ∷ cs) in
      elim (Bool-cases (is_used fl 2 c s)) [
        | inl y ↦
            let same = fill_skip c cs s y in
            subst used_by (sym same) (
              used_later c cs s room y,
              fill_complete cs s room (subst (λ r. length r.selected < max_selected) same short),
            )
        | inr n ↦
            let next = taken fl suc c s in
            elim (Bool-cases (length next.selected == max_selected)) [
              | inl t ↦
                  let full =
                    subst (λ r. length r.selected < max_selected) (fill_stop c cs s n t) short in
                  absurd (ground (arith, t, full))
              | inr t ↦
                  let roomy = still_room fl suc c s room t in
                  let same = fill_go c cs s n t in
                  subst used_by (sym same) (
                    used_later c cs next roomy (used_itself 2 suc c s),
                    fill_complete cs next roomy
                        (subst (λ r. length r.selected < max_selected) same short),
                  )
            ]
      ]

  picked_complete :
      (cs : List (FusedCandidate fl))
      → length (picked fl cs).selected < max_selected
      → All (λ c. is_used fl 2 c (picked fl cs) ≡ true) cs
  unfolding picked fill_if_short
  picked_complete cs short =
      let mid = fill_if_short fl 1 (λ n. 1) cs (group_passes fl cs) in
      elim (Bool-cases (ltb (length mid.selected) max_selected)) [
        | inl y ↦ rw y (fill_complete cs mid (ground arith) (rw y at short))
        | inr n ↦ absurd (ground (arith, rw n at short))
      ]

-- A context of fewer than twelve chunks leaves no candidate out that it could take: the chunk of every
-- candidate is selected, or two chunks of its document are.
pub select_context_complete :
    (fl : Floats) (cs : List (FusedCandidate fl))
    → length (select_context fl cs) < 12
    → All
        (λ c.
          (exists (of_chunk fl c) (select_context fl cs)
            || leb 2 (length (filter (of_document fl c.row.document_id) (select_context fl cs))))
          ≡ true)
        cs
unfolding select_context is_used
select_context_complete fl cs short =
    let p = (picked fl cs).selected in
    All-map (λ c. is_used fl 2 c (picked fl cs) ≡ true)
      (λ c.
        (exists (of_chunk fl c) (select_context fl cs)
          || leb 2 (length (filter (of_document fl c.row.document_id) (select_context fl cs))))
        ≡ true)
      cs
      (λ c h.
        rw
          (
            exists-sort_by (context_order fl) (of_chunk fl c) p,
            length-filter-sort_by (context_order fl) (of_document fl c.row.document_id) p,
            sym ((picked-Kept fl cs).0 c.row.document_id),
          )
          h)
      (picked_complete fl cs (rw (length-sort_by (context_order fl) p) at short))
