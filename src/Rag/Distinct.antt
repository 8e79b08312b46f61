-- ===== src/Rag/Distinct.antt =====
-- backend/app/rag_search.py: every chunk is selected once, and no more are selected than there are
-- candidates.
use esafe.Prelude.{
  ℕ, not, length-filter, suc, Bool, true, false, ◌≡◌, ◌≤◌, ◌<◌, refl, ap, sym, ◌∙◌, subst, List, [],
  ◌∷◌, ◌++◌, arith, inl, inr, Bool-cases, ◌==◌, length, exists, filter, All, All-append, All-map,
  All-sort_by, length-filter-sort_by, ltb,
}
use esafe.Rag.Rows.{Floats, Group, official, past_incident, other_region, FusedCandidate}
use esafe.Rag.Selecting.{
  max_selected, of_document, of_chunk, Picked, none_picked, taken, group_pass, fill_if_short,
  group_passes, picked, context_order, select_context,
}
use esafe.Rag.Passes.{
  Counted, length-filter-snoc, not_barred, not_used, taken-Counted, group_pass_over, fill_over,
}
use esafe.Rag.Bundles.{item_of, check_item}

module _ (fl : Floats) (document_of : ℕ → ℕ) where
  abbrev pub chunk_is : ℕ → FusedCandidate fl → Bool
  chunk_is k c = c.row.chunk_id == k

  -- The document of a candidate is the one of its chunk, and its row can be stored as an item.
  abbrev pub IsStorable : FusedCandidate fl → Type 0
  IsStorable c =
      (c.row.document_id ≡ document_of c.row.chunk_id) × (check_item fl (item_of fl 0 1 c) ≡ true)

  -- Every selected chunk is selected once.
  abbrev pub Once : List (FusedCandidate fl) → Type 0
  Once cs = (k : ℕ) → length (filter (chunk_is k) cs) ≤ 1

  none_of_document :
      (c : FusedCandidate fl) (cs : List (FusedCandidate fl))
      → c.row.document_id ≡ document_of c.row.chunk_id
      → All IsStorable cs
      → length (filter (of_document fl c.row.document_id) cs) ≡ 0
      → exists (of_chunk fl c) cs ≡ false
  unfolding filter exists
  none_of_document c [] own h none = refl
  none_of_document c (d ∷ cs) own h none = elim (Bool-cases (d.row.chunk_id == c.row.chunk_id)) [
    | inl y ↦
        let chunk : d.row.chunk_id ≡ c.row.chunk_id = ground arith in
        let same : d.row.document_id ≡ c.row.document_id = h.0.0 ∙ ap document_of chunk ∙ sym own in
        absurd (ground (arith, same))
    | inr n ↦ rw n (none_of_document c cs own h.1 (ground arith))
  ]

  none_of_chunk :
      (c : FusedCandidate fl) (cs : List (FusedCandidate fl))
      → exists (of_chunk fl c) cs ≡ false
      → length (filter (chunk_is c.row.chunk_id) cs) ≡ 0
  unfolding filter exists
  none_of_chunk c [] h = refl
  none_of_chunk c (d ∷ cs) h = ground (arith, none_of_chunk c cs)

  Once-snoc :
      (c : FusedCandidate fl) (cs : List (FusedCandidate fl))
      → exists (of_chunk fl c) cs ≡ false
      → Once cs
      → Once (cs ++ c ∷ [])
  Once-snoc c cs new h k = elim (Bool-cases (c.row.chunk_id == k)) [
    | inr n ↦ rw (length-filter-snoc (chunk_is k) cs c, n) (omega (arith, h k))
    | inl y ↦
        let same : c.row.chunk_id ≡ k = ground arith in
        let free : length (filter (chunk_is k) cs) ≡ 0 =
          subst (λ j. length (filter (chunk_is j) cs) ≡ 0) same (none_of_chunk c cs new) in
        rw (length-filter-snoc (chunk_is k) cs c, y, free) (omega arith)
  ]

  abbrev Fine : Picked fl → Type 0
  Fine s = All IsStorable s.selected × Once s.selected

  taken-Fine :
      (write : ℕ → ℕ) (c : FusedCandidate fl) (s : Picked fl)
      → IsStorable c
      → exists (of_chunk fl c) s.selected ≡ false
      → Fine s
      → Fine (taken fl write c s)
  unfolding taken
  taken-Fine write c s q new h =
      (All-append IsStorable s.selected (c ∷ []) h.0 (q, tt), Once-snoc c s.selected new h.1)

  group_pass-Fine :
      (g : Group) (cs : List (FusedCandidate fl)) (s : Picked fl)
      → All IsStorable cs
      → Counted fl s × Fine s
      → Counted fl (group_pass fl g cs s) × Fine (group_pass fl g cs s)
  group_pass-Fine g cs s =
      group_pass_over fl IsStorable (λ s. Counted fl s × Fine s) g
        (λ c s q n h.
          let (its, unseen, below) = not_barred fl g c s n in
          let new =
            none_of_document c s.selected q.0 h.1.0 (sym (h.0 c.row.document_id) ∙ unseen) in
          (taken-Counted fl suc c s refl h.0, taken-Fine suc c s q new h.1))
        cs s

  fill-Fine :
      (limit : ℕ) (write : ℕ → ℕ) (cs : List (FusedCandidate fl)) (s : Picked fl)
      → All IsStorable cs
      → Fine s
      → Fine (fill_if_short fl limit write cs s)
  unfolding fill_if_short
  fill-Fine limit write cs s q h = elim (Bool-cases (ltb (length s.selected) max_selected)) [
    | inr n ↦ rw n h
    | inl y ↦ rw y (
        fill_over fl IsStorable Fine limit write
          (λ c s q n room k. taken-Fine write c s q (not_used fl limit c s n).0 k) cs s q
          (ground arith) h)
  ]

  pub select_context-Fine :
      (cs : List (FusedCandidate fl))
      → All IsStorable cs
      → All IsStorable (select_context fl cs) × Once (select_context fl cs)
  unfolding select_context picked group_passes
  select_context-Fine cs q =
      let start : Counted fl (none_picked fl) × Fine (none_picked fl) =
        unfold filter in ((λ d. refl), (tt, (λ k. omega arith))) in
      let one = group_pass-Fine official cs (none_picked fl) q start in
      let two = group_pass-Fine past_incident cs _ q one in
      let three = group_pass-Fine other_region cs _ q two in
      let four = fill-Fine 1 (λ n. 1) cs _ q three.1 in
      let five = fill-Fine 2 suc cs _ q four in
      (
        All-sort_by (context_order fl) IsStorable _ five.0,
        (λ k. rw (length-filter-sort_by (context_order fl) (chunk_is k)) (five.1 k)),
      )

  -- Candidates with these chunks.
  abbrev Among : List (FusedCandidate fl) → FusedCandidate fl → Type 0
  Among cs x = 0 < length (filter (chunk_is x.row.chunk_id) cs)

  Among-self : (cs : List (FusedCandidate fl)) → All (Among cs) cs
  unfolding filter
  Among-self [] = tt
  Among-self (c ∷ cs) =
      (ground arith, All-map (Among cs) (Among (c ∷ cs)) cs (λ x h. ground arith) (Among-self cs))

  fill-All {κ} :
      (Q : FusedCandidate fl → Type κ) (limit : ℕ) (write : ℕ → ℕ) (cs : List (FusedCandidate fl))
      (s : Picked fl)
      → All Q cs
      → All Q s.selected
      → All Q (fill_if_short fl limit write cs s).selected
  unfolding fill_if_short taken
  fill-All Q limit write cs s q h = elim (Bool-cases (ltb (length s.selected) max_selected)) [
    | inr n ↦ rw n h
    | inl y ↦ rw y (
        fill_over fl Q (λ s. All Q s.selected) limit write
          (λ c s q n room k. All-append Q s.selected (c ∷ []) k (q, tt)) cs s q (ground arith) h)
  ]

  -- What holds of the candidates holds of the selected ones.
  select_context-All {κ} :
      (Q : FusedCandidate fl → Type κ) (cs : List (FusedCandidate fl))
      → All Q cs
      → All Q (select_context fl cs)
  unfolding select_context picked group_passes taken
  select_context-All Q cs q =
      let pass : (g : Group) (s : Picked fl)
          → All Q s.selected
          → All Q (group_pass fl g cs s).selected =
        λ g s.
          group_pass_over fl Q (λ s. All Q s.selected) g
            (λ c s q n h. All-append Q s.selected (c ∷ []) h (q, tt)) cs s q in
      let three = pass other_region _ (pass past_incident _ (pass official (none_picked fl) tt)) in
      All-sort_by (context_order fl) Q _
        (fill-All Q 2 suc cs _ q (fill-All Q 1 (λ n. 1) cs _ q three))

  abbrev others : FusedCandidate fl → List (FusedCandidate fl) → List (FusedCandidate fl)
  others c xs = filter (λ x. not (chunk_is c.row.chunk_id x)) xs

  others-Among :
      (c : FusedCandidate fl) (cs xs : List (FusedCandidate fl))
      → All (Among (c ∷ cs)) xs
      → All (Among cs) (others c xs)
  unfolding filter
  others-Among c cs [] h = tt
  others-Among c cs (x ∷ xs) h = elim (Bool-cases (x.row.chunk_id == c.row.chunk_id)) [
    | inl y ↦ rw y (others-Among c cs xs h.1)
    | inr n ↦ rw n (ground (arith, h.0), others-Among c cs xs h.1)
  ]

  others-Once :
      (c : FusedCandidate fl) (k : ℕ) (xs : List (FusedCandidate fl))
      → length (filter (chunk_is k) (others c xs)) ≤ length (filter (chunk_is k) xs)
  unfolding filter
  others-Once c k [] = omega arith
  others-Once c k (x ∷ xs) = elim (Bool-cases (x.row.chunk_id == c.row.chunk_id)) [
    | inl y ↦ rw y (ground (arith, others-Once c k xs))
    | inr n ↦ rw n (ground (arith, others-Once c k xs))
  ]

  few_of_many :
      (cs xs : List (FusedCandidate fl)) → All (Among cs) xs → Once xs → length xs ≤ length cs
  few_of_many [] [] h o = omega arith
  few_of_many [] (x ∷ xs) h o = absurd (unfold filter in omega (arith, h.0))
  few_of_many (c ∷ cs) xs h o =
      let rest =
        few_of_many cs (others c xs) (others-Among c cs xs h)
          (λ k. omega (arith, others-Once c k xs, o k)) in
      omega (arith, rest, o c.row.chunk_id, length-filter (chunk_is c.row.chunk_id) xs)

  pub select_context-length :
      (cs : List (FusedCandidate fl))
      → All IsStorable cs
      → length (select_context fl cs) ≤ length cs
  select_context-length cs q =
      few_of_many cs (select_context fl cs) (select_context-All (Among cs) cs (Among-self cs))
        (select_context-Fine cs q).1
