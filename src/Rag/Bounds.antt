-- ===== src/Rag/Bounds.antt =====
-- backend/app/rag_search.py: how much `select_context` selects.
use esafe.Prelude.{
  ℕ, suc, true, false, ◌≡◌, ◌≤◌, ◌<◌, refl, List, ◌+◌, arith, inl, inr, Bool-cases, ltb,
  if◌then◌else◌, length, filter, length-sort_by, length-filter-sort_by,
}
use esafe.Rag.Rows.{Floats, Group, official, past_incident, other_region, FusedCandidate}
use esafe.Rag.Selecting.{
  max_selected, cap, same_group, of_group, of_document, Picked, none_picked, taken, group_pass,
  fill_if_short, group_passes, picked, context_order, select_context,
}
use esafe.Rag.Passes.{
  length-snoc, length-filter-snoc, Counted, AtMost, taken-Counted, taken-AtMost, not_barred,
  not_used, group_pass_induction, fill_induction,
}

module _ (fl : Floats) where
  -- How many chunks of a group are selected.
  abbrev count : Group → Picked fl → ℕ
  count g s = length (filter (of_group fl g) s.selected)

  taken-count :
      (g : Group) (write : ℕ → ℕ) (c : FusedCandidate fl) (s : Picked fl)
      → (count g (taken fl write c s) ≡ count g s + (if of_group fl g c then 1 else 0))
        × (length (taken fl write c s).selected ≡ suc (length s.selected))
  unfolding taken
  taken-count g write c s =
      (length-filter-snoc (of_group fl g) s.selected c, length-snoc s.selected c)

  -- The group of a candidate is no other one.
  one_group :
      (g k : Group) (c : FusedCandidate fl)
      → same_group g k ≡ false
      → of_group fl g c ≡ true
      → of_group fl k c ≡ false
  one_group g k c n y = ground arith

  -- So far the selection has no more than `base` chunks of other groups, within the cap of this one.
  abbrev Room : Group → ℕ → Picked fl → Type 0
  Room g base s = (length s.selected ≤ base + count g s) × (count g s ≤ cap g)

  group_pass-Room :
      (g : Group) (base : ℕ) (cs : List (FusedCandidate fl)) (s : Picked fl)
      → Room g base s
      → Room g base (group_pass fl g cs s)
  group_pass-Room g base = group_pass_induction fl (Room g base) g (λ c s n h.
      let (its, unseen, below) = not_barred fl g c s n in
      let (counted, longer) = taken-count g suc c s in
      let more : count g (taken fl suc c s) ≡ suc (count g s) = ground (arith, counted, its) in
      (omega (arith, h.0, h.1), omega arith))

  group_pass-others :
      (g k : Group) (n : ℕ) (cs : List (FusedCandidate fl)) (s : Picked fl)
      → same_group g k ≡ false
      → count k s ≡ n
      → count k (group_pass fl g cs s) ≡ n
  group_pass-others g k n cs s differ =
      group_pass_induction fl (λ s. count k s ≡ n) g
        (λ c s free h.
          let (its, unseen, below) = not_barred fl g c s free in
          let other = one_group g k c differ its in
          ground (arith, (taken-count k suc c s).0, other, h))
        cs s

  group_passes-length : (cs : List (FusedCandidate fl)) → length (group_passes fl cs).selected ≤ 12
  unfolding group_passes
  group_passes-length cs =
      let first = group_pass fl official cs (none_picked fl) in
      let second = group_pass fl past_incident cs first in
      let start : count official (none_picked fl) ≡ 0 = unfold filter in refl in
      let start_past : count past_incident (none_picked fl) ≡ 0 = unfold filter in refl in
      let start_other : count other_region (none_picked fl) ≡ 0 = unfold filter in refl in
      let one = group_pass-Room official 0 cs (none_picked fl) (omega arith, omega arith) in
      let no_past =
        group_pass-others official past_incident 0 cs (none_picked fl) refl start_past in
      let no_other =
        group_pass-others official other_region 0 cs (none_picked fl) refl start_other in
      let two =
        group_pass-Room past_incident 6 cs first (omega (arith, one.0, one.1), omega arith) in
      let still_no_other = group_pass-others past_incident other_region 0 cs first refl no_other in
      let three =
        group_pass-Room other_region 10 cs second (omega (arith, two.0, two.1), omega arith) in
      omega (arith, three.0, three.1)

  -- What the passes keep together.
  abbrev Kept : ℕ → Picked fl → Type 0
  Kept limit s = Counted fl s × AtMost fl limit s

  group_pass-Kept :
      (g : Group) (cs : List (FusedCandidate fl)) (s : Picked fl)
      → Kept 1 s
      → Kept 1 (group_pass fl g cs s)
  group_pass-Kept g = group_pass_induction fl (Kept 1) g (λ c s n h.
      let (its, unseen, below) = not_barred fl g c s n in
      (taken-Counted fl suc c s refl h.0, taken-AtMost fl 1 suc c s (omega arith) h.1))

  fill-Kept :
      (limit : ℕ) (write : ℕ → ℕ) (cs : List (FusedCandidate fl)) (s : Picked fl)
      → ((n : ℕ) → n < limit → write n ≡ suc n)
      → Kept limit s
      → Kept limit (fill_if_short fl limit write cs s)
  unfolding fill_if_short
  fill-Kept limit write cs s next h = elim (Bool-cases (ltb (length s.selected) max_selected)) [
    | inl y ↦ rw y (
        fill_induction fl (Kept limit) limit write
          (λ c s n room k.
            let (unseen, below) = not_used fl limit c s n in
            let one_more = next (s.per_document c.row.document_id) below in
            (
              taken-Counted fl write c s one_more k.0,
              taken-AtMost fl limit write c s (omega arith) k.1,
            ))
          cs s (ground arith) h)
    | inr n ↦ rw n h
  ]

  fill-length :
      (limit : ℕ) (write : ℕ → ℕ) (cs : List (FusedCandidate fl)) (s : Picked fl)
      → length s.selected ≤ 12
      → length (fill_if_short fl limit write cs s).selected ≤ 12
  unfolding fill_if_short
  fill-length limit write cs s h = elim (Bool-cases (ltb (length s.selected) max_selected)) [
    | inl y ↦ rw y (
        fill_induction fl (λ s. length s.selected ≤ 12) limit write
          (λ c s n room k. omega (arith, (taken-count official write c s).1)) cs s (ground arith) h)
    | inr n ↦ rw n h
  ]

  pub picked-Kept : (cs : List (FusedCandidate fl)) → Kept 2 (picked fl cs)
  unfolding picked group_passes filter
  picked-Kept cs =
      let start : Kept 1 (none_picked fl) = (λ d. refl, λ d. omega arith) in
      let one =
        group_pass-Kept other_region cs _ (
          group_pass-Kept past_incident cs _
            (group_pass-Kept official cs (none_picked fl) start)) in
      let two = fill-Kept 1 (λ n. 1) cs (group_passes fl cs) (λ n less. omega arith) one in
      fill-Kept 2 suc cs (fill_if_short fl 1 (λ n. 1) cs (group_passes fl cs)) (λ n less. refl)
        (two.0, λ d. omega (arith, two.1 d))

-- The context of an answer has at most twelve chunks, and at most two of any document.
pub select_context_bounds :
    (fl : Floats) (cs : List (FusedCandidate fl)) (d : ℕ)
    → (length (select_context fl cs) ≤ 12)
      × (length (filter (of_document fl d) (select_context fl cs)) ≤ 2)
unfolding select_context
select_context_bounds fl cs d = (
  rw (length-sort_by (context_order fl) (picked fl cs).selected) (
      unfold picked in
      fill-length fl 2 suc cs (fill_if_short fl 1 (λ n. 1) cs (group_passes fl cs))
        (fill-length fl 1 (λ n. 1) cs (group_passes fl cs) (group_passes-length fl cs))),
  rw (length-filter-sort_by (context_order fl) (of_document fl d) (picked fl cs).selected)
      (omega (arith, (picked-Kept fl cs).0 d, (picked-Kept fl cs).1 d)),
)
