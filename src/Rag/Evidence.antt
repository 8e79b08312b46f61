-- ===== src/Rag/Evidence.antt =====
-- backend/app/rag_search.py: when the evidence of a case suffices, and the bundle that is current.
use esafe.Prelude.{
  ℕ, suc, Bool, true, false, ◌≡◌, ◌<◌, refl, sym, subst, List, [], ◌∷◌, arith, inl, inr, Bool-cases,
  ltb, if◌then◌else◌, length, exists, exists-false, filter, filter-none, All, All-append,
  length-filter-sort_by,
}
use esafe.Rag.Rows.{Floats, official, past_incident, other_region, FusedCandidate}
use esafe.Rag.Selecting.{
  max_selected, of_group, Picked, none_picked, taken, is_barred, group_pass, fill_if_short,
  group_passes, picked, context_order, select_context,
}
use esafe.Rag.Passes.{
  length-filter-snoc, group_pass_over, group_pass_induction, fill_over, fill_induction,
}
use esafe.Rag.Bundles.{sufficient, insufficient, official_count, bundle_status}

module _ (fl : Floats) where
  abbrev is_official : FusedCandidate fl → Bool
  is_official = of_group fl official

  abbrev HasOfficial : Picked fl → Type 0
  HasOfficial s = 0 < length (filter is_official s.selected)

  taken-HasOfficial :
      (write : ℕ → ℕ) (c : FusedCandidate fl) (s : Picked fl)
      → HasOfficial s
      → HasOfficial (taken fl write c s)
  unfolding taken
  taken-HasOfficial write c s h = omega (arith, length-filter-snoc is_official s.selected c)

  first_taken :
      (c : FusedCandidate fl)
      → is_official c ≡ true
      → (is_barred fl official c (none_picked fl) ≡ false)
        × HasOfficial (taken fl suc c (none_picked fl))
  unfolding is_barred taken filter
  first_taken c y = (rw y refl, rw y (omega arith))

  pass_step :
      (c : FusedCandidate fl) (cs : List (FusedCandidate fl)) (s : Picked fl) (b : Bool)
      → is_barred fl official c s ≡ b
      → group_pass fl official (c ∷ cs) s
        ≡ group_pass fl official cs (if b then s else taken fl suc c s)
  unfolding group_pass
  pass_step c cs s b e = rw e refl

  -- The first official candidate is taken.
  official_pass :
      (cs : List (FusedCandidate fl))
      → exists is_official cs ≡ true
      → HasOfficial (group_pass fl official cs (none_picked fl))
  unfolding exists
  official_pass [] e = absurd (ground (arith, e))
  official_pass (c ∷ cs) e = elim (Bool-cases (is_official c)) [
    | inl y ↦
        let (free, has) = first_taken c y in
        subst HasOfficial (sym (pass_step c cs (none_picked fl) false free)) (
          group_pass_induction fl HasOfficial official (λ c s n h. taken-HasOfficial suc c s h) cs
            (taken fl suc c (none_picked fl)) has)
    | inr n ↦
        let barred : is_barred fl official c (none_picked fl) ≡ true =
          unfold is_barred in rw n refl in
        subst HasOfficial (sym (pass_step c cs (none_picked fl) true barred))
          (official_pass cs (rw n at e))
  ]

  fill-HasOfficial :
      (limit : ℕ) (write : ℕ → ℕ) (cs : List (FusedCandidate fl)) (s : Picked fl)
      → HasOfficial s
      → HasOfficial (fill_if_short fl limit write cs s)
  unfolding fill_if_short
  fill-HasOfficial limit write cs s h = elim (Bool-cases (ltb (length s.selected) max_selected)) [
    | inl y ↦ rw y (
        fill_induction fl HasOfficial limit write (λ c s n room k. taken-HasOfficial write c s k) cs
          s (ground arith) h)
    | inr n ↦ rw n h
  ]

  picked-HasOfficial :
      (cs : List (FusedCandidate fl)) → exists is_official cs ≡ true → HasOfficial (picked fl cs)
  unfolding picked group_passes
  picked-HasOfficial cs e =
      fill-HasOfficial 2 suc cs (fill_if_short fl 1 (λ n. 1) cs (group_passes fl cs)) (
        fill-HasOfficial 1 (λ n. 1) cs (group_passes fl cs)
          (group_pass_induction fl HasOfficial other_region (λ c s n h. taken-HasOfficial suc c s h)
            cs _
            (group_pass_induction fl HasOfficial past_incident
              (λ c s n h. taken-HasOfficial suc c s h) cs _ (official_pass cs e))))

  module _ {κ} (Q : FusedCandidate fl → Type κ) where
    abbrev AllPicked : Picked fl → Type κ
    AllPicked s = All Q s.selected

    taken-All :
        (write : ℕ → ℕ) (c : FusedCandidate fl) (s : Picked fl)
        → Q c
        → AllPicked s
        → AllPicked (taken fl write c s)
    unfolding taken
    taken-All write c s q h = All-append Q s.selected (c ∷ []) h (q, tt)

    fill-All :
        (limit : ℕ) (write : ℕ → ℕ) (cs : List (FusedCandidate fl)) (s : Picked fl)
        → All Q cs
        → AllPicked s
        → AllPicked (fill_if_short fl limit write cs s)
    unfolding fill_if_short
    fill-All limit write cs s q h = elim (Bool-cases (ltb (length s.selected) max_selected)) [
      | inl y ↦ rw y (
          fill_over fl Q AllPicked limit write (λ c s q n room k. taken-All write c s q k) cs s q
            (ground arith) h)
      | inr n ↦ rw n h
    ]

    -- What holds of every candidate holds of every selected one.
    pub picked-All : (cs : List (FusedCandidate fl)) → All Q cs → AllPicked (picked fl cs)
    unfolding picked group_passes
    picked-All cs q = fill-All 2 suc cs (fill_if_short fl 1 (λ n. 1) cs (group_passes fl cs)) q (
        fill-All 1 (λ n. 1) cs (group_passes fl cs) q
          (group_pass_over fl Q AllPicked other_region (λ c s q n h. taken-All suc c s q h) cs _ q
            (group_pass_over fl Q AllPicked past_incident (λ c s q n h. taken-All suc c s q h) cs _
              q
              (group_pass_over fl Q AllPicked official (λ c s q n h. taken-All suc c s q h) cs
                (none_picked fl) q tt))))

-- The evidence of a case is SUFFICIENT exactly if one of the fused candidates is an official document,
-- whatever else is found and however it scores.
pub bundle_status_lem :
    (fl : Floats) (cs : List (FusedCandidate fl))
    → bundle_status fl (select_context fl cs)
      ≡ (if exists (of_group fl official) cs then sufficient else insufficient)
unfolding bundle_status official_count select_context
bundle_status_lem fl cs =
    rw (length-filter-sort_by (context_order fl) (of_group fl official) (picked fl cs).selected)
      (elim (Bool-cases (exists (of_group fl official) cs)) [
        | inl y ↦ let has = picked-HasOfficial fl cs y in rw y (ground arith)
        | inr n ↦
            let others =
              picked-All fl (λ c. of_group fl official c ≡ false) cs
                (exists-false (of_group fl official) cs n) in
            rw (n, filter-none (of_group fl official) (picked fl cs).selected others) refl
      ])
