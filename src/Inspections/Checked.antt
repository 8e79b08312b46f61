-- ===== src/Inspections/Checked.antt =====
-- backend/app/inspection_engine.py: what a scenario stores satisfies constraints of its tables.
use esafe.Prelude.{
  ℕ, suc, String, Bool, true, false, ◌≡◌, ◌≤◌, ◌<◌, refl, Option, none, some, List, [], ◌∷◌, arith,
  inl, inr, Bool-cases, length, filter, length-filter, All, map, Pairwise, sort_by,
  length-filter-sort_by, ◌==◌,
}
use esafe.Inspections.Rows.{
  Simulation, ScenarioType, balanced, high_risk_focused, coverage_expanded, Target, check_scenario,
  check_target,
}
use esafe.Inspections.Candidates.{
  Candidate, placed, ranked, balanced_order, score_order, group_order, risk_order,
}
use esafe.Inspections.Targets.{
  is_included, team_of, new_target, targets_from, scenario_targets, summarize,
}

-- Two rows that have the same selection order.
abbrev pub same_order : Option ℕ → Option ℕ → Bool
same_order (some a) (some b) = a == b
same_order _ _ = false

abbrev pub is_building : ℕ → Target → Bool
is_building id t = t.building_id == id

abbrev pub of_building : ℕ → Candidate → Bool
of_building id c = c.building_id == id

no_order : (ts : List Target) → All (λ u. same_order none u.selection_order ≡ false) ts
no_order [] = tt
no_order (t ∷ ts) = (refl, no_order ts)

module _ (s : Simulation) (type : ScenarioType) (count : ℕ) where
  checked_from :
      (order : ℕ) (cs : List Candidate)
      → 0 < order
      → All (λ t. check_target t ≡ true) (targets_from s type count order cs)
  unfolding targets_from
  checked_from order [] pos = tt
  checked_from order (c ∷ cs) pos = (
    unfold check_target new_target team_of in
        elim (Bool-cases (is_included s type order)) [
          | inl y ↦ rw y (ground arith)
          | inr n ↦ rw n refl
        ],
    checked_from (suc order) cs (omega arith),
  )

  later_orders :
      (n : Option ℕ) (first order : ℕ) (cs : List Candidate)
      → same_order n (some first) ≡ true
      → first < order
      → All (λ t. same_order n t.selection_order ≡ false) (targets_from s type count order cs)
  unfolding targets_from new_target
  later_orders n first order [] same h = tt
  later_orders n first order (c ∷ cs) same h =
      (ground arith, later_orders n first (suc order) cs same (omega arith))

  -- A row that has no order differs from all others.
  orders_from :
      (order : ℕ) (cs : List Candidate)
      → Pairwise
          (λ t u. same_order t.selection_order u.selection_order ≡ false)
          (targets_from s type count order cs)
  unfolding targets_from new_target
  orders_from order [] = tt
  orders_from order (c ∷ cs) = (
    elim (Bool-cases (is_included s type order)) [
      | inl y ↦ rw y (later_orders (some order) order (suc order) cs (ground arith) (omega arith))
      | inr n ↦ rw n (no_order (targets_from s type count (suc order) cs))
    ],
    orders_from (suc order) cs,
  )

  count-targets_from :
      (id order : ℕ) (cs : List Candidate)
      → length (filter (is_building id) (targets_from s type count order cs))
        ≡ length (filter (of_building id) cs)
  unfolding targets_from new_target filter
  count-targets_from id order [] = refl
  count-targets_from id order (c ∷ cs) = ground (arith, count-targets_from id (suc order) cs)

count-placed :
    (p : Candidate → Bool) (seen cs : List Candidate)
    → length (filter (λ q. p q.candidate) (placed seen cs)) ≡ length (filter p cs)
unfolding placed filter
count-placed p seen [] = refl
count-placed p seen (c ∷ cs) = ground (arith, count-placed p (c ∷ seen) cs)

count-map {ℓ κ} :
    {A : Type ℓ} {B : Type κ} (p : B → Bool) (f : A → B) (xs : List A)
    → length (filter p (map f xs)) ≡ length (filter (λ x. p (f x)) xs)
unfolding filter
count-map p f [] = refl
count-map p f (x ∷ xs) = ground (arith, count-map p f xs)

count-filter {ℓ} :
    {A : Type ℓ} (p q : A → Bool) (xs : List A)
    → length (filter p (filter q xs)) ≤ length (filter p xs)
unfolding filter
count-filter p q [] = omega arith
count-filter p q (x ∷ xs) = elim (Bool-cases (q x)) [
  | inl y ↦ rw y (ground (arith, count-filter p q xs))
  | inr n ↦ rw n (ground (arith, count-filter p q xs))
]

count-ranked :
    (text_lt : String → String → Bool) (p : Candidate → Bool) (type : ScenarioType)
    (cs : List Candidate)
    → length (filter p (ranked text_lt type cs)) ≤ length (filter p cs)
unfolding ranked balanced_order
count-ranked text_lt p balanced cs =
    let base = filter (λ c. c.base_eligible) cs in
    rw
      (
        count-map p (λ q. q.candidate) (balanced_order text_lt cs),
        length-filter-sort_by (group_order text_lt) (λ q. p q.candidate)
            (placed [] (sort_by score_order base)),
        count-placed p [] (sort_by score_order base),
        length-filter-sort_by score_order p base,
      )
      (count-filter p (λ c. c.base_eligible) cs)
count-ranked text_lt p high_risk_focused cs =
    rw (length-filter-sort_by risk_order p (filter (λ c. c.base_eligible) cs))
      (count-filter p (λ c. c.base_eligible) cs)
count-ranked text_lt p coverage_expanded cs =
    rw (length-filter-sort_by risk_order p cs) (omega arith)

-- What a calculation stores for a scenario satisfies ck_inspection_scenario_counts and
-- ck_inspection_scenario_confirmable; every target of it satisfies ck_inspection_target_order, no two
-- have the same selection order (ux_inspection_target_order), and no building has more targets than it
-- has candidates, so at most one (uq_inspection_target_building) if it has one.
pub scenario_checked :
    (text_lt : String → String → Bool) (s : Simulation) (type : ScenarioType)
    (scenario_id building_id : ℕ) (cs : List Candidate)
    → (check_scenario (summarize s type scenario_id (scenario_targets text_lt s type cs)) ≡ true)
      × All (λ t. check_target t ≡ true) (scenario_targets text_lt s type cs)
      × Pairwise
          (λ t u. same_order t.selection_order u.selection_order ≡ false)
          (scenario_targets text_lt s type cs)
      × (length (filter (is_building building_id) (scenario_targets text_lt s type cs))
          ≤ length (filter (of_building building_id) cs))
unfolding check_scenario summarize
scenario_checked text_lt s type scenario_id building_id cs =
    let rows = ranked text_lt type cs in
    let count = length rows in
    let split = length-filter (λ t. t.included) (scenario_targets text_lt s type cs) in
    (
      ground (arith, split),
      unfold scenario_targets in checked_from s type count 1 rows (omega arith),
      unfold scenario_targets in orders_from s type count 1 rows,
      unfold scenario_targets in
          rw (count-targets_from s type count building_id 1 rows)
            (count-ranked text_lt (of_building building_id) type cs),
    )
