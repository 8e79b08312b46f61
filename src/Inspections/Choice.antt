-- ===== src/Inspections/Choice.antt =====
-- backend/app/inspection_engine.py: the scenario that a calculation selects.
use esafe.Prelude.{
  ℕ, suc, String, Bool, true, false, ◌≡◌, ◌<◌, refl, ap, ◌∙◌, Option, none, some, List, [], ◌∷◌,
  ◌++◌, arith, inl, inr, Bool-cases, if◌then◌else◌, ◌&&◌, ltb, leb, ok, length, length-sort_by,
  insert, sort_by, select, select_sound, select-update, exists, exists-append, exists-false, filter,
  filter-append, filter-none, All-map, All-both,
}
use native.Mathlib.Nat.{mul-pos}
use esafe.Inspections.Rows.{
  balanced, high_risk_focused, coverage_expanded, ScenarioType, Simulation, check_capacity,
}
use esafe.Inspections.Candidates.{
  Candidate, create_candidates, ranked, balanced_order, placed, group_order, score_order,
  risk_order,
}
use esafe.Inspections.Targets.{is_expanded, summarize}
use esafe.Inspections.Runs.{
  Plan, InspectionDb, ScenarioIds, simulation_is, plan_of, has_type, new_plan, first_confirmable,
  completed, calculate,
}
use esafe.Inspections.Counts.{selected_count_lem, length-map}
use esafe.Inspections.Teams.{capacity_lem}
use esafe.Inspections.Calculated.{calculate-ok, insert_plans-ok, three_plans}

length-placed : (seen cs : List Candidate) → length (placed seen cs) ≡ length cs
unfolding placed
length-placed seen [] = refl
length-placed seen (c ∷ cs) = ap suc (length-placed (c ∷ seen) cs)

-- The candidates of a plan that is not expanded are those that pass the base filters.
length-ranked :
    (text_lt : String → String → Bool) (type : ScenarioType) (cs : List Candidate)
    → length (ranked text_lt type cs)
      ≡ (if is_expanded type then length cs else length (filter (λ c. c.base_eligible) cs))
unfolding ranked balanced_order
length-ranked text_lt balanced cs =
    let base = filter (λ c. c.base_eligible) cs in
    length-map (λ p. p.candidate) (balanced_order text_lt cs)
    ∙ length-sort_by (group_order text_lt) (placed [] (sort_by score_order base))
    ∙ length-placed [] (sort_by score_order base)
    ∙ length-sort_by score_order base
length-ranked text_lt high_risk_focused cs =
    length-sort_by risk_order (filter (λ c. c.base_eligible) cs)
length-ranked text_lt coverage_expanded cs = length-sort_by risk_order cs

capacity_positive : (s : Simulation) → check_capacity s ≡ true → 0 < s.total_capacity
capacity_positive s h =
    let (teams, daily, days, total) = capacity_lem s h in
    rw total (mul-pos (mul-pos days teams) daily)

-- Which plan can be confirmed.
confirmable_lem :
    (text_lt : String → String → Bool) (s : Simulation) (cs : List Candidate) (type : ScenarioType)
    (k : ℕ)
    → check_capacity s ≡ true
    → (new_plan text_lt s cs type k).scenario.confirmable ≡ (
        if is_expanded type
        then ltb 0 (length cs) && leb (length cs) s.total_capacity
        else ltb 0 (length (filter (λ c. c.base_eligible) cs)))
unfolding new_plan summarize
confirmable_lem text_lt s cs type k h =
    let some_room = capacity_positive s h in
    let n = length-ranked text_lt type cs in
    rw (selected_count_lem text_lt s type cs, n)
      (elim (Bool-cases (is_expanded type)) [
        | inl y ↦ rw y (ground arith)
        | inr m ↦ rw m (ground arith)
      ])

type_free :
    (id : ℕ) (p : Plan)
    → has_type id balanced p ≡ false
    → has_type id high_risk_focused p ≡ false
    → has_type id coverage_expanded p ≡ false
    → plan_of id p ≡ false
type_free id p a b c = ground arith

-- The scenario that a calculation is to select: BALANCED if a candidate passes the base filters,
-- else COVERAGE_EXPANDED if it has candidates and they are within the capacity.
abbrev pub best_choice : Simulation → List Candidate → ScenarioIds → Option ℕ
best_choice s cs ids =
    if ltb 0 (length (filter (λ c. c.base_eligible) cs))
    then some ids.balanced_id
    else if ltb 0 (length cs) && leb (length cs) s.total_capacity
    then some ids.expanded_id
    else none

module _ (text_lt : String → String → Bool) (s : Simulation) (cs : List Candidate)
    (ids : ScenarioIds) (id : ℕ) where
  abbrev offered : Plan → Bool
  offered p = plan_of id p && p.scenario.confirmable

  is_its_plan :
      (type : ScenarioType) (k : ℕ)
      → s.inspection_simulation_id ≡ id
      → plan_of id (new_plan text_lt s cs type k) ≡ true
  unfolding new_plan summarize
  is_its_plan type k same = ground arith

  offered_lem :
      (type : ScenarioType) (k : ℕ) (b : Bool)
      → s.inspection_simulation_id ≡ id
      → (new_plan text_lt s cs type k).scenario.confirmable ≡ b
      → offered (new_plan text_lt s cs type k) ≡ b
  offered_lem type k b same c = rw (is_its_plan type k same) c

  others_none :
      (plans : List Plan)
      → exists (has_type id balanced) plans ≡ false
      → exists (has_type id high_risk_focused) plans ≡ false
      → exists (has_type id coverage_expanded) plans ≡ false
      → filter offered plans ≡ []
  others_none plans a b c = filter-none offered plans (
      All-map
        (λ p.
          (has_type id balanced p ≡ false)
          × ((has_type id high_risk_focused p ≡ false) × (has_type id coverage_expanded p ≡ false)))
        (λ p. offered p ≡ false) plans (λ p (x, (y, z)). rw (type_free id p x y z) refl)
        (All-both (λ p. has_type id balanced p ≡ false)
          (λ p.
            (has_type id high_risk_focused p ≡ false) × (has_type id coverage_expanded p ≡ false))
          plans (exists-false (has_type id balanced) plans a)
          (All-both (λ p. has_type id high_risk_focused p ≡ false)
            (λ p. has_type id coverage_expanded p ≡ false) plans
            (exists-false (has_type id high_risk_focused) plans b)
            (exists-false (has_type id coverage_expanded) plans c))))

  first_of_three :
      (base wide : Bool) (plans : List Plan)
      → offered (new_plan text_lt s cs balanced ids.balanced_id) ≡ base
      → offered (new_plan text_lt s cs high_risk_focused ids.high_risk_id) ≡ base
      → offered (new_plan text_lt s cs coverage_expanded ids.expanded_id) ≡ wide
      → filter offered plans ≡ []
      → first_confirmable id (plans ++ three_plans text_lt s cs ids)
        ≡ (if base then some ids.balanced_id else if wide then some ids.expanded_id else none)
  unfolding first_confirmable filter sort_by insert
  first_of_three true true plans a b c none_left =
      rw (filter-append offered plans (three_plans text_lt s cs ids), none_left, a, b, c)
        (unfold new_plan summarize in refl)
  first_of_three true false plans a b c none_left =
      rw (filter-append offered plans (three_plans text_lt s cs ids), none_left, a, b, c)
        (unfold new_plan summarize in refl)
  first_of_three false true plans a b c none_left =
      rw (filter-append offered plans (three_plans text_lt s cs ids), none_left, a, b, c)
        (unfold new_plan summarize in refl)
  first_of_three false false plans a b c none_left =
      rw (filter-append offered plans (three_plans text_lt s cs ids), none_left, a, b, c)
        (unfold new_plan summarize in refl)

apart {ℓ} :
    {A : Type ℓ} (p : A → Bool) (xs ys : List A) → exists p (xs ++ ys) ≡ false → exists p xs ≡ false
apart p xs ys e = ground (arith, exists-append p xs ys, e)

-- A calculation that succeeds leaves the simulation CALCULATED with its version raised by one, and selects
-- BALANCED exactly if a candidate passes the base filters, else COVERAGE_EXPANDED exactly if it has
-- candidates, all within the capacity, and else nothing. (HIGH_RISK_FOCUSED is never selected.)
pub calculate_choice :
    (text_lt : String → String → Bool) (id : ℕ) (ids : ScenarioIds) (db db' : InspectionDb)
    (s : Simulation)
    → calculate text_lt id ids db ≡ ok db'
    → select (simulation_is id) db.simulations ≡ some s
    → check_capacity s ≡ true
    → select (simulation_is id) db'.simulations
      ≡ some (completed (best_choice s (create_candidates s db.assessments) ids) s)
calculate_choice text_lt id ids db db' s e found h =
    let c = calculate-ok text_lt id ids db db' e in
    let row : c.simulation ≡ s = ground (arith, c.found, found) in
    let cs = create_candidates s db.assessments in
    let inserted = rw row at c.inserted in
    let (free1, free2, free3, plans) = insert_plans-ok text_lt s cs ids db.plans c.plans inserted in
    let hit : simulation_is id s ≡ true = select_sound (simulation_is id) db.simulations s found in
    let same : s.inspection_simulation_id ≡ id = ground arith in
    let none_left =
      others_none text_lt s cs ids id db.plans (rw same at free1)
        (rw same at
          (apart (has_type s.inspection_simulation_id high_risk_focused) db.plans _ free2))
        (rw same at (
          apart (has_type s.inspection_simulation_id coverage_expanded) db.plans _
            (apart (has_type s.inspection_simulation_id coverage_expanded) _ _ free3))) in
    let choice : first_confirmable id c.plans ≡ best_choice s cs ids = rw plans (
      first_of_three text_lt s cs ids id (ltb 0 (length (filter (λ c. c.base_eligible) cs)))
        (ltb 0 (length cs) && leb (length cs) s.total_capacity) db.plans
        (offered_lem text_lt s cs ids id balanced ids.balanced_id _ same
          (confirmable_lem text_lt s cs balanced ids.balanced_id h))
        (offered_lem text_lt s cs ids id high_risk_focused ids.high_risk_id _ same
          (confirmable_lem text_lt s cs high_risk_focused ids.high_risk_id h))
        (offered_lem text_lt s cs ids id coverage_expanded ids.expanded_id _ same
          (confirmable_lem text_lt s cs coverage_expanded ids.expanded_id h))
        none_left) in
    rw
      (
        c.left,
        choice,
        select-update (simulation_is id) (simulation_is id) (completed (best_choice s cs ids))
            db.simulations (unfold completed in λ a. refl),
        found,
        hit,
      )
      refl
