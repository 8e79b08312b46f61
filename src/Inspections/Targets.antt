-- ===== src/Inspections/Targets.antt =====
-- backend/app/inspection_engine.py: `_insert_scenario_targets`, the targets of one scenario with their
-- teams, and the numbers that it sums up.
use esafe.Prelude.{
  ℕ, suc, String, Bool, true, false, ◌&&◌, ◌||◌, not, none, some, List, [], ◌∷◌, ◌+◌, ◌-◌, ◌*◌, ◌/◌,
  max, min, ltb, leb, if◌then◌else◌, filter, length,
}
use esafe.Inspections.Rows.{
  Simulation, ScenarioType, balanced, high_risk_focused, coverage_expanded, calculated, Scenario,
  SelectionReason, user_selected_building, balanced_group_order, final_score_order,
  relaxed_threshold, capacity_limit, Target,
}
use esafe.Inspections.Candidates.{Candidate, ranked}

-- CEIL(a::numeric / b)
abbrev pub ceil_div : ℕ → ℕ → ℕ
ceil_div a b = (a + b - 1) / b

abbrev pub is_expanded : ScenarioType → Bool
is_expanded coverage_expanded = true
is_expanded _ = false

-- How many targets a team gets, of that many candidates.
unfoldable pub team_share : Simulation → ScenarioType → ℕ → ℕ
team_share s type count =
    max 1 (ceil_div (if is_expanded type then count else min count s.total_capacity) s.team_count)

unfoldable pub is_included : Simulation → ScenarioType → ℕ → Bool
is_included s type order = is_expanded type || leb order s.total_capacity

unfoldable pub team_of : ℕ → ℕ → ℕ
team_of share order = (order - 1) / share + 1

abbrev pub reason_of : ScenarioType → Bool → SelectionReason
reason_of type true = user_selected_building
reason_of balanced false = balanced_group_order
reason_of high_risk_focused false = final_score_order
reason_of coverage_expanded false = relaxed_threshold

unfoldable pub new_target : Simulation → ScenarioType → ℕ → ℕ → Candidate → Target
new_target s type count order c =
    let included = is_included s type order in
    record {
      building_id = c.building_id;
      risk_snapshot_id = c.risk_snapshot_id;
      included = included;
      selection_order = if included then some order else none;
      team_number = if included then some (team_of (team_share s type count) order) else none;
      selection_reason = if included then some (reason_of type c.forced_inclusion) else none;
      exclusion_reason = if included then none else some capacity_limit;
      region_code = c.region_code;
      facility_type = c.facility_type;
      final_score = c.final_score;
      regional_rank = c.regional_rank;
      top_percentile = c.top_percentile;
    }

-- The targets of candidates in order, of which the first has that `target_order`.
unfoldable pub targets_from : Simulation → ScenarioType → ℕ → ℕ → List Candidate → List Target
targets_from s type count order [] = []
targets_from s type count order (c ∷ cs) =
    new_target s type count order c ∷ targets_from s type count (suc order) cs

unfoldable pub scenario_targets :
    (String → String → Bool) → Simulation → ScenarioType → List Candidate → List Target
scenario_targets text_lt s type cs =
    let rows = ranked text_lt type cs in targets_from s type (length rows) 1 rows

-- `SCENARIO_TYPES.index(scenario_type) + 1`
abbrev pub ordinal_of : ScenarioType → ℕ
ordinal_of balanced = 1
ordinal_of high_risk_focused = 2
ordinal_of coverage_expanded = 3

-- The row as `_insert_scenario_targets` leaves it. (`math.ceil` divides floats; below 2^53 the result is
-- that of whole numbers.)
unfoldable pub summarize : Simulation → ScenarioType → ℕ → List Target → Scenario
summarize s type scenario_id targets =
    let selected = length (filter (λ t. t.included) targets) in
    let over = ltb s.total_capacity selected in
    record {
      inspection_scenario_id = scenario_id;
      inspection_simulation_id = s.inspection_simulation_id;
      scenario_type = type;
      ordinal = ordinal_of type;
      status = calculated;
      candidate_count = length targets;
      selected_count = selected;
      excluded_count = length (filter (λ t. not t.included) targets);
      required_days =
          if ltb 0 selected
          then ceil_div selected (s.team_count * s.daily_capacity_per_team)
          else 0;
      over_capacity = over;
      confirmable = ltb 0 selected && not over;
      version = 1;
    }
