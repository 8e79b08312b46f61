-- ===== src/Inspections/Examples.antt =====
-- backend/app/inspection_engine.py: runs, and the theorems at a plan of four candidates.
use esafe.Prelude.{
  Pairwise, ℕ, String, Bool, true, false, ◌≡◌, ◌≤◌, ◌<◌, refl, none, some, List, [], ◌∷◌, Outcome,
  ok, err, select, exists, filter, update, length, All,
}
use esafe.Inspections.Rows.{
  balanced, check_scenario, check_target, queued, Simulation, high_risk_focused, coverage_expanded,
  check_capacity,
}
use esafe.Inspections.Candidates.{Assessment, Candidate, create_candidates}
use esafe.Inspections.Targets.{scenario_targets, summarize}
use esafe.Inspections.Runs.{
  InspectionDb, RunError, ScenarioIds, Engine, deliver, calculation, failure, simulation_is,
  new_plan, insert_plan, insert_plans, completed, calculate, started, run_begin, run_fail, remove,
  run_step, run_steps,
}
use esafe.Inspections.Selection.{to_run, to_select, plan_steps}
use esafe.Inspections.Order.{highest_first}
use esafe.Inspections.Checked.{same_order, is_building, of_building, scenario_checked}
use esafe.Inspections.Teams.{plan_fits, teams_exist, is_of_team}
use esafe.Inspections.Choice.{best_choice, calculate_choice}
use esafe.Inspections.Completes.{run_completes}
use esafe.Inspections.Stuck.{Overtaken, run_steps-Overtaken}
use esafe.Inspections.Selectable.{Sound, plan_steps-Sound}

-- The examples have one region and one facility type, so that no texts are compared.
abbrev text_lt : String → String → Bool
text_lt s t = false

abbrev simulation : Simulation
simulation = record {
  inspection_simulation_id = 1;
  region_code = none;
  building_id = none;
  facility_types = [];
  team_count = 2;
  daily_capacity_per_team = 1;
  inclusive_day_count = 1;
  total_capacity = 2;
  top_percentile = 10;
  minimum_score = 50;
  expanded_top_percentile = 25;
  expanded_minimum_score = 45;
  reference_month = 3;
  horizon_days = 60;
  lineage_version = "v";
  idempotency_key = "k";
  status = queued;
  selected_scenario_id = none;
  error_code = none;
  version = 1;
}

abbrev assessment : ℕ → ℕ → Assessment
assessment id score = record {
  building_id = id;
  risk_snapshot_id = id;
  reference_month = 3;
  horizon_days = 60;
  lineage_version = "v";
  manifest_hash = "m";
  region_code = "29";
  parent_code = none;
  facility_type = "ESS";
  final_score = score;
  regional_rank = id;
  top_percentile = 5;
}

abbrev four : List Assessment
four = assessment 1 60 ∷ assessment 2 80 ∷ assessment 3 70 ∷ assessment 4 46 ∷ []

abbrev candidates : List Candidate
candidates = create_candidates simulation four

abbrev start : InspectionDb
start = record { assessments = four; simulations = simulation ∷ []; plans = []; events = [] }

abbrev ids : ScenarioIds
ids = record { balanced_id = 11; high_risk_id = 12; expanded_id = 13 }

abbrev other_ids : ScenarioIds
other_ids = record { balanced_id = 21; high_risk_id = 22; expanded_id = 23 }

abbrev idle : Engine
idle = record { db = start; calculating = []; failing = [] }

plan_fits_example :
    (length
        (filter (is_of_team 2) (scenario_targets text_lt simulation high_risk_focused candidates))
      ≤ 1)
    × ((summarize simulation high_risk_focused 12
          (scenario_targets text_lt simulation high_risk_focused candidates)).over_capacity
        ≡ false)
    × ((summarize simulation high_risk_focused 12
          (scenario_targets text_lt simulation high_risk_focused candidates)).required_days
        ≤ 1)
plan_fits_example =
    plan_fits text_lt simulation high_risk_focused 12 1 candidates (unfold check_capacity in refl)
      refl

teams_exist_example :
    All
      (λ t. t.included ≡ true → (n : ℕ) × (t.team_number ≡ some n) × (0 < n) × (n ≤ 2))
      (scenario_targets text_lt simulation coverage_expanded candidates)
teams_exist_example =
    teams_exist text_lt simulation coverage_expanded candidates (unfold check_capacity in refl)

abbrev after_two : Engine
after_two =
    run_steps text_lt
      (deliver 1
        ∷ deliver 1
        ∷ calculation 1 ids
        ∷ calculation 1 other_ids
        ∷ failure 1 "IntegrityError"
        ∷ [])
      idle

-- The second of two runs fails, and the simulation is lost.
after_two-Overtaken : Overtaken 1 after_two.db
unfolding run_steps run_step run_begin calculate exists select update started insert_plans
    insert_plan new_plan summarize remove completed run_fail
after_two-Overtaken = (refl, (λ y. refl, tt))

run_steps-Overtaken_example :
    Overtaken 1 (run_steps text_lt (deliver 1 ∷ calculation 1 other_ids ∷ []) after_two).db
run_steps-Overtaken_example =
    run_steps-Overtaken text_lt 1 (deliver 1 ∷ calculation 1 other_ids ∷ []) after_two
      after_two-Overtaken

abbrev result_of : Outcome RunError InspectionDb → InspectionDb
result_of (ok db) = db
result_of (err e) = start

calculated_start : calculate text_lt 1 ids start ≡ ok (result_of (calculate text_lt 1 ids start))
unfolding calculate select insert_plans insert_plan exists new_plan summarize
calculated_start = refl

calculate_choice_example :
    select (simulation_is 1) (result_of (calculate text_lt 1 ids start)).simulations
    ≡ some (completed (best_choice simulation candidates ids) simulation)
calculate_choice_example =
    calculate_choice text_lt 1 ids start (result_of (calculate text_lt 1 ids start)) simulation
      calculated_start (unfold select in refl) (unfold check_capacity in refl)

plan_steps-Sound_example :
    Sound
      (plan_steps text_lt
        (to_run (deliver 1) ∷ to_run (calculation 1 ids) ∷ to_select "LIVE" "key-0001" 1 12 2 ∷ [])
        idle).db
plan_steps-Sound_example =
    plan_steps-Sound text_lt
      (to_run (deliver 1) ∷ to_run (calculation 1 ids) ∷ to_select "LIVE" "key-0001" 1 12 2 ∷ [])
      idle (tt, tt)

run_completes_example :
    select
      (simulation_is 1)
      (run_steps text_lt (deliver 1 ∷ calculation 1 ids ∷ []) idle).db.simulations
    ≡ some (
        completed
          (best_choice (started simulation) (create_candidates (started simulation) four) ids)
          (started simulation))
run_completes_example =
    run_completes text_lt 1 ids idle simulation (unfold select in refl) refl
      (unfold check_capacity in refl) (unfold exists in refl)
      (unfold exists in
        record {
          new_balanced = refl;
          new_high_risk = refl;
          new_expanded = refl;
          apart = refl;
          apart_wide = refl;
          apart_last = refl;
        })

highest_first_example :
    All
      (λ a.
        All
          (λ b. a.included ≡ true → b.included ≡ false → b.final_score ≤ a.final_score)
          (scenario_targets text_lt simulation high_risk_focused candidates))
      (scenario_targets text_lt simulation high_risk_focused candidates)
highest_first_example = highest_first text_lt simulation candidates

scenario_checked_example :
    (check_scenario
        (summarize simulation balanced 11 (scenario_targets text_lt simulation balanced candidates))
      ≡ true)
    × All (λ t. check_target t ≡ true) (scenario_targets text_lt simulation balanced candidates)
    × Pairwise
        (λ t u. same_order t.selection_order u.selection_order ≡ false)
        (scenario_targets text_lt simulation balanced candidates)
    × (length (filter (is_building 101) (scenario_targets text_lt simulation balanced candidates))
        ≤ length (filter (of_building 101) candidates))
scenario_checked_example = scenario_checked text_lt simulation balanced 11 101 candidates
