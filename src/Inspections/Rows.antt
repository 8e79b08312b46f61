-- ===== src/Inspections/Rows.antt =====
-- Migration 20260729_0015_inspection_simulations.py: simulations, scenarios and targets, with their
-- constraints. A double that is not negative stands as the number of its bit pattern, which has its
-- order; the share of covered candidates, the digests and the times are left out.
use esafe.Prelude.{
  ℕ, String, Bool, true, false, ◌&&◌, ◌||◌, not, Option, none, some, List, ◌+◌, ◌*◌, ltb, ◌==◌,
  is_some,
}

pub data SimulationStatus : Type 0 where
  queued running calculated approval_pending approved on_hold discarded failed : SimulationStatus

pub data ScenarioType : Type 0 where
  balanced high_risk_focused coverage_expanded : ScenarioType

pub record Simulation : Type 0 where
  pub inspection_simulation_id : ℕ
  pub region_code : Option String
  pub building_id : Option ℕ
  pub facility_types : List String
  pub team_count : ℕ
  pub daily_capacity_per_team : ℕ
  pub inclusive_day_count : ℕ
  pub total_capacity : ℕ
  pub top_percentile : ℕ
  pub minimum_score : ℕ
  pub expanded_top_percentile : ℕ
  pub expanded_minimum_score : ℕ
  pub reference_month : ℕ
  pub horizon_days : ℕ
  pub lineage_version : String
  pub idempotency_key : String
  pub status : SimulationStatus
  pub selected_scenario_id : Option ℕ
  pub error_code : Option String
  pub version : ℕ

-- ck_inspection_simulation_capacity
unfoldable pub check_capacity : Simulation → Bool
check_capacity s =
    ltb 0 s.team_count
    && ltb 0 s.daily_capacity_per_team
    && ltb 0 s.inclusive_day_count
    && s.total_capacity == s.inclusive_day_count * s.team_count * s.daily_capacity_per_team

pub record Scenario : Type 0 where
  pub inspection_scenario_id : ℕ
  pub inspection_simulation_id : ℕ
  pub scenario_type : ScenarioType
  pub ordinal : ℕ
  pub status : SimulationStatus
  pub candidate_count : ℕ
  pub selected_count : ℕ
  pub excluded_count : ℕ
  pub required_days : ℕ
  pub over_capacity : Bool
  pub confirmable : Bool
  pub version : ℕ

abbrev same_bool : Bool → Bool → Bool
same_bool true b = b
same_bool false b = not b

-- ck_inspection_scenario_counts and ck_inspection_scenario_confirmable
unfoldable pub check_scenario : Scenario → Bool
check_scenario s =
    s.candidate_count == s.selected_count + s.excluded_count
    && same_bool s.confirmable (not s.over_capacity && ltb 0 s.selected_count)

pub data SelectionReason : Type 0 where
  user_selected_building balanced_group_order final_score_order relaxed_threshold : SelectionReason

pub data ExclusionReason : Type 0 where
  capacity_limit : ExclusionReason

pub record Target : Type 0 where
  pub building_id : ℕ
  pub risk_snapshot_id : ℕ
  pub included : Bool
  pub selection_order : Option ℕ
  pub team_number : Option ℕ
  pub selection_reason : Option SelectionReason
  pub exclusion_reason : Option ExclusionReason
  pub region_code : String
  pub facility_type : String
  pub final_score : ℕ
  pub regional_rank : ℕ
  pub top_percentile : ℕ

abbrev is_positive : Option ℕ → Bool
is_positive none = false
is_positive (some n) = ltb 0 n

-- ck_inspection_target_order
unfoldable pub check_target : Target → Bool
check_target t =
    (t.included
      && is_positive t.selection_order
      && is_positive t.team_number
      && is_some t.selection_reason
      && not (is_some t.exclusion_reason))
    || (not t.included
        && not (is_some t.selection_order)
        && not (is_some t.team_number)
        && not (is_some t.selection_reason)
        && is_some t.exclusion_reason)
