-- ===== src/Inspections/Runs.antt =====
-- backend/app/inspection_engine.py: `_calculate` and `run_inspection_simulation` in its transactions. The
-- targets of a scenario stand with it.
use esafe.Prelude.{
  ℕ, String, Bool, true, false, ◌&&◌, Option, none, some, List, [], ◌∷◌, ◌++◌, ◌+◌, leb, ◌==◌,
  if◌then◌else◌, select, exists, filter, update, sort_by, Outcome, ok, err, ◌>>=◌, ◌>>◌, raise_if,
}
use esafe.Inspections.Rows.{
  SimulationStatus, running, calculated, approval_pending, approved, on_hold, discarded, failed,
  ScenarioType, balanced, high_risk_focused, coverage_expanded, Simulation, Scenario, Target,
}
use esafe.Inspections.Candidates.{Assessment, Candidate, create_candidates}
use esafe.Inspections.Targets.{scenario_targets, summarize}

pub record Plan : Type 0 where
  pub scenario : Scenario
  pub targets : List Target

-- The columns of an audit event that the handlers look up again.
pub record SelectionEvent : Type 0 where
  pub idempotency_key : String
  pub target_id : ℕ

pub record InspectionDb : Type 0 where
  pub assessments : List Assessment
  pub simulations : List Simulation
  pub plans : List Plan
  pub events : List SelectionEvent

pub data RunError : Type 0 where
  simulation_not_found : RunError
  integrity_error : RunError

abbrev pub simulation_is : ℕ → Simulation → Bool
simulation_is id s = s.inspection_simulation_id == id

abbrev pub plan_of : ℕ → Plan → Bool
plan_of id p = p.scenario.inspection_simulation_id == id

abbrev pub same_type : ScenarioType → ScenarioType → Bool
same_type balanced balanced = true
same_type high_risk_focused high_risk_focused = true
same_type coverage_expanded coverage_expanded = true
same_type _ _ = false

-- uq_inspection_scenario_type; the type of a scenario fixes its ordinal.
abbrev pub has_type : ℕ → ScenarioType → Plan → Bool
has_type id type p = plan_of id p && same_type p.scenario.scenario_type type

unfoldable pub new_plan :
    (String → String → Bool) → Simulation → List Candidate → ScenarioType → ℕ → Plan
new_plan text_lt s cs type scenario_id =
    let targets = scenario_targets text_lt s type cs in
    record { scenario = summarize s type scenario_id targets; targets = targets }

-- `_insert_scenario_targets`
unfoldable pub insert_plan :
    (String → String → Bool)
    → Simulation
    → List Candidate
    → ScenarioType
    → ℕ
    → List Plan
    → Outcome RunError (List Plan)
insert_plan text_lt s cs type scenario_id plans = do
  raise_if (exists (λ p. p.scenario.inspection_scenario_id == scenario_id) plans) integrity_error
  raise_if (exists (has_type s.inspection_simulation_id type) plans) integrity_error
  ok (plans ++ new_plan text_lt s cs type scenario_id ∷ [])

abbrev pub first_id : List Plan → Option ℕ
first_id [] = none
first_id (p ∷ ps) = some p.scenario.inspection_scenario_id

-- WHERE inspection_simulation_id = … AND confirmable ORDER BY ordinal LIMIT 1
unfoldable pub first_confirmable : ℕ → List Plan → Option ℕ
first_confirmable id plans = first_id (
    sort_by (λ p q. leb p.scenario.ordinal q.scenario.ordinal)
      (filter (λ p. plan_of id p && p.scenario.confirmable) plans))

unfoldable pub completed : Option ℕ → Simulation → Simulation
completed choice s = record s {
  status = calculated;
  selected_scenario_id = choice;
  version = s.version + 1;
}

-- The ids that uuid4 draws for the scenarios.
pub record ScenarioIds : Type 0 where
  pub balanced_id : ℕ
  pub high_risk_id : ℕ
  pub expanded_id : ℕ

abbrev locked_row : Option Simulation → Outcome RunError Simulation
locked_row none = err simulation_not_found
locked_row (some s) = ok s

unfoldable pub insert_plans :
    (String → String → Bool)
    → Simulation
    → List Candidate
    → ScenarioIds
    → List Plan
    → Outcome RunError (List Plan)
insert_plans text_lt s cs ids plans = do
  first ← insert_plan text_lt s cs balanced ids.balanced_id plans
  second ← insert_plan text_lt s cs high_risk_focused ids.high_risk_id first
  insert_plan text_lt s cs coverage_expanded ids.expanded_id second

-- `_calculate`
unfoldable pub calculate :
    (String → String → Bool) → ℕ → ScenarioIds → InspectionDb → Outcome RunError InspectionDb
calculate text_lt id ids db = do
  s ← locked_row (select (simulation_is id) db.simulations)
  let cs = create_candidates s db.assessments
  plans ← insert_plans text_lt s cs ids db.plans
  ok (record db {
    simulations = update (simulation_is id) (completed (first_confirmable id plans)) db.simulations;
    plans = plans;
  })

-- The states that a run leaves alone.
abbrev pub is_reused : SimulationStatus → Bool
is_reused calculated = true
is_reused approval_pending = true
is_reused approved = true
is_reused on_hold = true
is_reused discarded = true
is_reused _ = false

unfoldable pub started : Simulation → Simulation
started s = record s { status = running; error_code = none }

abbrev begun : ℕ → InspectionDb → Option Simulation → Outcome RunError (InspectionDb × Bool)
begun id db none = err simulation_not_found
begun id db (some s) =
    if is_reused s.status
    then ok (db, false)
    else ok (record db { simulations = update (simulation_is id) started db.simulations }, true)

-- The first transaction of a run, and whether it goes on to calculate.
unfoldable pub run_begin : ℕ → InspectionDb → Outcome RunError (InspectionDb × Bool)
run_begin id db = begun id db (select (simulation_is id) db.simulations)

unfoldable pub broken : String → Simulation → Simulation
broken code s = record s { status = failed; error_code = some code }

-- The transaction that records an exception of `_calculate`.
unfoldable pub run_fail : ℕ → String → InspectionDb → InspectionDb
unfolding broken
run_fail id code db = record db {
  simulations = update (simulation_is id) (broken code) db.simulations;
}

-- The runs under way: between their first and second transaction, or about to record an exception.
pub record Engine : Type 0 where
  pub db : InspectionDb
  pub calculating : List ℕ
  pub failing : List ℕ

-- The queue delivers a simulation; a run calculates, or is interrupted by an error of the database; a
-- run records its exception; or its process dies, in either place.
pub data RunStep : Type 0 where
  deliver : ℕ → RunStep
  calculation : ℕ → ScenarioIds → RunStep
  interruption : ℕ → RunStep
  failure : ℕ → String → RunStep
  crash_calculating : ℕ → RunStep
  crash_failing : ℕ → RunStep

unfoldable pub remove : ℕ → List ℕ → List ℕ
remove n [] = []
remove n (m ∷ ms) = let rest = remove n ms in if m == n then ms else m ∷ rest

abbrev delivered : ℕ → Engine → Outcome RunError (InspectionDb × Bool) → Engine
delivered id e (err x) = e
delivered id e (ok (db, false)) = record e { db = db }
delivered id e (ok (db, true)) = record e { db = db; calculating = id ∷ e.calculating }

abbrev calculated_by : ℕ → Engine → Outcome RunError InspectionDb → Engine
calculated_by id e (ok db) = record e { db = db; calculating = remove id e.calculating }
calculated_by id e (err x) = record e {
  calculating = remove id e.calculating;
  failing = id ∷ e.failing;
}

unfoldable pub run_step : (String → String → Bool) → RunStep → Engine → Engine
run_step text_lt (deliver id) e = delivered id e (run_begin id e.db)
run_step text_lt (calculation id ids) e =
    if exists (λ n. n == id) e.calculating
    then calculated_by id e (calculate text_lt id ids e.db)
    else e
run_step text_lt (interruption id) e =
    if exists (λ n. n == id) e.calculating then calculated_by id e (err integrity_error) else e
run_step text_lt (failure id code) e =
    if exists (λ n. n == id) e.failing
    then record e { db = run_fail id code e.db; failing = remove id e.failing }
    else e
run_step text_lt (crash_calculating id) e = record e { calculating = remove id e.calculating }
run_step text_lt (crash_failing id) e = record e { failing = remove id e.failing }

unfoldable pub run_steps : (String → String → Bool) → List RunStep → Engine → Engine
run_steps text_lt [] e = e
run_steps text_lt (t ∷ ts) e = run_steps text_lt ts (run_step text_lt t e)
