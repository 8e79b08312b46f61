-- ===== src/Inspections/Selection.antt =====
-- backend/app/inspection_views.py: `select_scenario`, behind the limit on keys that
-- backend/app/api/inspections.py sets.
use esafe.Prelude.{
  ℕ, String, Bool, true, false, ◌&&◌, ◌||◌, not, Option, none, some, List, [], ◌∷◌, ◌++◌, ◌+◌, ltb,
  ◌==◌, str_eq, if◌then◌else◌, concat, is_empty, text_length, select, exists, update, Outcome, ok,
  err, ◌>>=◌, ◌>>◌, raise_if,
}
use esafe.Inspections.Rows.{SimulationStatus, calculated, on_hold, Simulation, Scenario}
use esafe.Inspections.Runs.{
  Plan, SelectionEvent, InspectionDb, Engine, RunStep, run_step, simulation_is, plan_of,
}

pub data InspectionError : Type 0 where
  idempotency_key_required simulation_not_found version_conflict selection_locked : InspectionError
  scenario_not_found capacity_exceeded target_empty database_error : InspectionError

unfoldable pub selection_key : String → String → String
selection_key profile key = concat "inspection-select:" (concat profile (concat ":" key))

abbrev pub has_key : String → SelectionEvent → Bool
has_key key e = str_eq e.idempotency_key key

-- INSERT INTO audit_event: idempotency_key varchar(160) UNIQUE
unfoldable pub insert_event :
    String → ℕ → List SelectionEvent → Outcome InspectionError (List SelectionEvent)
insert_event key target events = do
  raise_if (ltb 160 (text_length key)) database_error
  raise_if (exists (has_key key) events) database_error
  ok (events ++ record { idempotency_key = key; target_id = target } ∷ [])

abbrev pub is_selectable : SimulationStatus → Bool
is_selectable calculated = true
is_selectable on_hold = true
is_selectable _ = false

unfoldable pub is_plan : ℕ → ℕ → Plan → Bool
is_plan id scenario p = p.scenario.inspection_scenario_id == scenario && plan_of id p

unfoldable pub chosen : ℕ → Simulation → Simulation
chosen scenario s = record s {
  selected_scenario_id = some scenario;
  status = calculated;
  version = s.version + 1;
}

abbrev pub or_raise {ℓ κ} : {E : Type ℓ} {A : Type κ} → E → Option A → Outcome E A
or_raise e none = err e
or_raise e (some a) = ok a

abbrev refusal_of : Scenario → InspectionError
refusal_of s = if s.over_capacity then capacity_exceeded else target_empty

-- The transaction, when the key is not on record.
unfoldable pub choose_scenario :
    String → ℕ → ℕ → ℕ → InspectionDb → Outcome InspectionError InspectionDb
choose_scenario key id scenario expected db = do
  s ← or_raise simulation_not_found (select (simulation_is id) db.simulations)
  raise_if (not (s.version == expected)) version_conflict
  raise_if (not (is_selectable s.status)) selection_locked
  p ← or_raise scenario_not_found (select (is_plan id scenario) db.plans)
  raise_if (not p.scenario.confirmable) (refusal_of p.scenario)
  events ← insert_event key scenario db.events
  ok (record db {
    simulations = update (simulation_is id) (chosen scenario) db.simulations;
    events = events;
  })

-- `select_scenario`
unfoldable pub select_scenario :
    String → String → ℕ → ℕ → ℕ → InspectionDb → Outcome InspectionError InspectionDb
select_scenario profile key id scenario expected db =
    if exists (has_key (selection_key profile key)) db.events
    then ok db
    else choose_scenario (selection_key profile key) id scenario expected db

-- `post_selection`
unfoldable pub post_selection :
    String → String → ℕ → ℕ → ℕ → InspectionDb → Outcome InspectionError InspectionDb
post_selection profile key id scenario expected db =
    if is_empty key || ltb 160 (text_length key)
    then err idempotency_key_required
    else select_scenario profile key id scenario expected db

-- A step of a run, or a selection by a user.
pub data PlanStep : Type 0 where
  to_run : RunStep → PlanStep
  to_select : String → String → ℕ → ℕ → ℕ → PlanStep

abbrev pub after_selection : Engine → Outcome InspectionError InspectionDb → Engine
after_selection e (ok db) = record e { db = db }
after_selection e (err x) = e

abbrev pub plan_step : (String → String → Bool) → PlanStep → Engine → Engine
plan_step text_lt (to_run t) e = run_step text_lt t e
plan_step text_lt (to_select profile key id k expected) e =
    after_selection e (post_selection profile key id k expected e.db)

unfoldable pub plan_steps : (String → String → Bool) → List PlanStep → Engine → Engine
plan_steps text_lt [] e = e
plan_steps text_lt (t ∷ ts) e = plan_steps text_lt ts (plan_step text_lt t e)
