-- ===== src/Inspections/Completes.antt =====
-- backend/app/inspection_engine.py: a run that nothing disturbs calculates the simulation.
use esafe.Prelude.{
  ℕ, String, Bool, true, false, ◌≡◌, refl, some, List, [], ◌∷◌, ◌++◌, arith, ok, ◌==◌, select,
  select_sound, select-update, exists, exists-append, update,
}
use esafe.Inspections.Rows.{
  balanced, high_risk_focused, coverage_expanded, ScenarioType, Simulation, check_capacity,
}
use esafe.Inspections.Candidates.{Candidate, create_candidates}
use esafe.Inspections.Targets.{summarize}
use esafe.Inspections.Runs.{
  Plan, InspectionDb, ScenarioIds, Engine, deliver, calculation, simulation_is, plan_of, has_type,
  new_plan, insert_plan, insert_plans, first_confirmable, completed, calculate, is_reused, started,
  run_begin, run_step, run_steps,
}
use esafe.Inspections.Choice.{best_choice, calculate_choice}

abbrev pub id_is : ℕ → Plan → Bool
id_is k p = p.scenario.inspection_scenario_id == k

-- The drawn ids are no id of a stored scenario, and differ.
pub record IsFresh (ids : ScenarioIds) (plans : List Plan) : Type 0 where
  pub new_balanced : exists (id_is ids.balanced_id) plans ≡ false
  pub new_high_risk : exists (id_is ids.high_risk_id) plans ≡ false
  pub new_expanded : exists (id_is ids.expanded_id) plans ≡ false
  pub apart : (ids.balanced_id == ids.high_risk_id) ≡ false
  pub apart_wide : (ids.balanced_id == ids.expanded_id) ≡ false
  pub apart_last : (ids.high_risk_id == ids.expanded_id) ≡ false

insert_plan-new :
    (text_lt : String → String → Bool) (s : Simulation) (cs : List Candidate) (type : ScenarioType)
    (k : ℕ) (plans : List Plan)
    → exists (id_is k) plans ≡ false
    → exists (has_type s.inspection_simulation_id type) plans ≡ false
    → insert_plan text_lt s cs type k plans ≡ ok (plans ++ new_plan text_lt s cs type k ∷ [])
unfolding insert_plan
insert_plan-new text_lt s cs type k plans a b = rw (a, b) refl

-- Behind a plan of another id, or of another type, the test still fails.
exists_behind :
    (p : Plan → Bool) (plans : List Plan) (q : Plan)
    → exists p plans ≡ false
    → p q ≡ false
    → exists p (plans ++ q ∷ []) ≡ false
unfolding exists
exists_behind p plans q a b = rw (exists-append, a, b) refl

typed :
    (id : ℕ) (type : ScenarioType) (plans : List Plan)
    → exists (plan_of id) plans ≡ false
    → exists (has_type id type) plans ≡ false
unfolding exists
typed id type [] h = refl
typed id type (p ∷ ps) h = ground (arith, typed id type ps)

insert_plans-new :
    (text_lt : String → String → Bool) (s : Simulation) (cs : List Candidate) (ids : ScenarioIds)
    (plans : List Plan)
    → IsFresh ids plans
    → exists (plan_of s.inspection_simulation_id) plans ≡ false
    → (plans' : List Plan) × (insert_plans text_lt s cs ids plans ≡ ok plans')
unfolding insert_plans
insert_plans-new text_lt s cs ids plans f h =
    let id = s.inspection_simulation_id in
    let a = new_plan text_lt s cs balanced ids.balanced_id in
    let b = new_plan text_lt s cs high_risk_focused ids.high_risk_id in
    let first = plans ++ a ∷ [] in
    let second = first ++ b ∷ [] in
    let one =
      insert_plan-new text_lt s cs balanced ids.balanced_id plans f.new_balanced
        (typed id balanced plans h) in
    let two =
      insert_plan-new text_lt s cs high_risk_focused ids.high_risk_id first
        (exists_behind (id_is ids.high_risk_id) plans a f.new_high_risk
          (unfold new_plan summarize in f.apart))
        (exists_behind (has_type id high_risk_focused) plans a (typed id high_risk_focused plans h)
          (unfold new_plan summarize in ground arith)) in
    let three =
      insert_plan-new text_lt s cs coverage_expanded ids.expanded_id second
        (exists_behind (id_is ids.expanded_id) first b
          (exists_behind (id_is ids.expanded_id) plans a f.new_expanded
            (unfold new_plan summarize in f.apart_wide))
          (unfold new_plan summarize in f.apart_last))
        (exists_behind (has_type id coverage_expanded) first b
          (exists_behind (has_type id coverage_expanded) plans a
            (typed id coverage_expanded plans h) (unfold new_plan summarize in ground arith))
          (unfold new_plan summarize in ground arith)) in
    (second ++ new_plan text_lt s cs coverage_expanded ids.expanded_id ∷ [], rw (one, two) three)

calculate-new :
    (text_lt : String → String → Bool) (id : ℕ) (ids : ScenarioIds) (db : InspectionDb)
    (s : Simulation)
    → select (simulation_is id) db.simulations ≡ some s
    → IsFresh ids db.plans
    → exists (plan_of id) db.plans ≡ false
    → (db' : InspectionDb) × (calculate text_lt id ids db ≡ ok db')
unfolding calculate
calculate-new text_lt id ids db s found f h =
    let hit : simulation_is id s ≡ true = select_sound (simulation_is id) db.simulations s found in
    let same : s.inspection_simulation_id ≡ id = ground arith in
    let none_yet : exists (plan_of s.inspection_simulation_id) db.plans ≡ false = rw same h in
    let (plans, e) =
      insert_plans-new text_lt s (create_candidates s db.assessments) ids db.plans f none_yet in
    (
      record db {
        simulations =
            update (simulation_is id) (completed (first_confirmable id plans)) db.simulations;
        plans = plans;
      },
      rw (found, e) refl,
    )

begin-new :
    (id : ℕ) (db : InspectionDb) (s : Simulation)
    → select (simulation_is id) db.simulations ≡ some s
    → is_reused s.status ≡ false
    → run_begin id db
      ≡ ok (record db { simulations = update (simulation_is id) started db.simulations }, true)
unfolding run_begin
begin-new id db s found n = rw (found, n) refl

begin-found :
    (id : ℕ) (xs : List Simulation) (s : Simulation)
    → select (simulation_is id) xs ≡ some s
    → select (simulation_is id) (update (simulation_is id) started xs) ≡ some (started s)
begin-found id xs s found =
    let hit = select_sound (simulation_is id) xs s found in
    rw
      (
        select-update (simulation_is id) (simulation_is id) started xs
            (unfold started in λ a. refl),
        found,
        hit,
      )
      refl

-- A simulation that is not yet calculated, and has no scenarios, is calculated by one run that nothing
-- comes in between: it ends CALCULATED, whether it was queued, running or failed before, with the choice
-- that its candidates call for. (The drawn ids are new.)
pub run_completes :
    (text_lt : String → String → Bool) (id : ℕ) (ids : ScenarioIds) (e : Engine) (s : Simulation)
    → select (simulation_is id) e.db.simulations ≡ some s
    → is_reused s.status ≡ false
    → check_capacity s ≡ true
    → exists (plan_of id) e.db.plans ≡ false
    → IsFresh ids e.db.plans
    → select
        (simulation_is id)
        (run_steps text_lt (deliver id ∷ calculation id ids ∷ []) e).db.simulations
      ≡ some (
          completed
            (best_choice (started s) (create_candidates (started s) e.db.assessments) ids)
            (started s))
unfolding run_steps run_step
run_completes text_lt id ids e s found n h none_yet f =
    let db = record e.db { simulations = update (simulation_is id) started e.db.simulations } in
    let row = begin-found id e.db.simulations s found in
    let (db', done) = calculate-new text_lt id ids db (started s) row f none_yet in
    let under_way : exists (λ n. n == id) (id ∷ e.calculating) ≡ true =
      unfold exists in ground arith in
    rw (begin-new id e.db s found n, under_way, done)
      (calculate_choice text_lt id ids db db' (started s) done row
        (unfold check_capacity started in h))
