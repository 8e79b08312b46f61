-- ===== src/Inspections/Stuck.antt =====
-- backend/app/inspection_engine.py: a run that overtakes another leaves the simulation failed for good.
use esafe.Prelude.{
  ℕ, String, Bool, true, false, ◌≡◌, refl, Option, List, [], ◌∷◌, arith, inl, inr, Bool-cases,
  Option-cases, ok, ◌==◌, select, select_sound, exists, exists-append, update, All, All-update,
}
use esafe.Inspections.Rows.{SimulationStatus, queued, running, failed, balanced, Simulation}
use esafe.Inspections.Candidates.{create_candidates}
use esafe.Inspections.Calculated.{calculate-ok, insert_plans-ok}
use esafe.Inspections.Steps.{run_step_induction}
use esafe.Inspections.Runs.{
  InspectionDb, ScenarioIds, Engine, RunStep, simulation_is, has_type, first_confirmable, completed,
  calculate, is_reused, started, run_begin, broken, run_fail, run_step, run_steps,
}

abbrev pub is_unfinished : SimulationStatus → Bool
is_unfinished queued = true
is_unfinished running = true
is_unfinished failed = true
is_unfinished _ = false

abbrev Unfinished : ℕ → List Simulation → Type 0
Unfinished id = All (λ s. simulation_is id s ≡ true → is_unfinished s.status ≡ true)

-- The simulation has the scenario of a calculation, but is not calculated.
abbrev pub Overtaken : ℕ → InspectionDb → Type 0
Overtaken id db = (exists (has_type id balanced) db.plans ≡ true) × Unfinished id db.simulations

module _ (text_lt : String → String → Bool) (id : ℕ) where
  update-Unfinished :
      (k : ℕ) (f : Simulation → Simulation) (xs : List Simulation)
      → ((s : Simulation)
          → simulation_is k s ≡ true
          → simulation_is id (f s) ≡ true
          → is_unfinished (f s).status ≡ true)
      → Unfinished id xs
      → Unfinished id (update (simulation_is k) f xs)
  update-Unfinished k f xs hit h =
      All-update (λ s. simulation_is id s ≡ true → is_unfinished s.status ≡ true)
        (λ s. simulation_is id s ≡ true → is_unfinished s.status ≡ true) (simulation_is k) f xs
        (λ s u y t. hit s y t) (λ s u n. u) h

  completed_other :
      (k : ℕ) (choice : Option ℕ) (s : Simulation)
      → (k == id) ≡ false
      → simulation_is k s ≡ true
      → simulation_is id (completed choice s) ≡ true
      → ⊥
  unfolding completed
  completed_other k choice s other y t = ground arith

  same_id : (k : ℕ) (s : Simulation) → simulation_is k s ≡ true → s.inspection_simulation_id ≡ k
  same_id k s y = ground arith

  calculate-Overtaken :
      (k : ℕ) (ids : ScenarioIds) (db db' : InspectionDb)
      → calculate text_lt k ids db ≡ ok db'
      → Overtaken id db
      → Overtaken id db'
  calculate-Overtaken k ids db db' e h =
      let c = calculate-ok text_lt k ids db db' e in
      let cs = create_candidates c.simulation db.assessments in
      let (free, f2, f3, plans) =
        insert_plans-ok text_lt c.simulation cs ids db.plans c.plans c.inserted in
      let found =
        same_id k c.simulation
          (select_sound (simulation_is k) db.simulations c.simulation c.found) in
      elim (Bool-cases (k == id)) [
        | inl y ↦
            let same : c.simulation.inspection_simulation_id ≡ id = ground arith in
            absurd (ground (arith, h.0, rw same at free))
        | inr n ↦ rw c.left (
          rw (plans, exists-append) (ground (arith, h.0)),
          update-Unfinished k (completed (first_confirmable k c.plans)) db.simulations
              (λ s y t. absurd (completed_other k (first_confirmable k c.plans) s n y t)) h.1,
        )
      ]

  begin-Overtaken :
      (k : ℕ) (db db' : InspectionDb) (b : Bool)
      → run_begin k db ≡ ok (db', b)
      → Overtaken id db
      → Overtaken id db'
  unfolding run_begin started
  begin-Overtaken k db db' b e h = elim (Option-cases (select (simulation_is k) db.simulations)) [
    | inl n ↦ absurd (ground (arith, n))
    | inr (s, y) ↦
        let went = rw y at e in
        elim (Bool-cases (is_reused s.status)) [
          | inl t ↦ let same : db' ≡ db = ground (arith, rw t at went) in rw same h
          | inr n ↦
              let same : db'
                  ≡ record db { simulations = update (simulation_is k) started db.simulations } =
                ground (arith, rw n at went) in
              rw same (h.0, update-Unfinished k started db.simulations (λ s y t. refl) h.1)
        ]
  ]

  fail-Overtaken :
      (k : ℕ) (code : String) (db : InspectionDb)
      → Overtaken id db
      → Overtaken id (run_fail k code db)
  unfolding run_fail broken
  fail-Overtaken k code db h =
      (h.0, update-Unfinished k (broken code) db.simulations (λ s y t. refl) h.1)

  run_step-Overtaken :
      (t : RunStep) (e : Engine) → Overtaken id e.db → Overtaken id (run_step text_lt t e).db
  run_step-Overtaken =
      run_step_induction text_lt (Overtaken id) calculate-Overtaken begin-Overtaken fail-Overtaken

-- A simulation that has its scenarios but is not calculated (a second run, that started while the first
-- calculated, has failed on those scenarios) never becomes calculated again: whatever runs of whatever
-- simulations are delivered, calculate, fail or crash, it stays queued, running or failed.
pub run_steps-Overtaken :
    (text_lt : String → String → Bool) (id : ℕ) (ts : List RunStep) (e : Engine)
    → Overtaken id e.db
    → Overtaken id (run_steps text_lt ts e).db
unfolding run_steps
run_steps-Overtaken text_lt id [] e h = h
run_steps-Overtaken text_lt id (t ∷ ts) e h =
    run_steps-Overtaken text_lt id ts (run_step text_lt t e) (run_step-Overtaken text_lt id t e h)
