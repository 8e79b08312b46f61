-- ===== src/Inspections/Steps.antt =====
-- backend/app/inspection_engine.py: what every transaction of a run keeps, every step of the runs keeps.
use esafe.Prelude.{
  ℕ, String, Bool, true, false, ◌≡◌, inl, inr, Bool-cases, Outcome-cases, ok, ◌==◌, exists,
}
use esafe.Inspections.Runs.{
  InspectionDb, ScenarioIds, Engine, RunStep, deliver, calculation, interruption, failure,
  crash_calculating, crash_failing, calculate, run_begin, run_fail, run_step,
}

module _ {ℓ} (text_lt : String → String → Bool) (P : InspectionDb → Type ℓ)
    (calculated_keeps : (k : ℕ) (ids : ScenarioIds) (db db' : InspectionDb)
      → calculate text_lt k ids db ≡ ok db'
      → P db
      → P db')
    (begun_keeps : (k : ℕ) (db db' : InspectionDb) (b : Bool)
      → run_begin k db ≡ ok (db', b)
      → P db
      → P db')
    (failed_keeps : (k : ℕ) (code : String) (db : InspectionDb)
      → P db
      → P (run_fail k code db)) where
  pub run_step_induction : (t : RunStep) (e : Engine) → P e.db → P (run_step text_lt t e).db
  unfolding run_step
  run_step_induction (deliver k) e h = elim (Outcome-cases (run_begin k e.db)) [
    | inl ((db', true), y) ↦ rw y (begun_keeps k e.db db' true y h)
    | inl ((db', false), y) ↦ rw y (begun_keeps k e.db db' false y h)
    | inr (x, n) ↦ rw n h
  ]
  run_step_induction (calculation k ids) e h =
      elim (Bool-cases (exists (λ n. n == k) e.calculating)) [
        | inl t ↦ rw t (elim (Outcome-cases (calculate text_lt k ids e.db)) [
          | inl (db', y) ↦ rw y (calculated_keeps k ids e.db db' y h)
          | inr (x, n) ↦ rw n h
        ])
        | inr n ↦ rw n h
      ]
  run_step_induction (interruption k) e h = elim (Bool-cases (exists (λ n. n == k) e.calculating)) [
    | inl t ↦ rw t h
    | inr n ↦ rw n h
  ]
  run_step_induction (failure k code) e h = elim (Bool-cases (exists (λ n. n == k) e.failing)) [
    | inl t ↦ rw t (failed_keeps k code e.db h)
    | inr n ↦ rw n h
  ]
  run_step_induction (crash_calculating k) e h = h
  run_step_induction (crash_failing k) e h = h
