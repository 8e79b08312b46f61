-- ===== src/Inspections/Calculated.antt =====
-- backend/app/inspection_engine.py: what a calculation that returned has read and written.
use esafe.Prelude.{
  ℕ, String, Bool, false, ◌≡◌, refl, ap, ◌∙◌, some, List, [], ◌∷◌, ◌++◌, arith, inl, inr,
  Option-cases, ok, bind-ok, raise_if-ok, ◌==◌, select, exists, update,
}
use esafe.Inspections.Rows.{
  balanced, high_risk_focused, coverage_expanded, ScenarioType, Simulation,
}
use esafe.Inspections.Candidates.{Candidate, create_candidates}
use esafe.Inspections.Runs.{
  Plan, InspectionDb, ScenarioIds, simulation_is, has_type, new_plan, insert_plan, insert_plans,
  first_confirmable, completed, calculate,
}

-- What a calculation that returned found, and what it left.
pub record Calculated (text_lt : String → String → Bool) (id : ℕ) (ids : ScenarioIds)
    (db db' : InspectionDb) : Type 0 where
  pub simulation : Simulation
  pub plans : List Plan
  pub found : select (simulation_is id) db.simulations ≡ some simulation
  pub inserted :
      insert_plans text_lt simulation (create_candidates simulation db.assessments) ids db.plans
      ≡ ok plans
  pub left : db' ≡ record db {
    simulations = update (simulation_is id) (completed (first_confirmable id plans)) db.simulations;
    plans = plans;
  }

pub calculate-ok :
    (text_lt : String → String → Bool) (id : ℕ) (ids : ScenarioIds) (db db' : InspectionDb)
    → calculate text_lt id ids db ≡ ok db'
    → Calculated text_lt id ids db db'
unfolding calculate
calculate-ok text_lt id ids db db' e =
    elim (Option-cases (select (simulation_is id) db.simulations)) [
      | inl n ↦ absurd (ground (arith, n))
      | inr (s, y) ↦
          let (plans, inserted, left) =
            bind-ok (insert_plans text_lt s (create_candidates s db.assessments) ids db.plans) _
              (rw y at e) in
          record {
            simulation = s;
            plans = plans;
            found = y;
            inserted = inserted;
            left = ground arith;
          }
    ]

-- An insertion that returned adds the plan, and no plan of that type was there.
pub insert_plan-ok :
    (text_lt : String → String → Bool) (s : Simulation) (cs : List Candidate) (type : ScenarioType)
    (k : ℕ) (plans plans' : List Plan)
    → insert_plan text_lt s cs type k plans ≡ ok plans'
    → (exists (has_type s.inspection_simulation_id type) plans ≡ false)
      × (plans' ≡ plans ++ new_plan text_lt s cs type k ∷ [])
unfolding insert_plan
insert_plan-ok text_lt s cs type k plans plans' e =
    let (a, e1) = raise_if-ok (exists (λ q. q.scenario.inspection_scenario_id == k) plans) _ _ e in
    let (b, e2) = raise_if-ok (exists (has_type s.inspection_simulation_id type) plans) _ _ e1 in
    (b, ground arith)

-- The plans of the three types.
abbrev pub three_plans :
    (String → String → Bool) → Simulation → List Candidate → ScenarioIds → List Plan
three_plans text_lt s cs ids =
    new_plan text_lt s cs balanced ids.balanced_id
    ∷ new_plan text_lt s cs high_risk_focused ids.high_risk_id
    ∷ new_plan text_lt s cs coverage_expanded ids.expanded_id
    ∷ []

append_two {ℓ} :
    {A : Type ℓ} (xs : List A) (a b c : A)
    → ((xs ++ a ∷ []) ++ b ∷ []) ++ c ∷ [] ≡ xs ++ a ∷ b ∷ c ∷ []
append_two [] a b c = refl
append_two (x ∷ xs) a b c = ap (λ ys. x ∷ ys) (append_two xs a b c)

pub insert_plans-ok :
    (text_lt : String → String → Bool) (s : Simulation) (cs : List Candidate) (ids : ScenarioIds)
    (plans plans' : List Plan)
    → insert_plans text_lt s cs ids plans ≡ ok plans'
    → (exists (has_type s.inspection_simulation_id balanced) plans ≡ false)
      × (exists
            (has_type s.inspection_simulation_id high_risk_focused)
            (plans ++ new_plan text_lt s cs balanced ids.balanced_id ∷ [])
          ≡ false)
      × (exists (has_type s.inspection_simulation_id coverage_expanded) (
            (plans ++ new_plan text_lt s cs balanced ids.balanced_id ∷ [])
            ++ new_plan text_lt s cs high_risk_focused ids.high_risk_id ∷ [])
          ≡ false)
      × (plans' ≡ plans ++ three_plans text_lt s cs ids)
unfolding insert_plans
insert_plans-ok text_lt s cs ids plans plans' e =
    let (first, e1, rest) = bind-ok (insert_plan text_lt s cs balanced ids.balanced_id plans) _ e in
    let (second, e2, e3) =
      bind-ok (insert_plan text_lt s cs high_risk_focused ids.high_risk_id first) _ rest in
    let (free1, s1) = insert_plan-ok text_lt s cs balanced ids.balanced_id plans first e1 in
    let (free2, s2) =
      insert_plan-ok text_lt s cs high_risk_focused ids.high_risk_id first second e2 in
    let (free3, s3) =
      insert_plan-ok text_lt s cs coverage_expanded ids.expanded_id second plans' e3 in
    (
      free1,
      rw s1 at free2,
      rw s1 at (rw s2 at free3),
      s3
          ∙ ap (λ ps. ps ++ new_plan text_lt s cs coverage_expanded ids.expanded_id ∷ [])
              (s2
                ∙ ap (λ ps. ps ++ new_plan text_lt s cs high_risk_focused ids.high_risk_id ∷ []) s1)
          ∙ append_two plans (new_plan text_lt s cs balanced ids.balanced_id)
              (new_plan text_lt s cs high_risk_focused ids.high_risk_id)
              (new_plan text_lt s cs coverage_expanded ids.expanded_id),
    )
