-- ===== src/Inspections/Order.antt =====
-- backend/app/inspection_engine.py: which candidates a plan leaves out.
use esafe.Prelude.{
  ℕ, suc, String, Bool, true, false, ◌≡◌, ◌≤◌, List, [], ◌∷◌, arith, length, filter, All, Pairwise,
  Pairwise-All, Pairwise-sort_by,
}
use esafe.Inspections.Rows.{Simulation, ScenarioType, high_risk_focused, Target}
use esafe.Inspections.Candidates.{Candidate, ranked, risk_order}
use esafe.Inspections.Targets.{is_included, new_target, targets_from, scenario_targets}

abbrev NotRiskier : Candidate → Candidate → Type 0
NotRiskier a b = b.final_score ≤ a.final_score

abbrev InTurn : Target → Target → Type 0
InTurn a b = (b.final_score ≤ a.final_score) × (b.included ≡ true → a.included ≡ true)

risk_order-first : (a b : Candidate) → risk_order a b ≡ true → NotRiskier a b
unfolding risk_order
risk_order-first a b h = ground arith

risk_order-second : (a b : Candidate) → risk_order a b ≡ false → NotRiskier b a
unfolding risk_order
risk_order-second a b h = ground arith

module _ (s : Simulation) (type : ScenarioType) (count : ℕ) where
  behind :
      (order later : ℕ) (c : Candidate) (cs : List Candidate)
      → order ≤ later
      → All (NotRiskier c) cs
      → All (InTurn (new_target s type count order c)) (targets_from s type count later cs)
  unfolding targets_from
  behind order later c [] le h = tt
  behind order later c (d ∷ ds) le h = (
    unfold new_target is_included in (h.0, λ y. ground arith),
    behind order (suc later) c ds (omega arith) h.1,
  )

  targets_from-Pairwise :
      (order : ℕ) (cs : List Candidate)
      → Pairwise NotRiskier cs
      → Pairwise InTurn (targets_from s type count order cs)
  unfolding targets_from
  targets_from-Pairwise order [] h = tt
  targets_from-Pairwise order (c ∷ cs) h =
      (behind order (suc order) c cs (omega arith) h.0, targets_from-Pairwise (suc order) cs h.1)

-- A plan of type HIGH_RISK_FOCUSED leaves no candidate out that has a higher score than one it selects.
pub highest_first :
    (text_lt : String → String → Bool) (s : Simulation) (cs : List Candidate)
    → All
        (λ a.
          All
            (λ b. a.included ≡ true → b.included ≡ false → b.final_score ≤ a.final_score)
            (scenario_targets text_lt s high_risk_focused cs))
        (scenario_targets text_lt s high_risk_focused cs)
unfolding scenario_targets ranked
highest_first text_lt s cs =
    let rows = ranked text_lt high_risk_focused cs in
    Pairwise-All InTurn
      (λ a b. a.included ≡ true → b.included ≡ false → b.final_score ≤ a.final_score)
      (λ a y n. omega arith) (λ a b r y n. r.0) (λ a b r y n. absurd (ground (arith, r.1 y)))
      (scenario_targets text_lt s high_risk_focused cs)
      (targets_from-Pairwise s high_risk_focused (length rows) 1 rows (
        Pairwise-sort_by risk_order NotRiskier risk_order-first risk_order-second
          (λ a b c h k. omega arith) (filter (λ c. c.base_eligible) cs)))
