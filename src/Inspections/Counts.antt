-- ===== src/Inspections/Counts.antt =====
-- backend/app/inspection_engine.py: how many targets a scenario has and how many of them are included.
use esafe.Prelude.{
  ℕ, suc, String, Bool, ◌≡◌, refl, ap, List, [], ◌∷◌, arith, ◌-◌, min, if◌then◌else◌, length,
  filter, map,
}
use esafe.Inspections.Rows.{Simulation, ScenarioType}
use esafe.Inspections.Candidates.{Candidate, ranked}
use esafe.Inspections.Targets.{is_expanded, is_included, new_target, targets_from, scenario_targets}

module _ (s : Simulation) (type : ScenarioType) (count : ℕ) where
  pub length-targets_from :
      (order : ℕ) (cs : List Candidate) → length (targets_from s type count order cs) ≡ length cs
  unfolding targets_from
  length-targets_from order [] = refl
  length-targets_from order (c ∷ cs) = ap suc (length-targets_from (suc order) cs)

  -- How many are included: all of them, or as many as the capacity leaves.
  selected_from :
      (order : ℕ) (cs : List Candidate)
      → length (filter (λ t. t.included) (targets_from s type count order cs))
        ≡ (if is_expanded type then length cs else min (length cs) (suc s.total_capacity - order))
  unfolding targets_from new_target is_included filter
  selected_from order [] = ground arith
  selected_from order (c ∷ cs) = ground (arith, selected_from (suc order) cs)

pub selected_count_lem :
    (text_lt : String → String → Bool) (s : Simulation) (type : ScenarioType) (cs : List Candidate)
    → length (filter (λ t. t.included) (scenario_targets text_lt s type cs)) ≡ (
        if is_expanded type
        then length (ranked text_lt type cs)
        else min (length (ranked text_lt type cs)) s.total_capacity)
unfolding scenario_targets
selected_count_lem text_lt s type cs =
    let rows = ranked text_lt type cs in ground (arith, selected_from s type (length rows) 1 rows)

pub length-map {ℓ κ} :
    {A : Type ℓ} {B : Type κ} (f : A → B) (xs : List A) → length (map f xs) ≡ length xs
length-map f [] = refl
length-map f (x ∷ xs) = ap suc (length-map f xs)
