-- ===== src/Inspections/Teams.antt =====
-- backend/app/inspection_engine.py: the teams of a plan and the days that it needs.
use esafe.Prelude.{
  ℕ, zero, suc, String, Bool, true, false, ◌≡◌, ◌≤◌, ◌<◌, refl, subst, Option, none, some, List, [],
  ◌∷◌, arith, ◌+◌, ◌-◌, ◌*◌, ◌/◌, min, max, inl, inr, Bool-cases, if◌then◌else◌, ◌==◌, length,
  filter, All,
}
use native.Mathlib.Nat.{div-lt_iff_lt-mul, lt-div-mul-add, div-mul-le_self, mul_comm, mul-pos}
use esafe.Inspections.Rows.{Simulation, ScenarioType, Target, check_capacity}
use esafe.Inspections.Candidates.{Candidate, ranked}
use esafe.Inspections.Targets.{
  is_expanded, team_share, is_included, team_of, new_target, targets_from, scenario_targets,
  summarize, ceil_div,
}
use esafe.Inspections.Counts.{selected_count_lem}

abbrev team_is : ℕ → Option ℕ → Bool
team_is t none = false
team_is t (some n) = n == t

-- The target belongs to that team.
unfoldable pub is_of_team : ℕ → Target → Bool
is_of_team t x = team_is t x.team_number

-- A quotient rounded up, times the divisor, covers the dividend.
pub ceil_div_covers : (a b : ℕ) → 0 < b → a ≤ ceil_div a b * b
ceil_div_covers a b pos =
    let h : a + b - 1 < (a + b - 1) / b * b + b = lt-div-mul-add pos in omega arith

pub ceil_div_least : (a b m : ℕ) → 0 < b → a ≤ m * b → ceil_div a b ≤ m
ceil_div_least a b m pos le =
    let below : (a + b - 1) / b < suc m = (div-lt_iff_lt-mul pos).1 (grind arith) in omega arith

team_below :
    (share order teams : ℕ)
    → 0 < share
    → 0 < order
    → order ≤ share * teams
    → team_of share order ≤ teams
unfolding team_of
team_below share order teams pos first le =
    let below : (order - 1) / share < teams =
      (div-lt_iff_lt-mul pos).1 (rw (mul_comm teams share) (omega arith)) in
    omega arith

team_range :
    (share order t : ℕ)
    → 0 < share
    → team_of share order ≡ suc t
    → (t * share ≤ order - 1) × (order - 1 < t * share + share)
unfolding team_of
team_range share order t pos same =
    let q : (order - 1) / share ≡ t = omega arith in
    (
      subst (λ k. k * share ≤ order - 1) q (div-mul-le_self (order - 1) share),
      subst (λ k. order - 1 < k * share + share) q (lt-div-mul-add pos),
    )

module _ (s : Simulation) (type : ScenarioType) (count t : ℕ) where
  share_positive : 0 < team_share s type count
  unfolding team_share
  share_positive = omega arith

  its_order :
      (order : ℕ) (c : Candidate)
      → is_of_team (suc t) (new_target s type count order c) ≡ true
      → team_of (team_share s type count) order ≡ suc t
  unfolding is_of_team new_target
  its_order order c y = ground arith

  -- Of the targets from some order on, a team gets at most what its share leaves.
  load_from :
      (order : ℕ) (cs : List Candidate)
      → 0 < order
      → length (filter (is_of_team (suc t)) (targets_from s type count order cs))
        ≤ t * team_share s type count
          + team_share s type count
          - max (order - 1) (t * team_share s type count)
  unfolding targets_from filter
  load_from order [] first = omega arith
  load_from order (c ∷ cs) first =
      let rest = load_from (suc order) cs (omega arith) in
      elim (Bool-cases (is_of_team (suc t) (new_target s type count order c))) [
        | inl y ↦
            let (low, high) =
              team_range (team_share s type count) order t share_positive (its_order order c y) in
            rw y (omega arith)
        | inr n ↦ rw n (omega arith)
      ]

  pub team_load :
      (cs : List Candidate)
      → length (filter (is_of_team (suc t)) (targets_from s type count 1 cs))
        ≤ team_share s type count
  team_load cs = omega (arith, load_from 1 cs (omega arith))

total_turned : (a b c : ℕ) → a * b * c ≡ a * c * b
total_turned a b c = grind arith

pub capacity_lem :
    (s : Simulation)
    → check_capacity s ≡ true
    → (0 < s.team_count)
      × (0 < s.daily_capacity_per_team)
      × (0 < s.inclusive_day_count)
      × (s.total_capacity ≡ s.inclusive_day_count * s.team_count * s.daily_capacity_per_team)
unfolding check_capacity
capacity_lem s h = (ground arith, ground arith, ground arith, ground arith)

-- A team's share of a plan within the capacity is what the team can do in the days of the plan.
share_bound :
    (s : Simulation) (type : ScenarioType) (count : ℕ)
    → check_capacity s ≡ true
    → is_expanded type ≡ false
    → team_share s type count ≤ s.inclusive_day_count * s.daily_capacity_per_team
unfolding team_share
share_bound s type count h plain =
    let (teams, daily, days, total) = capacity_lem s h in
    let enough : min count s.total_capacity
        ≤ s.inclusive_day_count * s.daily_capacity_per_team * s.team_count =
      omega
        (arith, total, total_turned s.inclusive_day_count s.team_count s.daily_capacity_per_team) in
    let least =
      ceil_div_least (min count s.total_capacity) s.team_count
        (s.inclusive_day_count * s.daily_capacity_per_team) teams enough in
    rw plain (omega (arith, mul-pos days daily))

-- In a plan within the capacity (BALANCED or HIGH_RISK_FOCUSED), no team gets more targets than it can
-- visit in the days of the plan, not more targets are selected than the capacity, and the days that the
-- scenario says are required are not more than the plan has.
pub plan_fits :
    (text_lt : String → String → Bool) (s : Simulation) (type : ScenarioType) (scenario_id team : ℕ)
    (cs : List Candidate)
    → check_capacity s ≡ true
    → is_expanded type ≡ false
    → (length (filter (is_of_team (suc team)) (scenario_targets text_lt s type cs))
        ≤ s.inclusive_day_count * s.daily_capacity_per_team)
      × ((summarize s type scenario_id (scenario_targets text_lt s type cs)).over_capacity ≡ false)
      × ((summarize s type scenario_id (scenario_targets text_lt s type cs)).required_days
          ≤ s.inclusive_day_count)
unfolding scenario_targets summarize
plan_fits text_lt s type scenario_id team cs h plain =
    let rows = ranked text_lt type cs in
    let (teams, daily, days, total) = capacity_lem s h in
    let load = team_load s type (length rows) team rows in
    let share = share_bound s type (length rows) h plain in
    let selected = rw plain at (selected_count_lem text_lt s type cs) in
    let least =
      ceil_div_least (min (length rows) s.total_capacity) (s.team_count * s.daily_capacity_per_team)
        s.inclusive_day_count (mul-pos teams daily) (grind arith) in
    (omega arith, rw selected (ground arith), rw selected (ground arith))

max_scaled : (c t n : ℕ) → n ≤ c * t → n ≤ max 1 c * t
max_scaled zero t n le = omega arith
max_scaled (suc k) t n le = let same : max 1 (suc k) ≡ suc k = omega arith in rw same le

share_covers :
    (s : Simulation) (type : ScenarioType) (count order : ℕ)
    → check_capacity s ≡ true
    → is_included s type order ≡ true
    → order ≤ count
    → order ≤ team_share s type count * s.team_count
unfolding is_included team_share
share_covers s type count order h y le =
    let (teams, daily, days, total) = capacity_lem s h in
    let n = if is_expanded type then count else min count s.total_capacity in
    let within : order ≤ n = elim (Bool-cases (is_expanded type)) [
      | inl e ↦ rw e le
      | inr e ↦ rw e (ground arith)
    ] in
    max_scaled (ceil_div n s.team_count) s.team_count order
      (omega (arith, ceil_div_covers n s.team_count teams))

team_found :
    (s : Simulation) (type : ScenarioType) (count : ℕ)
    → check_capacity s ≡ true
    → (order : ℕ) (c : Candidate) → 0 < order
    → order ≤ count
    → (new_target s type count order c).included ≡ true
    → (n : ℕ) × ((new_target s type count order c).team_number ≡ some n)
      × (0 < n)
      × (n ≤ s.team_count)
unfolding new_target
team_found s type count h order c first le y =
    let share = team_share s type count in
    let below =
      team_below share order s.team_count (share_positive s type count 0) first
        (share_covers s type count order h y le) in
    (team_of share order, rw y refl, (unfold team_of in omega arith), below)

teams_from :
    (s : Simulation) (type : ScenarioType) (count : ℕ)
    → check_capacity s ≡ true
    → (order : ℕ) (cs : List Candidate) → 0 < order
    → order + length cs ≤ suc count
    → All
        (λ t. t.included ≡ true → (n : ℕ) × (t.team_number ≡ some n) × (0 < n) × (n ≤ s.team_count))
        (targets_from s type count order cs)
unfolding targets_from
teams_from s type count h order [] first last = tt
teams_from s type count h order (c ∷ cs) first last = (
  team_found s type count h order c first (omega arith),
  teams_from s type count h (suc order) cs (omega arith) (omega arith),
)

-- A target that is included is in one of the teams of the plan, whatever the type of the scenario.
pub teams_exist :
    (text_lt : String → String → Bool) (s : Simulation) (type : ScenarioType) (cs : List Candidate)
    → check_capacity s ≡ true
    → All
        (λ t. t.included ≡ true → (n : ℕ) × (t.team_number ≡ some n) × (0 < n) × (n ≤ s.team_count))
        (scenario_targets text_lt s type cs)
unfolding scenario_targets
teams_exist text_lt s type cs h =
    let rows = ranked text_lt type cs in
    teams_from s type (length rows) h 1 rows (omega arith) (omega arith)
