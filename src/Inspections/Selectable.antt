-- ===== src/Inspections/Selectable.antt =====
-- The scenario that a simulation has selected: what calculations (backend/app/inspection_engine.py) and
-- users (backend/app/inspection_views.py) can make of it.
use esafe.Prelude.{
  ℕ, String, Bool, true, ◌≡◌, refl, sym, subst, Option, none, some, List, [], ◌∷◌, ◌++◌, arith, inl,
  inr, Bool-cases, Option-cases, Outcome-cases, ok, bind-ok, raise_if-ok, ◌&&◌, ◌||◌, not, ltb, leb,
  ◌==◌, text_length, is_empty, select, exists, exists-append, filter, sort_by, All-sort_by, update,
  All, All-map, All-update,
}
use esafe.Inspections.Rows.{Simulation}
use esafe.Inspections.Candidates.{create_candidates}
use esafe.Inspections.Runs.{
  Plan, InspectionDb, SelectionEvent, ScenarioIds, Engine, RunStep, simulation_is, plan_of,
  first_id, first_confirmable, completed, calculate, is_reused, started, run_begin, broken,
  run_fail, run_step,
}
use esafe.Inspections.Calculated.{calculate-ok, insert_plans-ok, three_plans}
use esafe.Inspections.Steps.{run_step_induction}
use esafe.Inspections.Selection.{
  simulation_not_found, scenario_not_found, selection_key, has_key, insert_event, is_plan, chosen,
  or_raise, choose_scenario, select_scenario, post_selection, is_selectable, PlanStep, to_run,
  to_select, after_selection, plan_steps,
}

-- The scenario is one of the simulation's own, and can be confirmed.
abbrev is_offer : ℕ → ℕ → Plan → Bool
is_offer id k p = is_plan id k p && p.scenario.confirmable

abbrev ChoiceFits : List Plan → ℕ → Option ℕ → Type 0
ChoiceFits plans id none = Unit
ChoiceFits plans id (some k) = exists (is_offer id k) plans ≡ true

-- What every simulation has selected.
abbrev pub Sound : InspectionDb → Type 0
Sound db =
    All (λ s. ChoiceFits db.plans s.inspection_simulation_id s.selected_scenario_id) db.simulations

ChoiceFits-append :
    (plans new : List Plan) (id : ℕ) (choice : Option ℕ)
    → ChoiceFits plans id choice
    → ChoiceFits (plans ++ new) id choice
ChoiceFits-append plans new id none h = tt
ChoiceFits-append plans new id (some k) h = rw exists-append (ground (arith, h))

first_id-ChoiceFits :
    (plans : List Plan) (id : ℕ) (xs : List Plan)
    → All (λ p. exists (is_offer id p.scenario.inspection_scenario_id) plans ≡ true) xs
    → ChoiceFits plans id (first_id xs)
first_id-ChoiceFits plans id [] h = tt
first_id-ChoiceFits plans id (x ∷ xs) h = h.0

module _ (id : ℕ) where
  abbrev offered : Plan → Bool
  offered p = plan_of id p && p.scenario.confirmable

  own_offer : (p : Plan) → offered p ≡ true → is_offer id p.scenario.inspection_scenario_id p ≡ true
  unfolding is_plan
  own_offer p h = ground arith

  offers :
      (xs : List Plan)
      → All
          (λ p. exists (is_offer id p.scenario.inspection_scenario_id) xs ≡ true)
          (filter offered xs)
  unfolding filter exists
  offers [] = tt
  offers (x ∷ xs) =
      let rest =
        All-map (λ p. exists (is_offer id p.scenario.inspection_scenario_id) xs ≡ true)
          (λ p. exists (is_offer id p.scenario.inspection_scenario_id) (x ∷ xs) ≡ true)
          (filter offered xs) (λ p h. ground arith) (offers xs) in
      elim (Bool-cases (offered x)) [
        | inl y ↦ rw y (ground (arith, own_offer x y), rest)
        | inr n ↦ rw n rest
      ]

  pub first_confirmable-ChoiceFits :
      (plans : List Plan) → ChoiceFits plans id (first_confirmable id plans)
  unfolding first_confirmable
  first_confirmable-ChoiceFits plans =
      first_id-ChoiceFits plans id
        (sort_by (λ p q. leb p.scenario.ordinal q.scenario.ordinal) (filter offered plans))
        (All-sort_by (λ p q. leb p.scenario.ordinal q.scenario.ordinal)
          (λ p. exists (is_offer id p.scenario.inspection_scenario_id) plans ≡ true)
          (filter offered plans) (offers plans))

abbrev Fits : List Plan → Simulation → Type 0
Fits plans s = ChoiceFits plans s.inspection_simulation_id s.selected_scenario_id

-- A write to the row of one simulation that keeps its id.
update-Fits :
    (plans : List Plan) (k : ℕ) (f : Simulation → Simulation) (xs : List Simulation)
    → ((s : Simulation) → s.inspection_simulation_id ≡ k → Fits plans s → Fits plans (f s))
    → All (Fits plans) xs
    → All (Fits plans) (update (simulation_is k) f xs)
update-Fits plans k f xs hit h =
    All-update (Fits plans) (Fits plans) (simulation_is k) f xs (λ s u y. hit s (ground arith) u)
      (λ s u n. u) h

module _ (text_lt : String → String → Bool) where
  calculate-Sound :
      (k : ℕ) (ids : ScenarioIds) (db db' : InspectionDb)
      → calculate text_lt k ids db ≡ ok db'
      → Sound db
      → Sound db'
  unfolding completed
  calculate-Sound k ids db db' e h =
      let c = calculate-ok text_lt k ids db db' e in
      let cs = create_candidates c.simulation db.assessments in
      let (free, f2, f3, plans) =
        insert_plans-ok text_lt c.simulation cs ids db.plans c.plans c.inserted in
      let more : All (Fits c.plans) db.simulations = rw plans (
        All-map (Fits db.plans) (Fits (db.plans ++ three_plans text_lt c.simulation cs ids))
          db.simulations
          (λ s.
            ChoiceFits-append db.plans (three_plans text_lt c.simulation cs ids)
              s.inspection_simulation_id s.selected_scenario_id)
          h) in
      rw c.left (
        update-Fits c.plans k (completed (first_confirmable k c.plans)) db.simulations
          (λ s same u.
            subst (λ n. ChoiceFits c.plans n (first_confirmable k c.plans)) (sym same)
              (first_confirmable-ChoiceFits k c.plans))
          more)

  begin-Sound :
      (k : ℕ) (db db' : InspectionDb) (b : Bool)
      → run_begin k db ≡ ok (db', b)
      → Sound db
      → Sound db'
  unfolding run_begin started
  begin-Sound k db db' b e h = elim (Option-cases (select (simulation_is k) db.simulations)) [
    | inl n ↦ absurd (ground (arith, n))
    | inr (s, y) ↦
        let went = rw y at e in
        elim (Bool-cases (is_reused s.status)) [
          | inl t ↦ let same : db' ≡ db = ground (arith, rw t at went) in rw same h
          | inr n ↦
              let same : db'
                  ≡ record db { simulations = update (simulation_is k) started db.simulations } =
                ground (arith, rw n at went) in
              rw same (update-Fits db.plans k started db.simulations (λ s same u. u) h)
        ]
  ]

  fail-Sound : (k : ℕ) (code : String) (db : InspectionDb) → Sound db → Sound (run_fail k code db)
  unfolding run_fail broken
  fail-Sound k code db h = update-Fits db.plans k (broken code) db.simulations (λ s same u. u) h

or_raise-ok {ℓ κ} :
    {E : Type ℓ} {A : Type κ} (e : E) (o : Option A) (a : A) → or_raise e o ≡ ok a → o ≡ some a
or_raise-ok e none a h = absurd (ground (arith, h))
or_raise-ok e (some b) a h = ground (arith, h)

exists_both {ℓ} :
    {A : Type ℓ} (p q : A → Bool) (xs : List A) (a : A)
    → select p xs ≡ some a
    → q a ≡ true
    → exists (λ x. p x && q x) xs ≡ true
unfolding select exists
exists_both p q [] a e h = absurd (ground (arith, e))
exists_both p q (x ∷ xs) a e h = elim (Bool-cases (p x)) [
  | inl y ↦ let same : x ≡ a = ground (arith, rw y at e) in rw (y, same, h) refl
  | inr n ↦ rw n (exists_both p q xs a (rw n at e) h)
]

-- What a choice that was made found, and what it left.
choose_scenario-ok :
    (full : String) (id k expected : ℕ) (db db' : InspectionDb)
    → choose_scenario full id k expected db ≡ ok db'
    → (exists (is_offer id k) db.plans ≡ true)
      × ((events : List SelectionEvent) × (db' ≡ record db {
        simulations = update (simulation_is id) (chosen k) db.simulations;
        events = events;
      }))
unfolding choose_scenario
choose_scenario-ok full id k expected db db' e =
    let (s, found, e1) =
      bind-ok (or_raise simulation_not_found (select (simulation_is id) db.simulations)) _ e in
    let (a, e2) = raise_if-ok (not (s.version == expected)) _ _ e1 in
    let (b, e3) = raise_if-ok (not (is_selectable s.status)) _ _ e2 in
    let (p, plan, e4) =
      bind-ok (or_raise scenario_not_found (select (is_plan id k) db.plans)) _ e3 in
    let (c, e5) = raise_if-ok (not p.scenario.confirmable) _ _ e4 in
    let (events, logged, e6) = bind-ok (insert_event full k db.events) _ e5 in
    (
      exists_both (is_plan id k) (λ p. p.scenario.confirmable) db.plans p
          (or_raise-ok scenario_not_found (select (is_plan id k) db.plans) p plan)
          (ground (arith, c)),
      (events, ground (arith, e6)),
    )

select_scenario-Sound :
    (profile key : String) (id k expected : ℕ) (db db' : InspectionDb)
    → select_scenario profile key id k expected db ≡ ok db'
    → Sound db
    → Sound db'
unfolding select_scenario chosen
select_scenario-Sound profile key id k expected db db' e h =
    elim (Bool-cases (exists (has_key (selection_key profile key)) db.events)) [
      | inl y ↦ let same : db' ≡ db = ground (arith, rw y at e) in rw same h
      | inr n ↦
          let (offer, (events, left)) =
            choose_scenario-ok (selection_key profile key) id k expected db db' (rw n at e) in
          rw left (
            update-Fits db.plans id (chosen k) db.simulations
              (λ s same u. subst (λ n. exists (is_offer n k) db.plans ≡ true) (sym same) offer) h)
    ]

run_step-Sound :
    (text_lt : String → String → Bool) (t : RunStep) (e : Engine)
    → Sound e.db
    → Sound (run_step text_lt t e).db
run_step-Sound text_lt =
    run_step_induction text_lt Sound (calculate-Sound text_lt) (begin-Sound text_lt)
      (fail-Sound text_lt)

select-Sound :
    (profile key : String) (id k expected : ℕ) (e : Engine)
    → Sound e.db
    → Sound (after_selection e (post_selection profile key id k expected e.db)).db
unfolding post_selection
select-Sound profile key id k expected e h =
    elim (Bool-cases (is_empty key || ltb 160 (text_length key))) [
      | inl y ↦ rw y h
      | inr n ↦ rw n (elim (Outcome-cases (select_scenario profile key id k expected e.db)) [
        | inl (db', y) ↦ rw y (select_scenario-Sound profile key id k expected e.db db' y h)
        | inr (x, m) ↦ rw m h
      ])
    ]

-- From a state where what each simulation has selected is a confirmable scenario of its own, whatever
-- runs are delivered, calculate, fail or crash and whatever users select, it stays so.
pub plan_steps-Sound :
    (text_lt : String → String → Bool) (ts : List PlanStep) (e : Engine)
    → Sound e.db
    → Sound (plan_steps text_lt ts e).db
unfolding plan_steps
plan_steps-Sound text_lt [] e h = h
plan_steps-Sound text_lt (to_run t ∷ ts) e h =
    plan_steps-Sound text_lt ts (run_step text_lt t e) (run_step-Sound text_lt t e h)
plan_steps-Sound text_lt (to_select profile key id k expected ∷ ts) e h =
    plan_steps-Sound text_lt ts (after_selection e (post_selection profile key id k expected e.db))
      (select-Sound profile key id k expected e h)
