-- ===== src/Demo/Exhausted.antt =====
-- backend/app/demo/playback.py: a playback that has counted its last step and has no step under way.
use esafe.Prelude.{
  ℕ, ◌≤◌, ◌<◌, Bool, true, false, ◌≡◌, refl, ap, subst, sym, ◌∙◌, Option, some, List, [], ◌∷◌,
  arith, ok, inl, inr, Bool-cases, ◌==◌, select, update, raise_if-ok, bind-ok, All-select, Unique,
  Unique-update,
}
use esafe.Demo.Rows.{
  Playback, Scenario, is_live, is_running, has_playback_id, is_scenario, check_version,
  write_playbacks,
}
use esafe.Demo.Commands.{Ask, assign, resumed, resume, begin, is_for}
use esafe.Demo.Sound.{assigned}

-- The live playback is this one, and its scenario has no step after those that it has counted.
pub record IsExhausted (id : ℕ) (scenarios : List Scenario) (ps : List Playback) : Type 0 where
  pub keys : Unique (λ p. p.demo_playback_id) ps
  pub playback : Playback
  pub live : select is_live ps ≡ some playback
  pub same : playback.demo_playback_id ≡ id
  pub moving : 0 < playback.current_step
  pub over :
      (s : Scenario)
      → select (is_scenario playback.demo_scenario_id) scenarios ≡ some s
      → s.step_count ≤ playback.current_step

select-assigned :
    (q : Playback → Bool) (f : Playback → Playback) (ps : List Playback) (p : Playback)
    → Unique (λ p. p.demo_playback_id) ps
    → select q ps ≡ some p
    → q (f p) ≡ true
    → select q (update (has_playback_id p.demo_playback_id) f ps) ≡ some (f p)
unfolding select update
select-assigned q f [] p keys h live = absurd (cc)
select-assigned q f (x ∷ xs) p keys h live = elim (Bool-cases (q x)) [
  | inl y ↦ ground arith
  | inr n ↦
      let there : select q xs ≡ some p = ground arith in
      let apart : (p.demo_playback_id == x.demo_playback_id) ≡ false =
        All-select (λ y. (y.demo_playback_id == x.demo_playback_id) ≡ false) q xs p keys.0 there in
      let rest = select-assigned q f xs p keys.1 there live in ground arith
]

-- An assignment to that playback which leaves it live and keeps its steps.
pub assign-IsExhausted :
    (id : ℕ) (scenarios : List Scenario) (p : Playback) (f : Playback → Playback)
    (ps rows : List Playback) (row : Playback)
    → ((v : Playback) → (f v).demo_playback_id ≡ v.demo_playback_id)
    → (f p).demo_scenario_id ≡ p.demo_scenario_id
    → (f p).current_step ≡ p.current_step
    → is_live (f p) ≡ true
    → select is_live ps ≡ some p
    → assign p f ps ≡ ok (rows, row)
    → IsExhausted id scenarios ps
    → IsExhausted id scenarios rows
unfolding write_playbacks
assign-IsExhausted id scenarios p f ps rows row same_id same_scenario same_step live found h s =
    let written : update (has_playback_id p.demo_playback_id) f ps ≡ rows =
      (let (w, r) = assigned p f ps rows row h in ground arith) in
    let this : s.playback ≡ p = ground (arith, s.live) in
    subst (IsExhausted id scenarios) written (record {
      keys =
          Unique-update (λ p. p.demo_playback_id) (has_playback_id p.demo_playback_id) f ps same_id
            s.keys;
      playback = f p;
      live = select-assigned is_live f ps p s.keys found live;
      same = same_id p ∙ ap (λ q. q.demo_playback_id) (sym this) ∙ s.same;
      moving = subst (λ n. 0 < n) (sym same_step) (subst (λ q. 0 < q.current_step) this s.moving);
      over = λ t e.
          subst (λ n. t.step_count ≤ n) (sym same_step)
            (subst (λ q. t.step_count ≤ q.current_step) this
              (s.over t (
                subst (λ n. select (is_scenario n) scenarios ≡ some t)
                  (same_scenario ∙ ap (λ q. q.demo_scenario_id) (sym this)) e)));
    })

-- Of the branches of a start, only a resumption is left.
pub begin-IsExhausted :
    (id : ℕ) (scenarios : List Scenario) (ask : Ask) (expected : Option ℕ) (simulated : Bool)
    (ps rows : List Playback) (row : Playback)
    → begin ask expected simulated (select is_live ps) ps ≡ ok (rows, row)
    → IsExhausted id scenarios ps
    → IsExhausted id scenarios rows
unfolding begin resume
begin-IsExhausted id scenarios ask expected simulated ps rows row h s =
    let p = s.playback in
    let h1 : begin ask expected simulated (some p) ps ≡ ok (rows, row) =
      subst (λ o. begin ask expected simulated o ps ≡ ok (rows, row)) s.live h in
    elim (Bool-cases (is_for ask.scenario_id p)) [
      | inr n ↦ absurd (ground (arith, s.moving))
      | inl y ↦
          let h2 : resume ask expected simulated (some p) ps ≡ ok (rows, row) = ground arith in
          let (u, versioned, h3) = bind-ok (check_version p.version expected) _ h2 in
          let (idle, h4) = raise_if-ok (is_running p.status) _ _ h3 in
          assign-IsExhausted id scenarios p (resumed ask.now) ps rows row
            (unfold resumed in λ v. refl) (unfold resumed in refl) (unfold resumed in refl)
            (unfold resumed in refl) s.live h4 s
    ]
