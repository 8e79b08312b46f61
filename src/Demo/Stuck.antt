-- ===== src/Demo/Stuck.antt =====
-- backend/app/demo/playback.py: without a reset, a playback whose last step failed is never completed.
use esafe.Prelude.{
  ℕ, ◌+◌, ◌≤◌, String, Bool, true, false, not, ◌≡◌, refl, ap, subst, sym, ◌∙◌, Option, none, some,
  List, [], ◌∷◌, arith, ok, inl, inr, ◌⊎◌, Option-cases, Outcome, Outcome-cases, ltb, select,
  raise_if-ok, bind-ok, All, commit-keeps,
}
use esafe.Demo.Rows.{
  start, pause, Answer, Demo, DemoError, is_live, is_running, has_event_key, is_scenario,
  check_version, require,
}
use esafe.Demo.Commands.{
  Ask, once, assign, halted, begin, start_scenario, pause_scenario, active_of,
}
use esafe.Demo.Stepping.{Begun, known, begun, next_begin}
use esafe.Demo.Calls.{
  Sys, to_start, to_pause, to_reset, respond, Call, call_command, call_next, call_finish,
  call_signals, after_next, job_at, handle, serve,
}
use esafe.Demo.Effects.{log-effect, active_of-found}
use esafe.Demo.Exhausted.{IsExhausted, assign-IsExhausted, begin-IsExhausted}

once-cases {ℓ} :
    {A : Type ℓ} (key : String) (wrap : Answer → A) (db db' : Demo)
    (m : Outcome DemoError (Demo × A)) (out : A)
    → once key wrap db m ≡ ok (db', out)
    → ((db ≡ db') × ((a : Answer) × (wrap a ≡ out))) ⊎ (m ≡ ok (db', out))
unfolding once
once-cases key wrap db db' m out h = elim (Option-cases (select (has_event_key key) db.events)) [
  | inl e ↦ inr (ground arith)
  | inr (event, e) ↦ inl (ground arith, (event.result, ground arith))
]

abbrev pub Exhausted : ℕ → Demo → Type 0
Exhausted id db = IsExhausted id db.scenarios db.playbacks

start_scenario-Exhausted :
    (id : ℕ) (ask : Ask) (expected : Option ℕ) (db db' : Demo) (out : Answer)
    → start_scenario ask expected db ≡ ok (db', out)
    → Exhausted id db
    → Exhausted id db'
unfolding start_scenario
start_scenario-Exhausted id ask expected db db' out h s =
    elim (once-cases ask.idempotency_key (λ a. a) db db' _ out h) [
      | inl (same, a) ↦ subst (Exhausted id) same s
      | inr e ↦
          let (t, found, e1) =
            bind-ok (require (select (is_scenario ask.scenario_id) db.scenarios) _) _ e in
          let ((rows, row), opened, e2) =
            bind-ok (begin ask expected db.simulated (select is_live db.playbacks) db.playbacks) _
              e1 in
          let (scenarios, playbacks) =
            log-effect ask start none _ row.demo_playback_id (record db { playbacks = rows }) db'
              out e2 in
          rw (scenarios, playbacks)
            (begin-IsExhausted id db.scenarios ask expected db.simulated db.playbacks rows row
              opened s)
    ]

pause_scenario-Exhausted :
    (id : ℕ) (ask : Ask) (expected : ℕ) (db db' : Demo) (out : Answer)
    → pause_scenario ask expected db ≡ ok (db', out)
    → Exhausted id db
    → Exhausted id db'
unfolding pause_scenario
pause_scenario-Exhausted id ask expected db db' out h s =
    elim (once-cases ask.idempotency_key (λ a. a) db db' _ out h) [
      | inl (same, a) ↦ subst (Exhausted id) same s
      | inr e ↦
          let (t, found, e1) =
            bind-ok (require (select (is_scenario ask.scenario_id) db.scenarios) _) _ e in
          let (active, there, e2) = bind-ok (active_of ask.scenario_id db.playbacks) _ e1 in
          let (u, versioned, e3) = bind-ok (check_version active.version (some expected)) _ e2 in
          let (going, e4) = raise_if-ok (not (is_running active.status)) _ _ e3 in
          let ((rows, row), halting, e5) =
            bind-ok (assign active (halted ask.now) db.playbacks) _ e4 in
          let (scenarios, playbacks) =
            log-effect ask pause none _ row.demo_playback_id (record db { playbacks = rows }) db'
              out e5 in
          rw (scenarios, playbacks)
            (assign-IsExhausted id db.scenarios active (halted ask.now) db.playbacks rows row
              (unfold halted in λ v. refl) (unfold halted in refl) (unfold halted in refl)
              (unfold halted in refl) (active_of-found ask.scenario_id db.playbacks active there).0
              halting s)
    ]

-- Every NEXT is refused, or repeats an answer.
next_begin_refused :
    (id : ℕ) (ask : Ask) (expected : ℕ) (db db' : Demo) (out : Begun)
    → next_begin ask expected db ≡ ok (db', out)
    → Exhausted id db
    → (db ≡ db') × ((a : Answer) × (known a ≡ out))
unfolding next_begin
next_begin_refused id ask expected db db' out h s =
    elim (once-cases ask.idempotency_key known db db' _ out h) [
      | inl repeated ↦ repeated
      | inr e ↦
          let (t, found, e1) =
            bind-ok (require (select (is_scenario ask.scenario_id) db.scenarios) _) _ e in
          let (active, there, e2) = bind-ok (active_of ask.scenario_id db.playbacks) _ e1 in
          let (u, versioned, e3) = bind-ok (check_version active.version (some expected)) _ e2 in
          let (going, e4) = raise_if-ok (not (is_running active.status)) _ _ e3 in
          let (room, e5) = raise_if-ok (ltb t.step_count (active.current_step + 1)) _ _ e4 in
          let (live, belongs) = active_of-found ask.scenario_id db.playbacks active there in
          let this : s.playback ≡ active = ground (arith, s.live) in
          let chosen : select (is_scenario ask.scenario_id) db.scenarios ≡ some t =
            elim (Option-cases (select (is_scenario ask.scenario_id) db.scenarios)) [
              | inl n ↦ ground arith
              | inr (v, f) ↦ ground arith
            ] in
          let last : t.step_count ≤ active.current_step =
            subst (λ q. t.step_count ≤ q.current_step) this
              (s.over t (
                subst (λ n. select (is_scenario n) db.scenarios ≡ some t)
                  (sym belongs ∙ ap (λ q. q.demo_scenario_id) (sym this)) chosen)) in
          absurd (ground arith)
    ]

abbrev pub Idle : ℕ → Sys → Type 0
Idle id sys = Exhausted id sys.demo × (sys.jobs ≡ [])

abbrev pub is_reset : Call → Bool
is_reset (call_command ask (to_reset expected active confirmed)) = true
is_reset _ = false

after_next-Idle :
    (id : ℕ) (sys : Sys) (ask : Ask) (expected : ℕ)
    → Idle id sys
    → Idle id (after_next sys (next_begin ask expected sys.demo))
after_next-Idle id sys ask expected (s, none_left) =
    elim (Outcome-cases (next_begin ask expected sys.demo)) [
      | inr (x, e) ↦ rw e (s, none_left)
      | inl ((db', known a), e) ↦ rw e (
        subst (Exhausted id) (next_begin_refused id ask expected sys.demo db' (known a) e s).0 s,
        none_left,
      )
      | inl ((db', begun j), e) ↦ absurd (
          let (same, (a, bad)) = next_begin_refused id ask expected sys.demo db' (begun j) e s in
          cc)
    ]

handle-Idle :
    (id : ℕ) (c : Call) (sys : Sys) → is_reset c ≡ false → Idle id sys → Idle id (handle c sys)
unfolding handle respond job_at
handle-Idle id (call_command ask (to_start expected)) sys h (s, j) = (
  commit-keeps (Exhausted id) sys.demo (start_scenario ask expected sys.demo) s
      λ db' out e. start_scenario-Exhausted id ask expected sys.demo db' out e s,
  j,
)
handle-Idle id (call_command ask (to_pause expected)) sys h (s, j) = (
  commit-keeps (Exhausted id) sys.demo (pause_scenario ask expected sys.demo) s
      λ db' out e. pause_scenario-Exhausted id ask expected sys.demo db' out e s,
  j,
)
handle-Idle id (call_command ask (to_reset expected active confirmed)) sys h i = cc
handle-Idle id (call_next ask expected) sys h i = after_next-Idle id sys ask expected i
handle-Idle id (call_finish n now error) sys h (s, j) = rw j (s, refl)
handle-Idle id (call_signals left) sys h (s, j) = (
  record {
    keys = s.keys;
    playback = s.playback;
    live = s.live;
    same = s.same;
    moving = s.moving;
    over = s.over;
  },
  j,
)

-- A live playback that has counted the last step of its scenario, with no step under way (as a last
-- step that failed leaves it), stays live whatever starts, pauses and steps follow: without a reset
-- it is never completed.
pub serve-Idle :
    (id : ℕ) (calls : List Call) (sys : Sys)
    → All (λ c. is_reset c ≡ false) calls
    → Idle id sys
    → Idle id (serve calls sys)
unfolding serve
serve-Idle id [] sys h i = i
serve-Idle id (c ∷ cs) sys h i = serve-Idle id cs (handle c sys) h.1 (handle-Idle id c sys h.0 i)
