-- ===== src/Demo/Effects.antt =====
-- backend/app/demo/playback.py: every command keeps the playbacks sound.
use esafe.Prelude.{
  ℕ, ◌+◌, String, Bool, not, ◌≡◌, refl, subst, sym, Option, none, some, List, [], ◌∷◌, ◌++◌,
  select-append, arith, ok, inl, inr, Bool-cases, Option-cases, Outcome, Outcome-cases, select,
  raise_if-ok, bind-ok, ◌∙◌,
}
use esafe.Demo.Rows.{
  Playback, Scenario, Command, start, pause, Answer, require, Demo, DemoError, is_live, is_running,
  has_event_key, PlaybackEvent, insert_event, is_scenario, check_version, insert_audit,
  last_generation,
}
use esafe.Demo.Commands.{
  Ask, once, log, assign, resume, begin, resumed, dropped, halted, replaced, rewound, new_running,
  new_ready, start_scenario, pause_scenario, active_of, is_for,
}
use esafe.Demo.Resetting.{replace, rewind}
use esafe.Demo.Sound.{Sound, assign-Sound, insert-Sound}

-- A command keeps the scenarios, the playbacks sound, and what an event has recorded for its key.
pub record Keeps (db db' : Demo) : Type 0 where
  pub scenarios : db'.scenarios ≡ db.scenarios
  pub sound : Sound db.scenarios db.playbacks → Sound db.scenarios db'.playbacks
  pub answers :
      (key : String) (e : PlaybackEvent)
      → select (has_event_key key) db.events ≡ some e
      → select (has_event_key key) db'.events ≡ some e

pub same-Keeps : (db : Demo) → Keeps db db
same-Keeps db = record { scenarios = refl; sound = λ s. s; answers = λ key e found. found }

pub insert_event-keeps :
    (key : String) (new e : PlaybackEvent) (es out : List PlaybackEvent)
    → insert_event new es ≡ ok out
    → select (has_event_key key) es ≡ some e
    → select (has_event_key key) out ≡ some e
unfolding insert_event
insert_event-keeps key new e es out h found =
    let same : es ++ new ∷ [] ≡ out = ground arith in
    subst (λ es. select (has_event_key key) es ≡ some e) same
      (select-append (has_event_key key) es (new ∷ []) e found)

log-keeps :
    (ask : Ask) (command : Command) (at : Option ℕ) (answer : Answer) (id : ℕ) (db db' : Demo)
    (out : Answer) (key : String) (e : PlaybackEvent)
    → log ask command at answer id db ≡ ok (db', out)
    → select (has_event_key key) db.events ≡ some e
    → select (has_event_key key) db'.events ≡ some e
unfolding log
log-keeps ask command at answer id db db' out key e h found =
    let (events, e1, h1) = bind-ok (insert_event _ db.events) _ h in
    let (audits, e2, h2) =
      bind-ok (insert_audit ask.actor_user_id command id ask.idempotency_key db.audits) _ h1 in
    let same : events ≡ db'.events = ground arith in
    subst (λ es. select (has_event_key key) es ≡ some e) same
      (insert_event-keeps key _ e db.events events e1 found)

pub log-effect :
    (ask : Ask) (command : Command) (at : Option ℕ) (answer : Answer) (id : ℕ) (db db' : Demo)
    (out : Answer)
    → log ask command at answer id db ≡ ok (db', out)
    → (db'.scenarios ≡ db.scenarios) × (db'.playbacks ≡ db.playbacks)
unfolding log
log-effect ask command at answer id db db' out h =
    elim (Outcome-cases (insert_audit ask.actor_user_id command id ask.idempotency_key db.audits)) [
      | inl (audits, e) ↦ ground arith
      | inr (x, e) ↦ ground arith
    ]

-- A key that was used changes nothing.
pub once-Keeps {ℓ} :
    {A : Type ℓ} (key : String) (wrap : Answer → A) (db db' : Demo)
    (m : Outcome DemoError (Demo × A)) (out : A)
    → once key wrap db m ≡ ok (db', out)
    → (m ≡ ok (db', out) → Keeps db db')
    → Keeps db db'
unfolding once
once-Keeps key wrap db db' m out h k = elim (Option-cases (select (has_event_key key) db.events)) [
  | inl e ↦ k (ground arith)
  | inr (event, e) ↦ let same : db ≡ db' = ground arith in subst (Keeps db) same (same-Keeps db)
]

resume-Sound :
    (scenarios : List Scenario) (ask : Ask) (expected : Option ℕ) (simulated : Bool)
    (active : Option Playback) (ps rows : List Playback) (row : Playback)
    → resume ask expected simulated active ps ≡ ok (rows, row)
    → Sound scenarios ps
    → Sound scenarios rows
unfolding resume
resume-Sound scenarios ask expected simulated (some active) ps rows row h =
    assign-Sound scenarios active (resumed ask.now) ps rows row (unfold resumed in λ v. refl)
      (unfold resumed in λ v b. b) (ground arith)
resume-Sound scenarios ask expected simulated none ps rows row h =
    insert-Sound scenarios (new_running ask (last_generation ask.scenario_id ps + 1)) ps rows row
      (unfold new_running in refl) (ground arith)

begin-Sound :
    (scenarios : List Scenario) (ask : Ask) (expected : Option ℕ) (simulated : Bool)
    (active : Option Playback) (ps rows : List Playback) (row : Playback)
    → begin ask expected simulated active ps ≡ ok (rows, row)
    → Sound scenarios ps
    → Sound scenarios rows
unfolding begin
begin-Sound scenarios ask expected simulated none ps rows row h s =
    resume-Sound scenarios ask expected simulated none ps rows row h s
begin-Sound scenarios ask expected simulated (some active) ps rows row h s =
    elim (Bool-cases (is_for ask.scenario_id active)) [
      | inl y ↦
          resume-Sound scenarios ask expected simulated (some active) ps rows row (ground arith) s
      | inr n ↦ elim (Outcome-cases (assign active (dropped ask.now) ps)) [
        | inr (x, e) ↦ ground arith
        | inl ((left, p), e) ↦
            resume-Sound scenarios ask expected simulated none left rows row (ground arith) (
              assign-Sound scenarios active (dropped ask.now) ps left p
                (unfold dropped in λ v. refl) (unfold dropped in λ v b. b) e s)
      ]
    ]

pub replace-Sound :
    (scenarios : List Scenario) (ask : Ask) (active : Option Playback) (ps rows : List Playback)
    (former : Option ℕ)
    → replace ask active ps ≡ ok (rows, former)
    → Sound scenarios ps
    → Sound scenarios rows
unfolding replace
replace-Sound scenarios ask none ps rows former h s =
    let same : ps ≡ rows = ground arith in subst (Sound scenarios) same s
replace-Sound scenarios ask (some active) ps rows former h s =
    elim (Bool-cases (is_for ask.scenario_id active)) [
      | inl y ↦ let same : ps ≡ rows = ground arith in subst (Sound scenarios) same s
      | inr n ↦ elim (Outcome-cases (assign active (replaced ask.now) ps)) [
        | inr (x, e) ↦ ground arith
        | inl ((left, p), e) ↦
            let same : left ≡ rows = ground arith in
            subst (Sound scenarios) same (
              assign-Sound scenarios active (replaced ask.now) ps left p
                (unfold replaced in λ v. refl) (unfold replaced in λ v b. b) e s)
      ]
    ]

pub rewind-Sound :
    (scenarios : List Scenario) (ask : Ask) (target : Option Playback) (ps rows : List Playback)
    (row : Playback)
    → rewind ask target ps ≡ ok (rows, row)
    → Sound scenarios ps
    → Sound scenarios rows
unfolding rewind
rewind-Sound scenarios ask (some p) ps rows row h =
    assign-Sound scenarios p (rewound ask.now) ps rows row (unfold rewound in λ v. refl)
      (unfold rewound in λ v b t e. omega arith) h
rewind-Sound scenarios ask none ps rows row h =
    insert-Sound scenarios (new_ready ask (last_generation ask.scenario_id ps + 1)) ps rows row
      (unfold new_ready in refl) h

-- A log that follows a change of the playbacks.
pub logged :
    (ask : Ask) (command : Command) (at : Option ℕ) (answer : Answer) (id : ℕ) (db mid db' : Demo)
    (out : Answer)
    → mid.scenarios ≡ db.scenarios
    → mid.events ≡ db.events
    → (Sound db.scenarios db.playbacks → Sound db.scenarios mid.playbacks)
    → log ask command at answer id mid ≡ ok (db', out)
    → Keeps db db'
logged ask command at answer id db mid db' out same log_same sound h =
    let (scenarios, playbacks) = log-effect ask command at answer id mid db' out h in
    record {
      scenarios = scenarios ∙ same;
      sound = λ s. subst (Sound db.scenarios) (sym playbacks) (sound s);
      answers = λ key e found.
          log-keeps ask command at answer id mid db' out key e h
            (subst (λ es. select (has_event_key key) es ≡ some e) (sym log_same) found);
    }

pub start_scenario-Keeps :
    (ask : Ask) (expected : Option ℕ) (db db' : Demo) (out : Answer)
    → start_scenario ask expected db ≡ ok (db', out)
    → Keeps db db'
unfolding start_scenario
start_scenario-Keeps ask expected db db' out h =
    once-Keeps ask.idempotency_key (λ a. a) db db' _ out h
      λ e.
        let (s, found, e1) =
          bind-ok (require (select (is_scenario ask.scenario_id) db.scenarios) _) _ e in
        let ((rows, row), begun, e2) =
          bind-ok (begin ask expected db.simulated _ db.playbacks) _ e1 in
        logged ask start none _ row.demo_playback_id db (record db { playbacks = rows }) db' out
          refl refl
          (begin-Sound db.scenarios ask expected db.simulated _ db.playbacks rows row begun) e2

pub active_of-found :
    (id : ℕ) (ps : List Playback) (p : Playback)
    → active_of id ps ≡ ok p
    → (select is_live ps ≡ some p) × (p.demo_scenario_id ≡ id)
unfolding active_of
active_of-found id ps p h = elim (Option-cases (select is_live ps)) [
  | inl e ↦ ground arith
  | inr (q, e) ↦ ground arith
]

pub pause_scenario-Keeps :
    (ask : Ask) (expected : ℕ) (db db' : Demo) (out : Answer)
    → pause_scenario ask expected db ≡ ok (db', out)
    → Keeps db db'
unfolding pause_scenario
pause_scenario-Keeps ask expected db db' out h =
    once-Keeps ask.idempotency_key (λ a. a) db db' _ out h
      λ e.
        let (s, found, e1) =
          bind-ok (require (select (is_scenario ask.scenario_id) db.scenarios) _) _ e in
        let (active, there, e2) = bind-ok (active_of ask.scenario_id db.playbacks) _ e1 in
        let (u, versioned, e3) = bind-ok (check_version active.version (some expected)) _ e2 in
        let (going, e4) = raise_if-ok (not (is_running active.status)) _ _ e3 in
        let ((rows, row), halting, e5) =
          bind-ok (assign active (halted ask.now) db.playbacks) _ e4 in
        logged ask pause none _ row.demo_playback_id db (record db { playbacks = rows }) db' out
          refl refl
          (assign-Sound db.scenarios active (halted ask.now) db.playbacks rows row
            (unfold halted in λ v. refl) (unfold halted in λ v b. b) halting)
          e5
