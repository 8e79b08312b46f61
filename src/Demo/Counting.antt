-- ===== src/Demo/Counting.antt =====
-- backend/app/demo/playback.py: a step keeps the playbacks sound.
use esafe.Prelude.{
  ℕ, ◌+◌, String, Bool, true, false, not, ◌≡◌, refl, subst, sym, ◌∙◌, some, List, arith, ok, ltb,
  ◌==◌, select, raise_if-ok, bind-ok,
}
use esafe.Demo.Rows.{
  Playback, Scenario, next, Answer, PlaybackEvent, has_event_key, Demo, is_live, is_running,
  has_playback_id, is_scenario, check_version, insert_event, require,
}
use esafe.Demo.Commands.{Ask, log, assign, active_of}
use esafe.Demo.Stepping.{
  Job, Begun, known, next_begin, finish_failed, finish_passed, assign_current, stepped, suspended,
  passed, completion,
}
use esafe.Demo.Sound.{IsBounded, Sound, assign-Sound, assign-Sound_found, select-key}
use esafe.Demo.Effects.{Keeps, insert_event-keeps, once-Keeps, logged, active_of-found}

-- The step that is counted is one that the scenario has.
pub next_begin-Keeps :
    (ask : Ask) (expected : ℕ) (db db' : Demo) (out : Begun)
    → next_begin ask expected db ≡ ok (db', out)
    → Keeps db db'
unfolding next_begin
next_begin-Keeps ask expected db db' out h =
    once-Keeps ask.idempotency_key known db db' _ out h λ e.
      let (s, found, e1) =
        bind-ok (require (select (is_scenario ask.scenario_id) db.scenarios) _) _ e in
      let (active, there, e2) = bind-ok (active_of ask.scenario_id db.playbacks) _ e1 in
      let (u, versioned, e3) = bind-ok (check_version active.version (some expected)) _ e2 in
      let (going, e4) = raise_if-ok (not (is_running active.status)) _ _ e3 in
      let (room, e5) = raise_if-ok (ltb s.step_count (active.current_step + 1)) _ _ e4 in
      let ((rows, row), counted, e6) =
        bind-ok (assign active (stepped (active.current_step + 1) ask.now) db.playbacks) _ e5 in
      let (live, belongs) = active_of-found ask.scenario_id db.playbacks active there in
      let same : record db { playbacks = rows } ≡ db' = ground arith in
      subst (Keeps db) same (record {
        scenarios = refl;
        answers = λ key e found. found;
        sound = λ sound.
            assign-Sound_found db.scenarios active (stepped (active.current_step + 1) ask.now)
              db.playbacks rows row (unfold stepped in λ v. refl)
              (unfold stepped in λ t e. ground arith)
              (select-key is_live db.playbacks active sound.keys live) counted sound;
      })

assign_current-Sound :
    (scenarios : List Scenario) (id : ℕ) (f : Playback → Playback) (ps rows : List Playback)
    (row : Playback)
    → ((v : Playback) → (f v).demo_playback_id ≡ v.demo_playback_id)
    → ((v : Playback) → IsBounded scenarios v → IsBounded scenarios (f v))
    → assign_current id f ps ≡ ok (rows, row)
    → Sound scenarios ps
    → Sound scenarios rows
unfolding assign_current
assign_current-Sound scenarios id f ps rows row same step h =
    let (p, found, assigned) = bind-ok (require (select (has_playback_id id) ps) _) _ h in
    assign-Sound scenarios p f ps rows row same step assigned

pub finish_failed-Keeps :
    (now : ℕ) (error : String) (job : Job) (db db' : Demo) (out : Answer)
    → finish_failed now error job db ≡ ok (db', out)
    → Keeps db db'
unfolding finish_failed
finish_failed-Keeps now error job db db' out h =
    let ((rows, row), written, e1) =
      bind-ok (assign_current job.reserved.demo_playback_id (suspended now) db.playbacks) _ h in
    let (events, e2, e3) = bind-ok (insert_event _ db.events) _ e1 in
    let same : record db { playbacks = rows; events = events } ≡ db' = ground arith in
    subst (Keeps db) same (record {
      scenarios = refl;
      answers = λ key e found. insert_event-keeps key _ e db.events events e2 found;
      sound =
          assign_current-Sound db.scenarios job.reserved.demo_playback_id (suspended now)
            db.playbacks rows row (unfold suspended in λ v. refl) (unfold suspended in λ v b. b)
            written;
    })

passed-id :
    (is_last : Bool) (now : ℕ) (v : Playback)
    → (passed is_last now v).demo_playback_id ≡ v.demo_playback_id
unfolding passed
passed-id true now v = refl
passed-id false now v = refl

passed-IsBounded :
    (scenarios : List Scenario) (is_last : Bool) (now : ℕ) (v : Playback)
    → IsBounded scenarios v
    → IsBounded scenarios (passed is_last now v)
unfolding passed
passed-IsBounded scenarios true now v b = b
passed-IsBounded scenarios false now v b = b

completion-effect :
    (is_last : Bool) (job : Job) (answer : Answer) (db db' : Demo)
    → completion is_last job answer db ≡ ok db'
    → (db'.scenarios ≡ db.scenarios) × (db'.playbacks ≡ db.playbacks)
completion-effect true job answer db db' h =
    let (events, e1, e2) = bind-ok (insert_event _ db.events) _ h in ground arith
completion-effect false job answer db db' h = ground arith

completion-keeps :
    (is_last : Bool) (job : Job) (answer : Answer) (db db' : Demo) (key : String)
    (e : PlaybackEvent)
    → completion is_last job answer db ≡ ok db'
    → select (has_event_key key) db.events ≡ some e
    → select (has_event_key key) db'.events ≡ some e
completion-keeps true job answer db db' key e h found =
    let (events, e1, e2) = bind-ok (insert_event _ db.events) _ h in
    let same : events ≡ db'.events = ground arith in
    subst (λ es. select (has_event_key key) es ≡ some e) same
      (insert_event-keeps key _ e db.events events e1 found)
completion-keeps false job answer db db' key e h found =
    let same : db ≡ db' = ground arith in
    subst (λ s. select (has_event_key key) s.events ≡ some e) same found

pub finish_passed-Keeps :
    (now : ℕ) (job : Job) (db db' : Demo) (out : Answer)
    → finish_passed now job db ≡ ok (db', out)
    → Keeps db db'
unfolding finish_passed
finish_passed-Keeps now job db db' out h =
    let is_last = job.ordinal == job.step_count in
    let ((rows, row), written, e1) =
      bind-ok (assign_current job.reserved.demo_playback_id (passed is_last now) db.playbacks) _
        h in
    let ((mid, answer), e2, e3) =
      bind-ok
        (log job.ask next (some job.ordinal) _ row.demo_playback_id
          (record db { playbacks = rows }))
        _ e1 in
    let (last, e4, e5) = bind-ok (completion is_last job _ mid) _ e3 in
    let (c1, c2) = completion-effect is_last job _ mid last e4 in
    let done =
      logged job.ask next (some job.ordinal) _ row.demo_playback_id db
        (record db { playbacks = rows }) mid answer refl refl
        (assign_current-Sound db.scenarios job.reserved.demo_playback_id (passed is_last now)
          db.playbacks rows row (passed-id is_last now) (passed-IsBounded db.scenarios is_last now)
          written)
        e2 in
    let same : last ≡ db' = ground arith in
    subst (Keeps db) same (record {
      scenarios = c1 ∙ done.scenarios;
      answers = λ key e found.
          completion-keeps is_last job _ mid last key e e4 (done.answers key e found);
      sound = λ s. subst (Sound db.scenarios) (sym c2) (done.sound s);
    })
