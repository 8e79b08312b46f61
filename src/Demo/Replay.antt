-- ===== src/Demo/Replay.antt =====
-- backend/app/demo/playback.py: a command that is repeated with its key.
use esafe.Prelude.{
  ℕ, String, Bool, true, false, not, ◌≡◌, refl, ap, ◌∙◌, subst, sym, Option, none, some, List, [],
  ◌∷◌, ◌++◌, arith, ok, inl, inr, Bool-cases, Outcome, select, exists, raise_if-ok, bind-ok,
  str_eq_iff,
}
use esafe.Demo.Rows.{
  Command, start, pause, reset, Answer, reset_reply, PlaybackEvent, Demo, DemoError, is_live,
  is_running, has_event_key, is_scenario, check_version, insert_event, insert_audit, require,
}
use esafe.Demo.Commands.{
  Ask, once, log, assign, halted, begin, start_scenario, pause_scenario, active_of,
}
use esafe.Demo.Resetting.{
  reset_scenario, with_files, removed_rows, replace, rewind, target_of, check_known, check_active,
}
use esafe.Demo.Calls.{Request, to_start, to_pause, to_reset, respond, Call, Sys, serve}
use esafe.Demo.Serving.{serve-answers}

-- An event of this key recorded this answer.
abbrev pub Answered : String → Answer → Demo → Type 0
Answered key answer db =
    (e : PlaybackEvent) × (select (has_event_key key) db.events ≡ some e) × (e.result ≡ answer)

select_new {ℓ} :
    {A : Type ℓ} (p : A → Bool) (xs : List A) (x : A)
    → exists p xs ≡ false
    → p x ≡ true
    → select p (xs ++ x ∷ []) ≡ some x
unfolding exists select
select_new p [] x h y = rw y refl
select_new p (a ∷ xs) x h y = elim (Bool-cases (p a)) [
  | inl t ↦ ground arith
  | inr n ↦ rw n (select_new p xs x (ground arith) y)
]

pub insert_event-found :
    (e : PlaybackEvent) (es out : List PlaybackEvent)
    → insert_event e es ≡ ok out
    → select (has_event_key e.idempotency_key) out ≡ some e
unfolding insert_event
insert_event-found e es out h =
    let fresh : exists (has_event_key e.idempotency_key) es ≡ false = ground arith in
    let same : es ++ e ∷ [] ≡ out = ground arith in
    subst (λ o. select (has_event_key e.idempotency_key) o ≡ some e) same
      (select_new (has_event_key e.idempotency_key) es e fresh
        (ground (arith, str_eq_iff e.idempotency_key e.idempotency_key)))

log-answer :
    (ask : Ask) (command : Command) (at : Option ℕ) (answer : Answer) (id : ℕ) (db db' : Demo)
    (out : Answer)
    → log ask command at answer id db ≡ ok (db', out)
    → out ≡ answer
unfolding log
log-answer ask command at answer id db db' out h =
    let (events, e1, h1) = bind-ok (insert_event _ db.events) _ h in
    let (audits, e2, h2) =
      bind-ok (insert_audit ask.actor_user_id command id ask.idempotency_key db.audits) _ h1 in
    ground arith

pub log-Answered :
    (ask : Ask) (command : Command) (at : Option ℕ) (answer : Answer) (id : ℕ) (db db' : Demo)
    (out : Answer)
    → log ask command at answer id db ≡ ok (db', out)
    → Answered ask.idempotency_key out db'
unfolding log
log-Answered ask command at answer id db db' out h =
    let (events, e1, h1) = bind-ok (insert_event _ db.events) _ h in
    let (audits, e2, h2) =
      bind-ok (insert_audit ask.actor_user_id command id ask.idempotency_key db.audits) _ h1 in
    let event : PlaybackEvent = record {
      demo_playback_id = id;
      command = command;
      step_ordinal = at;
      result = answer;
      idempotency_key = ask.idempotency_key;
    } in
    let found = insert_event-found event db.events events e1 in
    let same : events ≡ db'.events = ground arith in
    let said : answer ≡ out = ground arith in
    (
      event,
      subst (λ es. select (has_event_key ask.idempotency_key) es ≡ some event) same found,
      said,
    )

-- What the event of a command recorded of its reply: all but the counts that a reset adds at the end.
abbrev pub recorded : Answer → Answer
recorded (reset_reply removed former count p) =
    reset_reply (record removed { artifact_files = none; redis_keys = none }) former count p
recorded answer = answer

module _ (ask : Ask) (db db' : Demo) (out : Answer)
    (fresh : select (has_event_key ask.idempotency_key) db.events ≡ none) where
  once_new :
      (m : Outcome DemoError (Demo × Answer))
      → once ask.idempotency_key (λ a. a) db m ≡ ok (db', out)
      → m ≡ ok (db', out)
  unfolding once
  once_new m h = ground (arith, fresh)

  logged_new :
      (command : Command) (a : Answer) (id : ℕ) (mid : Demo)
      → recorded a ≡ a
      → log ask command none a id mid ≡ ok (db', out)
      → Answered ask.idempotency_key (recorded out) db'
  logged_new command a id mid same h =
      let said = log-answer ask command none a id mid db' out h in
      subst (λ o. Answered ask.idempotency_key o db') (sym (ap recorded said ∙ same ∙ sym said))
        (log-Answered ask command none a id mid db' out h)

  start_scenario-Answered :
      (expected : Option ℕ)
      → start_scenario ask expected db ≡ ok (db', out)
      → Answered ask.idempotency_key (recorded out) db'
  unfolding start_scenario
  start_scenario-Answered expected h =
      let (s, found, e1) =
        bind-ok (require (select (is_scenario ask.scenario_id) db.scenarios) _) _ (once_new _ h) in
      let ((rows, row), begun, e2) =
        bind-ok (begin ask expected db.simulated (select is_live db.playbacks) db.playbacks) _ e1 in
      logged_new start _ row.demo_playback_id (record db { playbacks = rows }) refl e2

  pause_scenario-Answered :
      (expected : ℕ)
      → pause_scenario ask expected db ≡ ok (db', out)
      → Answered ask.idempotency_key (recorded out) db'
  unfolding pause_scenario
  pause_scenario-Answered expected h =
      let (s, found, e1) =
        bind-ok (require (select (is_scenario ask.scenario_id) db.scenarios) _) _ (once_new _ h) in
      let (active, there, e2) = bind-ok (active_of ask.scenario_id db.playbacks) _ e1 in
      let (u, versioned, e3) = bind-ok (check_version active.version (some expected)) _ e2 in
      let (going, e4) = raise_if-ok (not (is_running active.status)) _ _ e3 in
      let ((rows, row), halting, e5) = bind-ok (assign active (halted ask.now) db.playbacks) _ e4 in
      logged_new pause _ row.demo_playback_id (record db { playbacks = rows }) refl e5

  reset_scenario-Answered :
      (expected active_expected : Option ℕ) (confirmed : Bool)
      → reset_scenario ask expected active_expected confirmed db ≡ ok (db', out)
      → Answered ask.idempotency_key (recorded out) db'
  unfolding reset_scenario with_files removed_rows
  reset_scenario-Answered expected active_expected confirmed h =
      let (sure, h1) = raise_if-ok (not confirmed) _ _ h in
      let (s, found, e1) =
        bind-ok (require (select (is_scenario ask.scenario_id) db.scenarios) _) _ (once_new _ h1) in
      let target = target_of ask.scenario_id (select is_live db.playbacks) db.playbacks in
      let (u, e2, e3) = bind-ok (check_known target expected) _ e1 in
      let (v, e4, e5) =
        bind-ok
          (check_active ask.scenario_id (select is_live db.playbacks) expected active_expected) _
          e3 in
      let ((left, former), gave, e6) =
        bind-ok (replace ask (select is_live db.playbacks) db.playbacks) _ e5 in
      let ((rows, row), wound, e7) = bind-ok (rewind ask target left) _ e6 in
      let wiped : Demo = record db { playbacks = rows; simulated = false } in
      let data' : Answer = reset_reply (removed_rows ask) former s.step_count row in
      let ((mid, answer), e8, e9) =
        bind-ok (log ask reset none data' row.demo_playback_id wiped) _ e7 in
      let same : mid ≡ db' = ground arith in
      let said : answer ≡ data' =
        log-answer ask reset none data' row.demo_playback_id wiped mid answer e8 in
      let full : with_files ask answer ≡ out = ground arith in
      let kept : answer ≡ recorded out =
        said ∙ ap (λ a. recorded (with_files ask a)) (sym said) ∙ ap recorded full in
      subst (Answered ask.idempotency_key (recorded out)) same (
        subst (λ o. Answered ask.idempotency_key o mid) kept
          (log-Answered ask reset none data' row.demo_playback_id wiped mid answer e8))

  respond-Answered :
      (request : Request)
      → respond ask request db ≡ ok (db', out)
      → Answered ask.idempotency_key (recorded out) db'
  unfolding respond
  respond-Answered (to_start expected) = start_scenario-Answered expected
  respond-Answered (to_pause expected) = pause_scenario-Answered expected
  respond-Answered (to_reset expected active_expected confirmed) =
      reset_scenario-Answered expected active_expected confirmed

once-known :
    (key : String) (db : Demo) (m : Outcome DemoError (Demo × Answer)) (out : Answer)
    → Answered key out db
    → once key (λ a. a) db m ≡ ok (db, out)
unfolding once
once-known key db m out known = let (event, found, said) = known in ground arith

-- The same request, made with a key whose answer is known.
respond-known :
    (ask : Ask) (request : Request) (before db : Demo) (first : Ask) (s : Demo) (out known : Answer)
    → respond first request before ≡ ok (s, out)
    → Answered ask.idempotency_key known db
    → respond ask request db ≡ ok (db, known)
unfolding respond start_scenario pause_scenario reset_scenario
respond-known ask (to_start expected) before db first s out a h known =
    once-known ask.idempotency_key db _ a known
respond-known ask (to_pause expected) before db first s out a h known =
    once-known ask.idempotency_key db _ a known
respond-known ask (to_reset expected active_expected true) before db first s out a h known =
    once-known ask.idempotency_key db _ a known
respond-known ask (to_reset expected active_expected false) before db first s out a h known = cc

-- A start, a pause or a reset that was accepted with a key that no event had, repeated with its key by
-- anyone and for any scenario, after any commands, steps and signals, changes nothing and returns what
-- was recorded: the same answer, less the counts of files and keys that the reply of a reset had.
pub respond_replay :
    (ask again : Ask) (request : Request) (calls : List Call) (sys : Sys) (db : Demo) (out : Answer)
    → select (has_event_key ask.idempotency_key) db.events ≡ none
    → respond ask request db ≡ ok (sys.demo, out)
    → again.idempotency_key ≡ ask.idempotency_key
    → respond again request (serve calls sys).demo ≡ ok ((serve calls sys).demo, recorded out)
respond_replay ask again request calls sys db out fresh h same =
    let (e, found, said) = respond-Answered ask db sys.demo out fresh request h in
    let later = serve-answers calls sys ask.idempotency_key e found in
    respond-known again request db (serve calls sys).demo ask sys.demo out (recorded out) h (
      subst (λ key. Answered key (recorded out) (serve calls sys).demo) (sym same) (e, later, said))
