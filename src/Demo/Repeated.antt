-- ===== src/Demo/Repeated.antt =====
-- backend/app/demo/playback.py: a NEXT that is repeated with its key after its step has ended.
use esafe.Prelude.{
  ℕ, String, Bool, true, false, ◌≡◌, subst, sym, Option, none, some, ◌==◌, arith, ok, select,
  bind-ok,
}
use esafe.Demo.Rows.{PlaybackEvent, next, failure, Answer, Demo, has_event_key, insert_event}
use esafe.Demo.Commands.{Ask, once, log}
use esafe.Demo.Stepping.{
  Job, known, next_begin, next_finish, finish_failed, finish_passed, assign_current, suspended,
  passed, completion,
}
use esafe.Demo.Effects.{insert_event-keeps}
use esafe.Demo.Replay.{Answered, log-Answered, insert_event-found}

finish_failed-Answered :
    (now : ℕ) (error : String) (job : Job) (db db' : Demo) (out : Answer)
    → finish_failed now error job db ≡ ok (db', out)
    → Answered job.ask.idempotency_key out db'
unfolding finish_failed
finish_failed-Answered now error job db db' out h =
    let ((rows, row), written, e1) =
      bind-ok (assign_current job.reserved.demo_playback_id (suspended now) db.playbacks) _ h in
    let event : PlaybackEvent = record {
      demo_playback_id = job.reserved.demo_playback_id;
      command = next;
      step_ordinal = some job.ordinal;
      result = failure error;
      idempotency_key = job.ask.idempotency_key;
    } in
    let (events, e2, e3) = bind-ok (insert_event event db.events) _ e1 in
    let same : events ≡ db'.events = ground arith in
    let said : failure error ≡ out = ground arith in
    (
      event,
      subst (λ es. select (has_event_key job.ask.idempotency_key) es ≡ some event) same
          (insert_event-found event db.events events e2),
      said,
    )

completion-Answered :
    (is_last : Bool) (job : Job) (answer : Answer) (key : String) (out : Answer) (db db' : Demo)
    → completion is_last job answer db ≡ ok db'
    → Answered key out db
    → Answered key out db'
completion-Answered false job answer key out db db' h a =
    let same : db ≡ db' = ground arith in subst (Answered key out) same a
completion-Answered true job answer key out db db' h (e, found, said) =
    let (events, e1, e2) = bind-ok (insert_event _ db.events) _ h in
    let same : events ≡ db'.events = ground arith in
    (
      e,
      subst (λ es. select (has_event_key key) es ≡ some e) same
          (insert_event-keeps key _ e db.events events e1 found),
      said,
    )

finish_passed-Answered :
    (now : ℕ) (job : Job) (db db' : Demo) (out : Answer)
    → finish_passed now job db ≡ ok (db', out)
    → Answered job.ask.idempotency_key out db'
unfolding finish_passed
finish_passed-Answered now job db db' out h =
    let is_last = job.ordinal == job.step_count in
    let ((rows, row), written, e1) =
      bind-ok (assign_current job.reserved.demo_playback_id (passed is_last now) db.playbacks) _
        h in
    let ((mid, answer), e2, e3) =
      bind-ok
        (log job.ask next (some job.ordinal) _ row.demo_playback_id
          (record db { playbacks = rows }))
        _ e1 in
    let (last, e4, e5) = bind-ok (completion is_last job _ mid) _ e3 in
    let a = completion-Answered is_last job _ job.ask.idempotency_key answer mid last e4 (
      log-Answered job.ask next (some job.ordinal) _ row.demo_playback_id
        (record db { playbacks = rows }) mid answer e2) in
    let same : last ≡ db' = ground arith in
    let said : answer ≡ out = ground arith in
    subst (λ o. Answered job.ask.idempotency_key o db') said
      (subst (Answered job.ask.idempotency_key answer) same a)

next_finish-Answered :
    (now : ℕ) (error : Option String) (job : Job) (db db' : Demo) (out : Answer)
    → next_finish now error job db ≡ ok (db', out)
    → Answered job.ask.idempotency_key out db'
unfolding next_finish
next_finish-Answered now (some error) job = finish_failed-Answered now error job
next_finish-Answered now none job = finish_passed-Answered now job

next_known :
    (ask : Ask) (expected : ℕ) (db : Demo) (out : Answer)
    → Answered ask.idempotency_key out db
    → next_begin ask expected db ≡ ok (db, known out)
unfolding next_begin once
next_known ask expected db out answered = let (event, found, said) = answered in ground arith

-- Once the end of a step is on record, whether the step passed or failed, a NEXT with the same key, by
-- anyone, for any scenario and any expected version, counts no step: it returns the recorded answer and
-- changes nothing.
pub next_replay :
    (now : ℕ) (error : Option String) (job : Job) (db db' : Demo) (out : Answer) (again : Ask)
    (expected : ℕ)
    → next_finish now error job db ≡ ok (db', out)
    → again.idempotency_key ≡ job.ask.idempotency_key
    → next_begin again expected db' ≡ ok (db', known out)
next_replay now error job db db' out again expected h same = next_known again expected db' out (
    subst (λ key. Answered key out db') (sym same)
      (next_finish-Answered now error job db db' out h))
