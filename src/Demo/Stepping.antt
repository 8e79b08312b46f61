-- ===== src/Demo/Stepping.antt =====
-- backend/app/demo/playback.py: `next_scenario_step`, in two transactions with the work of the step
-- between them. The first counts the step; the second, which other commands may precede, records how
-- the step went.
use esafe.Prelude.{
  ℕ, ◌+◌, String, Bool, true, false, not, Option, none, some, List, ltb, ◌==◌, concat, select,
  Outcome, ok, ◌>>=◌, ◌>>◌, raise_if,
}
use esafe.Demo.Rows.{
  Playback, paused, completed, next, complete, Answer, reply, failure, Demo, DemoError,
  scenario_not_found, row_missing, not_running, playback_complete, require, is_running,
  has_playback_id, insert_event, is_scenario, check_version,
}
use esafe.Demo.Commands.{Ask, once, log, assign, active_of}

unfoldable pub stepped : ℕ → ℕ → Playback → Playback
stepped ordinal now p = record p {
  current_step = ordinal;
  version = p.version + 1;
  updated_at = now;
}

-- A step that was counted and is not finished.
pub record Job : Type 0 where
  pub ask : Ask
  pub reserved : Playback
  pub ordinal : ℕ
  pub step_count : ℕ

pub data Begun : Type 0 where
  known : Answer → Begun
  begun : Job → Begun

unfoldable pub next_begin : Ask → ℕ → Demo → Outcome DemoError (Demo × Begun)
unfolding stepped
next_begin ask expected db = once ask.idempotency_key known db (do
  s ← require (select (is_scenario ask.scenario_id) db.scenarios) scenario_not_found
  active ← active_of ask.scenario_id db.playbacks
  check_version active.version (some expected)
  raise_if (not (is_running active.status)) not_running
  raise_if (ltb s.step_count (active.current_step + 1)) playback_complete
  (rows, row) ← assign active (stepped (active.current_step + 1) ask.now) db.playbacks
  ok (
    record db { playbacks = rows },
    begun (record {
      ask = ask;
      reserved = row;
      ordinal = active.current_step + 1;
      step_count = s.step_count;
    }),
  ))

unfoldable pub suspended : ℕ → Playback → Playback
suspended now p = record p { status = paused; paused_at = some now; updated_at = now }

-- `complete` holds if the step is the last one.
unfoldable pub passed : Bool → ℕ → Playback → Playback
passed true now p = record p { status = completed; completed_at = some now; updated_at = now }
passed false now p = record p { completed_at = none; updated_at = now }

-- UPDATE … WHERE demo_playback_id = :id RETURNING *: the row as it is by now.
unfoldable pub assign_current :
    ℕ → (Playback → Playback) → List Playback → Outcome DemoError (List Playback × Playback)
assign_current id f ps = do
  row ← require (select (has_playback_id id) ps) row_missing
  assign row f ps

unfoldable pub finish_failed : ℕ → String → Job → Demo → Outcome DemoError (Demo × Answer)
unfolding suspended
finish_failed now error job db = do
  (rows, row) ← assign_current job.reserved.demo_playback_id (suspended now) db.playbacks
  events ←
      insert_event
        (record {
          demo_playback_id = job.reserved.demo_playback_id;
          command = next;
          step_ordinal = some job.ordinal;
          result = failure error;
          idempotency_key = job.ask.idempotency_key;
        })
        db.events
  ok (record db { playbacks = rows; events = events }, failure error)

-- The event COMPLETE follows the event NEXT of the last step.
abbrev pub completion : Bool → Job → Answer → Demo → Outcome DemoError Demo
completion false job answer db = ok db
completion true job answer db = do
  events ←
      insert_event
        (record {
          demo_playback_id = job.reserved.demo_playback_id;
          command = complete;
          step_ordinal = some job.ordinal;
          result = answer;
          idempotency_key = concat job.ask.idempotency_key ":complete";
        })
        db.events
  ok (record db { events = events })

unfoldable pub finish_passed : ℕ → Job → Demo → Outcome DemoError (Demo × Answer)
finish_passed now job db = do
  let is_last = job.ordinal == job.step_count
  (rows, row) ← assign_current job.reserved.demo_playback_id (passed is_last now) db.playbacks
  let answer = reply next (some job.ordinal) none job.step_count row
  (db', out) ←
      log job.ask next (some job.ordinal) answer row.demo_playback_id
        (record db { playbacks = rows })
  db'' ← completion is_last job answer db'
  ok (db'', out)

-- What the work of a step came to: an error of some class, or none.
unfoldable pub next_finish : ℕ → Option String → Job → Demo → Outcome DemoError (Demo × Answer)
next_finish now (some error) job db = finish_failed now error job db
next_finish now none job db = finish_passed now job db
