-- ===== src/Demo/Commands.antt =====
-- backend/app/demo/playback.py: `start_scenario` and `pause_scenario`. A command is one transaction.
use esafe.Prelude.{
  ℕ, ◌+◌, String, Bool, ◌&&◌, not, Option, none, some, List, ◌==◌, if◌then◌else◌, select, update,
  Outcome, ok, ◌>>=◌, ◌>>◌, raise_if,
}
use esafe.Demo.Rows.{
  Playback, ready, running, paused, completed, Command, start, pause, Answer, reply, Demo,
  DemoError, scenario_not_found, playback_active, already_running, reset_required, not_active,
  not_running, require, is_live, is_running, is_ready, has_playback_id, write_playbacks,
  insert_playback, has_event_key, insert_event, insert_audit, is_scenario, check_version,
  last_generation,
}

-- What the deletions of a reset find: rows by table, files, and keys in Redis.
pub record Cleared : Type 0 where
  pub rows : List (String × ℕ)
  pub artifact_files : ℕ
  pub redis_keys : ℕ

-- Who asks, when, for which scenario, a fresh UUID, and what there is to clear if it is a reset.
pub record Ask : Type 0 where
  pub scenario_id : ℕ
  pub actor_user_id : ℕ
  pub idempotency_key : String
  pub now : ℕ
  pub uuid : ℕ
  pub cleared : Cleared

-- `_replay`: a key that an event has returns what the event recorded.
unfoldable pub once {ℓ} :
    {A : Type ℓ}
    → String
    → (Answer → A)
    → Demo
    → Outcome DemoError (Demo × A)
    → Outcome DemoError (Demo × A)
once key wrap db run = elim (select (has_event_key key) db.events) [
  | some e ↦ ok (db, wrap e.result)
  | none ↦ run
]

-- The event and the audit event at the end of a command.
unfoldable pub log :
    Ask → Command → Option ℕ → Answer → ℕ → Demo → Outcome DemoError (Demo × Answer)
log ask command step answer id db = do
  events ←
      insert_event
        (record {
          demo_playback_id = id;
          command = command;
          step_ordinal = step;
          result = answer;
          idempotency_key = ask.idempotency_key;
        })
        db.events
  audits ← insert_audit ask.actor_user_id command id ask.idempotency_key db.audits
  ok (record db { events = events; audits = audits }, answer)

abbrev pub or_now : Option ℕ → ℕ → Option ℕ
or_now none now = some now
or_now (some t) now = some t

-- What the UPDATE statements assign.
unfoldable pub dropped : ℕ → Playback → Playback
dropped now p = record p {
  status = completed;
  started_at = some now;
  completed_at = some now;
  updated_at = now;
}

unfoldable pub resumed : ℕ → Playback → Playback
resumed now p = record p {
  status = running;
  started_at = or_now p.started_at now;
  paused_at = none;
  completed_at = none;
  version = p.version + 1;
  updated_at = now;
}

unfoldable pub halted : ℕ → Playback → Playback
halted now p = record p {
  status = paused;
  paused_at = some now;
  version = p.version + 1;
  updated_at = now;
}

unfoldable pub replaced : ℕ → Playback → Playback
replaced now p = record p {
  status = completed;
  started_at = or_now p.started_at now;
  paused_at = none;
  completed_at = some now;
  version = p.version + 1;
  updated_at = now;
}

unfoldable pub rewound : ℕ → Playback → Playback
rewound now p = record p {
  status = ready;
  current_step = 0;
  generation = p.generation + 1;
  version = p.version + 1;
  started_at = none;
  paused_at = none;
  completed_at = none;
  updated_at = now;
}

unfoldable pub new_running : Ask → ℕ → Playback
new_running ask generation = record {
  demo_playback_id = ask.uuid;
  demo_scenario_id = ask.scenario_id;
  status = running;
  current_step = 0;
  generation = generation;
  version = 1;
  started_at = some ask.now;
  paused_at = none;
  completed_at = none;
  updated_at = ask.now;
}

unfoldable pub new_ready : Ask → ℕ → Playback
new_ready ask generation = record {
  demo_playback_id = ask.uuid;
  demo_scenario_id = ask.scenario_id;
  status = ready;
  current_step = 0;
  generation = generation;
  version = 1;
  started_at = none;
  paused_at = none;
  completed_at = none;
  updated_at = ask.now;
}

-- UPDATE demo_playback … WHERE demo_playback_id = :id RETURNING *
unfoldable pub assign :
    Playback → (Playback → Playback) → List Playback → Outcome DemoError (List Playback × Playback)
assign p f ps = do
  rows ← write_playbacks (update (has_playback_id p.demo_playback_id) f ps)
  ok (rows, f p)

unfoldable pub insert : Playback → List Playback → Outcome DemoError (List Playback × Playback)
insert p ps = do rows ← insert_playback p ps; ok (rows, p)

abbrev pub is_for : ℕ → Playback → Bool
is_for id p = p.demo_scenario_id == id

-- The active playback resumes, or a new one starts.
unfoldable pub resume :
    Ask
    → Option ℕ
    → Bool
    → Option Playback
    → List Playback
    → Outcome DemoError (List Playback × Playback)
unfolding resumed new_running
resume ask expected simulated (some active) ps = do
  check_version active.version expected
  raise_if (is_running active.status) already_running
  assign active (resumed ask.now) ps
resume ask expected simulated none ps = do
  raise_if simulated reset_required
  insert (new_running ask (last_generation ask.scenario_id ps + 1)) ps

-- An active playback of another scenario gives way if it has not begun.
unfoldable pub begin :
    Ask
    → Option ℕ
    → Bool
    → Option Playback
    → List Playback
    → Outcome DemoError (List Playback × Playback)
unfolding dropped
begin ask expected simulated none ps = resume ask expected simulated none ps
begin ask expected simulated (some active) ps =
    if is_for ask.scenario_id active then resume ask expected simulated (some active) ps else do
      raise_if (not (is_ready active.status && active.current_step == 0)) playback_active
      (rows, row) ← assign active (dropped ask.now) ps
      resume ask expected simulated none rows

unfoldable pub start_scenario : Ask → Option ℕ → Demo → Outcome DemoError (Demo × Answer)
start_scenario ask expected db =
    once ask.idempotency_key (λ a. a) db
      (do
        s ← require (select (is_scenario ask.scenario_id) db.scenarios) scenario_not_found
        (rows, row) ← begin ask expected db.simulated (select is_live db.playbacks) db.playbacks
        log ask start none (reply start none none s.step_count row) row.demo_playback_id
            (record db { playbacks = rows }))

-- The active playback, if it belongs to the scenario.
unfoldable pub active_of : ℕ → List Playback → Outcome DemoError Playback
active_of id ps = do
  active ← require (select is_live ps) not_active
  raise_if (not (is_for id active)) not_active
  ok active

unfoldable pub pause_scenario : Ask → ℕ → Demo → Outcome DemoError (Demo × Answer)
unfolding halted
pause_scenario ask expected db =
    once ask.idempotency_key (λ a. a) db
      (do
        s ← require (select (is_scenario ask.scenario_id) db.scenarios) scenario_not_found
        active ← active_of ask.scenario_id db.playbacks
        check_version active.version (some expected)
        raise_if (not (is_running active.status)) not_running
        (rows, row) ← assign active (halted ask.now) db.playbacks
        log ask pause none (reply pause none none s.step_count row) row.demo_playback_id
            (record db { playbacks = rows }))
