-- ===== src/Demo/Rows.antt =====
-- backend/app/demo/playback.py: the tables of the playback with their constraints
-- (backend/alembic/versions/20260729_0013_demo_scenarios.py), and the helpers of the commands.
use esafe.Prelude.{
  ℕ, String, Bool, true, false, ◌&&◌, ◌||◌, not, Option, none, some, List, [], ◌∷◌, ◌++◌, ltb, ◌==◌,
  str_eq, if◌then◌else◌, is_some, text_length, concat, length, exists, filter, Outcome, ok, err,
  ◌>>◌, raise_if,
}

pub data PlaybackStatus : Type 0 where
  ready running paused completed : PlaybackStatus

pub record Playback : Type 0 where
  pub demo_playback_id : ℕ
  pub demo_scenario_id : ℕ
  pub status : PlaybackStatus
  pub current_step : ℕ
  pub generation : ℕ
  pub version : ℕ
  pub started_at : Option ℕ
  pub paused_at : Option ℕ
  pub completed_at : Option ℕ
  pub updated_at : ℕ

-- A scenario with the number of its steps, `len(scenario_steps(code))`.
pub record Scenario : Type 0 where
  pub demo_scenario_id : ℕ
  pub enabled : Bool
  pub step_count : ℕ

pub data Command : Type 0 where
  start pause next reset complete : Command

-- What a reset has removed: the rows of each table, and, which are added to the reply after the
-- transaction, the number of files and of keys in Redis.
pub record Removed : Type 0 where
  pub rows : List (String × ℕ)
  pub artifact_files : Option ℕ
  pub redis_keys : Option ℕ

-- The `result` of an event: the reply of its command, with what a reset has removed, or the class of
-- the error of a step.
pub data Answer : Type 0 where
  reply : Command → Option ℕ → Option ℕ → ℕ → Playback → Answer
  reset_reply : Removed → Option ℕ → ℕ → Playback → Answer
  failure : String → Answer

pub record PlaybackEvent : Type 0 where
  pub demo_playback_id : ℕ
  pub command : Command
  pub step_ordinal : Option ℕ
  pub result : Answer
  pub idempotency_key : String

pub record PlaybackAudit : Type 0 where
  pub actor_user_id : ℕ
  pub command : Command
  pub target_id : ℕ
  pub idempotency_key : String

-- `simulated`: some row of `signal_event` is simulated.
pub record Demo : Type 0 where
  pub scenarios : List Scenario
  pub playbacks : List Playback
  pub events : List PlaybackEvent
  pub audits : List PlaybackAudit
  pub simulated : Bool

-- The refusals of the commands, and a row that the database refuses.
pub data DemoError : Type 0 where
  scenario_not_found version_conflict playback_active already_running reset_required : DemoError
  not_active not_running playback_complete reset_confirmation_required integrity_error row_missing :
      DemoError

abbrev pub require {ℓ} : {A : Type ℓ} → Option A → DemoError → Outcome DemoError A
require none e = err e
require (some a) e = ok a

-- status IN ('READY', 'RUNNING', 'PAUSED')
abbrev pub is_live : Playback → Bool
is_live p = elim p.status [ completed ↦ false | ready ↦ true | running ↦ true | paused ↦ true ]

abbrev pub is_running : PlaybackStatus → Bool
is_running running = true
is_running _ = false

abbrev pub is_ready : PlaybackStatus → Bool
is_ready ready = true
is_ready _ = false

-- ck_demo_playback_dates
abbrev dates : PlaybackStatus → Option ℕ → Option ℕ → Option ℕ → Bool
dates ready from halt till = not (is_some from) && not (is_some halt) && not (is_some till)
dates running from halt till = is_some from && not (is_some halt) && not (is_some till)
dates paused from halt till = is_some from && is_some halt && not (is_some till)
dates completed from halt till = is_some from && is_some till

-- The constraints of a row, ck_demo_playback_numbers among them.
unfoldable pub check_playback : Playback → Bool
check_playback p =
    ltb 0 p.generation && ltb 0 p.version && dates p.status p.started_at p.paused_at p.completed_at

abbrev pub has_playback_id : ℕ → Playback → Bool
has_playback_id id p = p.demo_playback_id == id

-- An INSERT or UPDATE leaves these rows: the CHECK constraints and ux_demo_playback_active.
unfoldable pub write_playbacks : List Playback → Outcome DemoError (List Playback)
write_playbacks ps = do
  raise_if (exists (λ p. not (check_playback p)) ps) integrity_error
  raise_if (ltb 1 (length (filter is_live ps))) integrity_error
  ok ps

unfoldable pub insert_playback : Playback → List Playback → Outcome DemoError (List Playback)
insert_playback p ps = do
  raise_if (exists (has_playback_id p.demo_playback_id) ps) integrity_error
  write_playbacks (ps ++ p ∷ [])

abbrev pub has_event_key : String → PlaybackEvent → Bool
has_event_key key e = str_eq e.idempotency_key key

-- `_event`: the key is unique and has at most 160 characters.
unfoldable pub insert_event :
    PlaybackEvent → List PlaybackEvent → Outcome DemoError (List PlaybackEvent)
insert_event e es = do
  raise_if (ltb 160 (text_length e.idempotency_key)) integrity_error
  raise_if (exists (has_event_key e.idempotency_key) es) integrity_error
  ok (es ++ e ∷ [])

-- `_audit`: so is `audit:demo:` with the key.
unfoldable pub insert_audit :
    ℕ → Command → ℕ → String → List PlaybackAudit → Outcome DemoError (List PlaybackAudit)
insert_audit user command target key audits = do
  let audit_key = concat "audit:demo:" key
  raise_if (ltb 160 (text_length audit_key)) integrity_error
  raise_if (exists (λ a. str_eq a.idempotency_key audit_key) audits) integrity_error
  ok (
      audits
      ++ record {
        actor_user_id = user;
        command = command;
        target_id = target;
        idempotency_key = audit_key;
      }
        ∷ [])

-- `_scenario`
abbrev pub is_scenario : ℕ → Scenario → Bool
is_scenario id s = (s.demo_scenario_id == id) && s.enabled

-- `_version`
unfoldable pub check_version : ℕ → Option ℕ → Outcome DemoError (Unit {0})
check_version actual none = err version_conflict
check_version actual (some expected) = raise_if (not (expected == actual)) version_conflict

-- `_latest`: the last generation of a scenario, and of those the one that changed last.
abbrev later : Playback → Playback → Bool
later p q =
    ltb q.generation p.generation
    || ((p.generation == q.generation) && ltb q.updated_at p.updated_at)

abbrev later_of : Playback → Option Playback → Option Playback
later_of p none = some p
later_of p (some q) = if later q p then some q else some p

unfoldable pub latest : ℕ → List Playback → Option Playback
latest id [] = none
latest id (p ∷ ps) =
    let rest = latest id ps in if p.demo_scenario_id == id then later_of p rest else rest

-- max(generation) of a scenario.
unfoldable pub last_generation : ℕ → List Playback → ℕ
last_generation id [] = 0
last_generation id (p ∷ ps) =
    let rest = last_generation id ps in
    if (p.demo_scenario_id == id) && ltb rest p.generation then p.generation else rest
