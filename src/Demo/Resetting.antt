-- ===== src/Demo/Resetting.antt =====
-- backend/app/demo/playback.py: `reset_scenario`, one transaction. The deletion of the simulated data
-- (`_reset_rows`), of files and of queued tasks is seen in `simulated` and in the counts of the reply;
-- the removal of files and keys, after the transaction, is taken not to fail.
use esafe.Prelude.{
  ℕ, ◌+◌, Bool, true, false, not, Option, none, some, List, if◌then◌else◌, select, Outcome, ok, err,
  ◌>>=◌, ◌>>◌, raise_if,
}
use esafe.Demo.Rows.{
  Playback, reset, Removed, Answer, reset_reply, Demo, DemoError, scenario_not_found,
  reset_confirmation_required, version_conflict, require, is_live, is_scenario, check_version,
  latest, last_generation,
}
use esafe.Demo.Commands.{Ask, assign, insert, is_for, log, new_ready, once, replaced, rewound}

-- The versions that a reset checks: of the playback that it rewinds, and of the active one.
abbrev pub check_known : Option Playback → Option ℕ → Outcome DemoError (Unit {0})
check_known (some p) expected = check_version p.version expected
check_known none none = ok tt
check_known none (some v) = err version_conflict

abbrev expected_active : Bool → Option ℕ → Option ℕ → Option ℕ
expected_active true expected none = expected
expected_active _ expected active_expected = active_expected

-- The playback of the scenario: the active one, or else its latest.
abbrev pub target_of : ℕ → Option Playback → List Playback → Option Playback
target_of id none ps = latest id ps
target_of id (some p) ps = if is_for id p then some p else latest id ps

abbrev pub check_active : ℕ → Option Playback → Option ℕ → Option ℕ → Outcome DemoError (Unit {0})
check_active id none expected active_expected = ok tt
check_active id (some p) expected active_expected =
    check_version p.version (expected_active (is_for id p) expected active_expected)

-- An active playback of another scenario is completed.
unfoldable pub replace :
    Ask → Option Playback → List Playback → Outcome DemoError (List Playback × Option ℕ)
unfolding replaced
replace ask none ps = ok (ps, none)
replace ask (some active) ps = if is_for ask.scenario_id active then ok (ps, none) else do
  (rows, row) ← assign active (replaced ask.now) ps
  ok (rows, some active.demo_scenario_id)

unfoldable pub rewind :
    Ask → Option Playback → List Playback → Outcome DemoError (List Playback × Playback)
unfolding rewound new_ready
rewind ask (some p) ps = assign p (rewound ask.now) ps
rewind ask none ps = insert (new_ready ask (last_generation ask.scenario_id ps + 1)) ps

-- `data["removed"]` as the event records it.
unfoldable pub removed_rows : Ask → Removed
removed_rows ask = record { rows = ask.cleared.rows; artifact_files = none; redis_keys = none }

-- The counts that are set after the transaction.
unfoldable pub with_files : Ask → Answer → Answer
with_files ask (reset_reply removed former count p) =
    reset_reply
      (record removed {
        artifact_files = some ask.cleared.artifact_files;
        redis_keys = some ask.cleared.redis_keys;
      })
      former count p
with_files ask answer = answer

unfoldable pub reset_scenario :
    Ask → Option ℕ → Option ℕ → Bool → Demo → Outcome DemoError (Demo × Answer)
reset_scenario ask expected active_expected confirmed db = do
  raise_if (not confirmed) reset_confirmation_required
  once ask.idempotency_key (λ a. a) db
      (do
        s ← require (select (is_scenario ask.scenario_id) db.scenarios) scenario_not_found
        let active = select is_live db.playbacks
        let target = target_of ask.scenario_id active db.playbacks
        check_known target expected
        check_active ask.scenario_id active expected active_expected
        (left, former) ← replace ask active db.playbacks
        (rows, row) ← rewind ask target left
        (db', answer) ←
            log ask reset none (reset_reply (removed_rows ask) former s.step_count row)
              row.demo_playback_id (record db { playbacks = rows; simulated = false })
        ok (db', with_files ask answer))
