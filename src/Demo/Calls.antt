-- ===== src/Demo/Calls.antt =====
-- backend/app/demo/playback.py: the commands of several users, with the steps that are under way.
use esafe.Prelude.{
  ℕ, zero, suc, String, Bool, Option, none, some, List, [], ◌∷◌, ◌++◌, Outcome, ok, err, commit,
}
use esafe.Demo.Rows.{Answer, Demo, DemoError}
use esafe.Demo.Commands.{Ask, start_scenario, pause_scenario}
use esafe.Demo.Resetting.{reset_scenario}
use esafe.Demo.Stepping.{Job, Begun, known, begun, next_begin, next_finish}

-- The commands that are one transaction.
pub data Request : Type 0 where
  to_start : Option ℕ → Request
  to_pause : ℕ → Request
  to_reset : Option ℕ → Option ℕ → Bool → Request

unfoldable pub respond : Ask → Request → Demo → Outcome DemoError (Demo × Answer)
respond ask (to_start expected) db = start_scenario ask expected db
respond ask (to_pause expected) db = pause_scenario ask expected db
respond ask (to_reset expected active_expected confirmed) db =
    reset_scenario ask expected active_expected confirmed db

pub record Sys : Type 0 where
  pub demo : Demo
  pub jobs : List Job

-- `call_finish` ends the step under way at this place of the list; `call_signals` is what the
-- ingestion leaves of simulated signals.
pub data Call : Type 0 where
  call_command : Ask → Request → Call
  call_next : Ask → ℕ → Call
  call_finish : ℕ → ℕ → Option String → Call
  call_signals : Bool → Call

unfoldable pub job_at : ℕ → List Job → Option Job
job_at n [] = none
job_at zero (j ∷ js) = some j
job_at (suc n) (j ∷ js) = job_at n js

unfoldable pub without : ℕ → List Job → List Job
without n [] = []
without zero (j ∷ js) = js
without (suc n) (j ∷ js) = j ∷ without n js

abbrev pub after_next : Sys → Outcome DemoError (Demo × Begun) → Sys
after_next sys (ok (db, known answer)) = record sys { demo = db }
after_next sys (ok (db, begun job)) = record { demo = db; jobs = sys.jobs ++ job ∷ [] }
after_next sys (err e) = sys

abbrev pub after_finish : ℕ → ℕ → Option String → Sys → Option Job → Sys
after_finish n now error sys none = sys
after_finish n now error sys (some job) = record {
  demo = commit sys.demo (next_finish now error job sys.demo);
  jobs = without n sys.jobs;
}

unfoldable pub handle : Call → Sys → Sys
unfolding job_at
handle (call_command ask request) sys = record sys {
  demo = commit sys.demo (respond ask request sys.demo);
}
handle (call_next ask expected) sys = after_next sys (next_begin ask expected sys.demo)
handle (call_finish n now error) sys = after_finish n now error sys (job_at n sys.jobs)
handle (call_signals some_left) sys = record sys {
  demo = record (sys.demo) { simulated = some_left };
}

unfoldable pub serve : List Call → Sys → Sys
serve [] sys = sys
serve (c ∷ cs) sys = serve cs (handle c sys)
