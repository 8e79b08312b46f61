-- ===== src/Demo/Examples.antt =====
-- backend/app/demo/playback.py: a scenario of two steps that two users play.
use esafe.Prelude.{
  ℕ, String, ◌≡◌, refl, true, false, none, some, List, [], ◌∷◌, arith, ok, select, exists, filter,
  update, text_length, concat,
}
use esafe.Demo.Rows.{
  next, failure, Playback, running, paused, Scenario, start, Answer, reply, Demo, check_playback,
  write_playbacks, insert_playback, insert_event, insert_audit, last_generation,
}
use esafe.Demo.Commands.{assign, Ask, once, log, insert, resume, begin, start_scenario, new_running}
use esafe.Demo.Calls.{
  Sys, to_start, to_reset, respond, Call, call_command, call_next, call_finish, serve,
}
use esafe.Demo.Sound.{Sound}
use esafe.Demo.Serving.{serve-Sound}
use esafe.Demo.Replay.{respond_replay}
use esafe.Demo.Stepping.{
  Job, known, next_begin, next_finish, finish_failed, assign_current, suspended,
}
use esafe.Demo.Repeated.{next_replay}
use esafe.Demo.Stuck.{Idle, serve-Idle}

abbrev fire : Scenario
fire = record { demo_scenario_id = 1; enabled = true; step_count = 2 }

abbrev empty : Demo
empty = record {
  scenarios = fire ∷ [];
  playbacks = [];
  events = [];
  audits = [];
  simulated = false;
}

abbrev ask : String → ℕ → Ask
ask key now = record {
  scenario_id = 1;
  actor_user_id = 3;
  idempotency_key = key;
  now = now;
  uuid = 5;
  cleared = record { rows = []; artifact_files = 0; redis_keys = 0 };
}

abbrev tour : List Call
tour =
    call_command (ask "key-start" 10) (to_start none)
    ∷ call_next (ask "key-next1" 11) 1
    ∷ call_finish 0 12 none
    ∷ call_next (ask "key-next2" 13) 2
    ∷ call_finish 0 14 (some "TimeoutError")
    ∷ []

empty-Sound : Sound (fire ∷ []) []
unfolding exists filter
empty-Sound = record { keys = tt; bounds = tt; rows = refl; one = refl }

serve-Sound_example :
    Sound (fire ∷ []) (serve tour (record { demo = empty; jobs = [] })).demo.playbacks
serve-Sound_example = serve-Sound tour (record { demo = empty; jobs = [] }) empty-Sound

abbrev first_run : Playback
first_run = record {
  demo_playback_id = 5;
  demo_scenario_id = 1;
  status = running;
  current_step = 0;
  generation = 1;
  version = 1;
  started_at = some 10;
  paused_at = none;
  completed_at = none;
  updated_at = 10;
}

abbrev started_answer : Answer
started_answer = reply start none none 2 first_run

abbrev started : Demo
started = record {
  scenarios = fire ∷ [];
  playbacks = first_run ∷ [];
  events =
      record {
        demo_playback_id = 5;
        command = start;
        step_ordinal = none;
        result = started_answer;
        idempotency_key = "key-start";
      }
      ∷ [];
  audits =
      record {
        actor_user_id = 3;
        command = start;
        target_id = 5;
        idempotency_key = "audit:demo:key-start";
      }
      ∷ [];
  simulated = false;
}

starts : respond (ask "key-start" 10) (to_start none) empty ≡ ok (started, started_answer)
unfolding respond start_scenario once begin resume insert new_running log check_playback
    write_playbacks insert_playback insert_event insert_audit last_generation select exists filter
    text_length concat
starts = refl

abbrev evening : List Call
evening =
    call_next (ask "key-next1" 11) 1
    ∷ call_finish 0 12 none
    ∷ call_command (ask "key-reset" 20) (to_reset (some 2) none true)
    ∷ []

respond_replay_example :
    respond
      (ask "key-start" 99)
      (to_start none)
      (serve evening (record { demo = started; jobs = [] })).demo
    ≡ ok ((serve evening (record { demo = started; jobs = [] })).demo, started_answer)
unfolding select
respond_replay_example =
    respond_replay (ask "key-start" 10) (ask "key-start" 99) (to_start none) evening
      (record { demo = started; jobs = [] }) empty started_answer refl starts refl

-- The playback after its second step has failed.
abbrev failed_run : Playback
failed_run = record first_run {
  status = paused;
  current_step = 2;
  version = 3;
  paused_at = some 14;
}

abbrev stuck : Sys
stuck = record { demo = record empty { playbacks = failed_run ∷ []; simulated = true }; jobs = [] }

stuck-Idle : Idle 5 stuck
unfolding select
stuck-Idle = (
  record {
    keys = (tt, tt);
    playback = failed_run;
    live = refl;
    same = refl;
    moving = omega arith;
    over = λ s e. ground arith;
  },
  refl,
)

abbrev retry : List Call
retry =
    call_command (ask "key-resume" 20) (to_start (some 3))
    ∷ call_next (ask "key-retry" 21) 4
    ∷ call_finish 0 22 none
    ∷ []

serve-Idle_example : Idle 5 (serve retry stuck)
serve-Idle_example = serve-Idle 5 retry stuck (refl, (refl, (refl, tt))) stuck-Idle

-- The second step fails.
abbrev last_job : Job
last_job = record {
  ask = ask "key-next2" 13;
  reserved = record first_run { current_step = 2; version = 3; updated_at = 13 };
  ordinal = 2;
  step_count = 2;
}

abbrev failed : Demo
failed = record {
  scenarios = fire ∷ [];
  playbacks = record failed_run { updated_at = 14 } ∷ [];
  events =
      record {
        demo_playback_id = 5;
        command = next;
        step_ordinal = some 2;
        result = failure "TimeoutError";
        idempotency_key = "key-next2";
      }
      ∷ [];
  audits = [];
  simulated = true;
}

abbrev stepping : Demo
stepping = record empty {
  playbacks = record first_run { current_step = 2; version = 3; updated_at = 13 } ∷ [];
  simulated = true;
}

fails : next_finish 14 (some "TimeoutError") last_job stepping ≡ ok (failed, failure "TimeoutError")
unfolding next_finish finish_failed assign_current assign suspended check_playback write_playbacks
    insert_event select exists filter update text_length
fails = refl

next_replay_example :
    next_begin (ask "key-next2" 30) 3 failed ≡ ok (failed, known (failure "TimeoutError"))
next_replay_example =
    next_replay 14 (some "TimeoutError") last_job stepping failed (failure "TimeoutError")
      (ask "key-next2" 30) 3 fails refl
