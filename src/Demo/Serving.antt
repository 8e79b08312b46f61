-- ===== src/Demo/Serving.antt =====
-- backend/app/demo/playback.py: the playbacks stay sound over all commands of all users.
use esafe.Prelude.{
  ℕ, String, ◌≡◌, refl, subst, sym, ◌∙◌, Option, none, some, List, [], ◌∷◌, ok, inl, inr,
  Outcome-cases, Option-cases, select, commit-keeps,
}
use esafe.Demo.Rows.{Scenario, Answer, PlaybackEvent, has_event_key, Demo}
use esafe.Demo.Commands.{Ask}
use esafe.Demo.Stepping.{Job, known, begun, next_begin, next_finish}
use esafe.Demo.Calls.{
  Sys, Call, Request, to_start, to_pause, to_reset, respond, call_command, call_next, call_finish,
  call_signals, job_at, after_next, after_finish, handle, serve,
}
use esafe.Demo.Sound.{Sound}
use esafe.Demo.Effects.{Keeps, start_scenario-Keeps, pause_scenario-Keeps}
use esafe.Demo.Rewinding.{reset_scenario-Keeps}
use esafe.Demo.Counting.{finish_failed-Keeps, finish_passed-Keeps, next_begin-Keeps}

next_finish-Keeps :
    (now : ℕ) (error : Option String) (job : Job) (db db' : Demo) (out : Answer)
    → next_finish now error job db ≡ ok (db', out)
    → Keeps db db'
unfolding next_finish
next_finish-Keeps now (some error) job = finish_failed-Keeps now error job
next_finish-Keeps now none job = finish_passed-Keeps now job

respond-Keeps :
    (ask : Ask) (request : Request) (db db' : Demo) (out : Answer)
    → respond ask request db ≡ ok (db', out)
    → Keeps db db'
unfolding respond
respond-Keeps ask (to_start expected) = start_scenario-Keeps ask expected
respond-Keeps ask (to_pause expected) = pause_scenario-Keeps ask expected
respond-Keeps ask (to_reset expected active_expected confirmed) =
    reset_scenario-Keeps ask expected active_expected confirmed

-- The invariant of the tables, for a fixed list of scenarios.
abbrev IsKept : List Scenario → Demo → Type 0
IsKept scenarios db = (db.scenarios ≡ scenarios) × Sound scenarios db.playbacks

kept :
    (scenarios : List Scenario) (db db' : Demo)
    → Keeps db db'
    → IsKept scenarios db
    → IsKept scenarios db'
kept scenarios db db' k (same, sound) = (
  k.scenarios ∙ same,
  subst (λ ss. Sound ss db'.playbacks) same
      (k.sound (subst (λ ss. Sound ss db.playbacks) (sym same) sound)),
)

after_next-IsKept :
    (scenarios : List Scenario) (sys : Sys) (ask : Ask) (expected : ℕ)
    → IsKept scenarios sys.demo
    → IsKept scenarios (after_next sys (next_begin ask expected sys.demo)).demo
after_next-IsKept scenarios sys ask expected h =
    elim (Outcome-cases (next_begin ask expected sys.demo)) [
      | inr (x, e) ↦ rw e h
      | inl ((db', known a), e) ↦
          rw e
            (kept scenarios sys.demo db' (next_begin-Keeps ask expected sys.demo db' (known a) e) h)
      | inl ((db', begun j), e) ↦
          rw e
            (kept scenarios sys.demo db' (next_begin-Keeps ask expected sys.demo db' (begun j) e) h)
    ]

after_finish-IsKept :
    (scenarios : List Scenario) (n now : ℕ) (error : Option String) (sys : Sys) (job : Option Job)
    → IsKept scenarios sys.demo
    → IsKept scenarios (after_finish n now error sys job).demo
after_finish-IsKept scenarios n now error sys none h = h
after_finish-IsKept scenarios n now error sys (some job) h =
    commit-keeps (IsKept scenarios) sys.demo (next_finish now error job sys.demo) h λ db' out e.
      kept scenarios sys.demo db' (next_finish-Keeps now error job sys.demo db' out e) h

handle-IsKept :
    (scenarios : List Scenario) (c : Call) (sys : Sys)
    → IsKept scenarios sys.demo
    → IsKept scenarios (handle c sys).demo
unfolding handle
handle-IsKept scenarios (call_command ask request) sys h =
    commit-keeps (IsKept scenarios) sys.demo (respond ask request sys.demo) h
      λ db' out e. kept scenarios sys.demo db' (respond-Keeps ask request sys.demo db' out e) h
handle-IsKept scenarios (call_next ask expected) sys h =
    after_next-IsKept scenarios sys ask expected h
handle-IsKept scenarios (call_finish n now error) sys h =
    after_finish-IsKept scenarios n now error sys (job_at n sys.jobs) h
handle-IsKept scenarios (call_signals left) sys h = h

serve-IsKept :
    (scenarios : List Scenario) (calls : List Call) (sys : Sys)
    → IsKept scenarios sys.demo
    → IsKept scenarios (serve calls sys).demo
unfolding serve
serve-IsKept scenarios [] sys h = h
serve-IsKept scenarios (c ∷ cs) sys h =
    serve-IsKept scenarios cs (handle c sys) (handle-IsKept scenarios c sys h)

-- From sound playbacks, whatever commands users give and in whatever order steps end: keys stay
-- unique, at most one playback is ready, running or paused, every row satisfies the constraints of
-- its table, and no playback has counted more steps than its scenario has.
pub serve-Sound :
    (calls : List Call) (sys : Sys)
    → Sound sys.demo.scenarios sys.demo.playbacks
    → Sound sys.demo.scenarios (serve calls sys).demo.playbacks
serve-Sound calls sys h = (serve-IsKept sys.demo.scenarios calls sys (refl, h)).1

-- An answer that an event has recorded is there for good.
abbrev IsOnRecord : String → PlaybackEvent → Demo → Type 0
IsOnRecord key e db = select (has_event_key key) db.events ≡ some e

handle-IsOnRecord :
    (key : String) (e : PlaybackEvent) (c : Call) (sys : Sys)
    → IsOnRecord key e sys.demo
    → IsOnRecord key e (handle c sys).demo
unfolding handle
handle-IsOnRecord key e (call_command ask request) sys h =
    commit-keeps (IsOnRecord key e) sys.demo (respond ask request sys.demo) h
      λ db' out k. (respond-Keeps ask request sys.demo db' out k).answers key e h
handle-IsOnRecord key e (call_next ask expected) sys h =
    elim (Outcome-cases (next_begin ask expected sys.demo)) [
      | inr (x, k) ↦ rw k h
      | inl ((db', known a), k) ↦
          rw k ((next_begin-Keeps ask expected sys.demo db' (known a) k).answers key e h)
      | inl ((db', begun j), k) ↦
          rw k ((next_begin-Keeps ask expected sys.demo db' (begun j) k).answers key e h)
    ]
handle-IsOnRecord key e (call_finish n now error) sys h = elim (Option-cases (job_at n sys.jobs)) [
  | inl k ↦ rw k h
  | inr (job, k) ↦ rw k (
      commit-keeps (IsOnRecord key e) sys.demo (next_finish now error job sys.demo) h
        λ db' out m. (next_finish-Keeps now error job sys.demo db' out m).answers key e h)
]
handle-IsOnRecord key e (call_signals left) sys h = h

pub serve-answers :
    (calls : List Call) (sys : Sys) (key : String) (e : PlaybackEvent)
    → IsOnRecord key e sys.demo
    → IsOnRecord key e (serve calls sys).demo
unfolding serve
serve-answers [] sys key e h = h
serve-answers (c ∷ cs) sys key e h =
    serve-answers cs (handle c sys) key e (handle-IsOnRecord key e c sys h)
