-- ===== src/Workflow/Examples.antt =====
-- backend/app/workflow.py: one case from its first work item to its closing.
mod Moves
use esafe.Prelude.{
  ℕ, String, ◌+◌, ◌≡◌, ◌↔◌, refl, true, false, Option, none, some, List, [], ◌∷◌, ok, All, commit,
  select, exists, filter, update, strip, text_length, concat, trim_by,
}
use esafe.Automation.Rules.{
  active, source_resolved_review, closed, source_active, source_resolved, next_case_status,
}
use esafe.Workflow.Rows.{
  WorkItem, WorkStatus, queued, running, completed, normal, AuditEvent, work_item_status_changed,
  work_item_target, work_state, user_reason, Db, Env, Actor, CaseRecord, sufficient, resolved,
}
use esafe.Workflow.Queries.{
  WorkDetail, validate_idempotency_key, audit_key, parse_priority, parse_work_status,
  parse_close_reason, work_item_detail, insert_audit, gives_discard_reason,
}
use esafe.Workflow.Creation.{
  CreateRequest, create_case_work_item, create_new, check_action, check_case, insert_work,
  new_checklist, new_work_item, clean_labels, creation_audit,
}
use esafe.Workflow.Transition.{
  TransitionRequest, transition_work_item, transition_new, transition_audit, moved, next_progress,
}
use esafe.Workflow.Closure.{
  CloseRequest, close_case, close_new, check_closable, incomplete, unreasoned, insert_closure,
  new_closure, last_closure, closing, closing_audit, discard_reasoned, has_case_id, works_of,
  current_evidence,
}
use esafe.Workflow.Review.{ClosureReview, closure_review, review_counts}
use esafe.Workflow.Requests.{Request, create, transition, close, signal, refreshed, handle, serve}
use esafe.Workflow.Settled.{Settled}
use esafe.Workflow.Progress.{Scored, serve-Scored}
use esafe.Workflow.Terminal.{Holds, serve-Holds}
use esafe.Workflow.ClosedCases.{IsAccounted, serve-closed}
use esafe.Workflow.Agreement.{closure_review-agrees}

abbrev env : Env
env = record { sha256 = λ s. s; upper = λ s. s }

abbrev duty_officer : Actor
duty_officer = record { profile = "LIVE"; user_id = 1; request_id = 7 }

abbrev start : Db
start = record {
  works = [];
  checklists = [];
  audits = [];
  cases =
      record {
        case_id = 1;
        status = active;
        source_status = source_active;
        version = 1;
        close_reason = none;
        closed_at = none;
      }
      ∷ [];
  closures = [];
  bundles = record { case_id = 1; is_current = true; status = sufficient } ∷ [];
  actions = [];
}

abbrev first_task : CreateRequest
first_task = record {
  idempotency_key = some "a";
  case_id = 1;
  title = "Call the site";
  work_type = "CALL";
  priority = "NORMAL";
  due_at = none;
  recommendation_action_id = none;
  checklist_labels = "Find the number" ∷ [];
}

abbrev move : String → ℕ → String → TransitionRequest
move key version status = record {
  idempotency_key = some key;
  work_item_id = 10;
  expected_version = version;
  target_status = status;
  reason = "as planned";
}

abbrev last_step : CloseRequest
last_step = record {
  idempotency_key = some "e";
  case_id = 1;
  expected_version = 2;
  close_reason = "RESOLVED";
  summary = "The fire is out";
  warning_acknowledged = false;
}

abbrev evening : List Request
evening = signal 1 source_resolved ∷ close duty_officer 104 30 last_step ∷ []

abbrev closed_case : CaseRecord
closed_case = record {
  case_id = 1;
  status = closed;
  source_status = source_resolved;
  version = 3;
  close_reason = some resolved;
  closed_at = some 104;
}

start-Settled : Settled start
start-Settled = record { keys = tt; works = tt }

abbrev whole_day : List Request
whole_day =
    create duty_officer 100 10 (λ n. n + 20) first_task
    ∷ transition duty_officer 101 (move "b" 1 "RUNNING")
    ∷ transition duty_officer 102 (move "c" 2 "WAITING_APPROVAL")
    ∷ transition duty_officer 103 (move "d" 3 "COMPLETED")
    ∷ evening

day_closes : select (has_case_id 1) (serve env whole_day start).cases ≡ some closed_case
unfolding serve handle create_case_work_item create_new validate_idempotency_key parse_priority
    clean_labels check_action check_case insert_work new_work_item new_checklist creation_audit
    insert_audit work_item_detail transition_work_item transition_new transition_audit moved
    next_progress parse_work_status audit_key refreshed next_case_status close_case close_new
    check_closable parse_close_reason incomplete unreasoned discard_reasoned insert_closure
    new_closure last_closure closing closing_audit select exists filter update strip trim_by
    text_length concat
day_closes = refl

serve-closed_example :
    All
      (λ w. w.case_id ≡ some 1 → IsAccounted (serve env whole_day start).audits w)
      (serve env whole_day start).works
serve-closed_example = serve-closed env whole_day start 1 closed_case start-Settled day_closes refl

start-Scored : Scored start
start-Scored = record { keys = tt; scores = tt }

serve-Scored_example : Scored (serve env whole_day start)
serve-Scored_example = serve-Scored env whole_day start start-Scored
