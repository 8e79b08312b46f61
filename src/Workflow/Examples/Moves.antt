-- ===== src/Workflow/Examples/Moves.antt =====
-- backend/app/workflow.py: transitions of one work item, and the review of its case.
use esafe.Prelude.{
  ℕ, ◌≡◌, ◌↔◌, refl, Option, none, some, List, [], ◌∷◌, ok, commit, select, exists, filter, update,
  strip, text_length, concat, trim_by,
}
use esafe.Automation.Rules.{source_resolved_review, source_resolved}
use esafe.Workflow.Rows.{
  WorkItem, WorkStatus, queued, running, completed, normal, AuditEvent, work_item_status_changed,
  work_item_target, work_state, user_reason, Db, CaseRecord, resolved,
}
use esafe.Workflow.Queries.{
  WorkDetail, validate_idempotency_key, audit_key, parse_work_status, work_item_detail,
  insert_audit, gives_discard_reason,
}
use esafe.Workflow.Transition.{
  transition_work_item, transition_new, transition_audit, moved, next_progress,
}
use esafe.Workflow.Closure.{check_closable, works_of, current_evidence}
use esafe.Workflow.Review.{ClosureReview, closure_review, review_counts}
use esafe.Workflow.Requests.{serve}
use esafe.Workflow.Terminal.{Holds, serve-Holds}
use esafe.Workflow.Agreement.{closure_review-agrees}
use esafe.Workflow.Replay.{transition_stale}
use esafe.Workflow.Repeated.{transition_replay}
use esafe.Workflow.Examples.{env, duty_officer, start, move, last_step, whole_day}

-- A work item of the case, in a status with its progress and times.
abbrev task : WorkStatus → ℕ → ℕ → Option ℕ → Option ℕ → ℕ → WorkItem
task status progress version from till now = record {
  work_item_id = 10;
  work_type = "CALL";
  case_id = some 1;
  recommendation_action_id = none;
  status = status;
  priority = normal;
  title = "Call the site";
  due_at = none;
  progress = progress;
  error_class = none;
  retry_count = 0;
  idempotency_key = "a";
  version = version;
  started_at = from;
  completed_at = till;
  updated_at = now;
}

abbrev with_task : WorkItem → List AuditEvent → Db
with_task w log = record start { works = w ∷ []; audits = log }

abbrev finished_task : WorkItem
finished_task = task completed 100 4 (some 101) (some 103) 103

serve-Holds_example : Holds 10 finished_task (serve env whole_day (with_task finished_task []))
unfolding select
serve-Holds_example =
    serve-Holds env 10 finished_task whole_day (with_task finished_task []) refl refl

abbrev queued_task : WorkItem
queued_task = task queued 0 1 none none 100

abbrev running_task : WorkItem
running_task = task running 1 2 (some 101) none 101

abbrev first_move : AuditEvent
first_move = record {
  profile = "LIVE";
  actor_user_id = 1;
  correlation_id = 7;
  idempotency_key = "workflow:b";
  action = work_item_status_changed;
  target_type = work_item_target;
  target_id = 10;
  target_version = 2;
  before_state = some (work_state queued 1);
  after_state = work_state running 2;
  reason = user_reason "as planned";
}

abbrev running_db : Db
running_db = with_task running_task (first_move ∷ [])

abbrev running_detail : WorkDetail
running_detail = record { item = running_task; checklist = [] }

key_of_move : validate_idempotency_key (some "b") ≡ ok "b"
unfolding validate_idempotency_key strip trim_by text_length
key_of_move = refl

moves :
    transition_work_item env duty_officer 101 (move "b" 1 "RUNNING") (with_task queued_task [])
    ≡ ok (running_db, running_detail)
unfolding transition_work_item transition_new transition_audit moved next_progress
    validate_idempotency_key parse_work_status audit_key work_item_detail insert_audit select exists
    filter update strip trim_by text_length concat
moves = refl

transition_replay_example :
    (d : WorkDetail) × (work_item_detail (serve env whole_day running_db) 10 ≡ ok d)
    × (transition_work_item env duty_officer 150
          (move "b" 1 "RUNNING")
          (serve env whole_day running_db)
        ≡ ok (serve env whole_day running_db, d))
transition_replay_example =
    transition_replay env duty_officer duty_officer 101 150 (move "b" 1 "RUNNING")
      (with_task queued_task []) running_db running_detail "b" whole_day key_of_move moves

transition_stale_example :
    commit running_db (transition_work_item env duty_officer 150 (move "x" 1 "ON_HOLD") running_db)
    ≡ running_db
unfolding exists
transition_stale_example =
    transition_stale env duty_officer duty_officer 101 150 (move "b" 1 "RUNNING")
      (move "x" 1 "ON_HOLD") (with_task queued_task []) running_db running_detail "b" key_of_move
      refl moves refl refl

abbrev reviewed_case : CaseRecord
reviewed_case = record {
  case_id = 1;
  status = source_resolved_review;
  source_status = source_resolved;
  version = 2;
  close_reason = none;
  closed_at = none;
}

abbrev reviewed : Db
reviewed = record start { works = finished_task ∷ []; cases = reviewed_case ∷ [] }

abbrev nothing_left : ClosureReview
nothing_left = record {
  incomplete_count = 0;
  completed_count = 1;
  discarded_count = 0;
  unreasoned_discarded_count = 0;
  blocking_reasons = [];
}

reviews : closure_review 1 reviewed ≡ some nothing_left
unfolding closure_review review_counts select exists filter gives_discard_reason
reviews = refl

closure_review-agrees_example : (nothing_left.blocking_reasons ≡ []) ↔ (
    check_closable resolved
      (current_evidence 1 reviewed.bundles)
      last_step
      reviewed_case
      (filter (works_of 1) reviewed.works)
      reviewed.audits
    ≡ ok tt)
unfolding select
closure_review-agrees_example =
    closure_review-agrees last_step resolved reviewed_case reviewed nothing_left refl reviews refl
      refl refl
