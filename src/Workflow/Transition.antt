-- ===== src/Workflow/Transition.antt =====
-- backend/app/workflow.py: `transition_work_item`, one transaction.
use esafe.Prelude.{
  ℕ, ◌+◌, String, not, Option, none, some, max, ◌==◌, if◌then◌else◌, strip, is_empty, select,
  exists, update, Outcome, ok, ◌>>=◌, ◌>>◌, raise_if,
}
use esafe.Workflow.Rows.{
  WorkStatus, queued, running, waiting_approval, completed, failed, WorkItem, AuditEvent,
  work_item_status_changed, work_item_target, work_state, user_reason, Db, WorkflowError, contract,
  work_item_not_found, work_item_version_conflict, reason_required, invalid_work_status,
  invalid_work_transition, Env, Actor,
}
use esafe.Workflow.Queries.{
  validate_idempotency_key, audit_key, or_raise, parse_work_status, allowed, has_work_id,
  has_audit_key, WorkDetail, work_item_detail, insert_audit,
}

pub record TransitionRequest : Type 0 where
  pub idempotency_key : Option String
  pub work_item_id : ℕ
  pub expected_version : ℕ
  pub target_status : String
  pub reason : String

unfoldable pub next_progress : WorkStatus → ℕ → ℕ
next_progress queued p = 0
next_progress running p = max p 1
next_progress waiting_approval p = max p 90
next_progress completed p = 100
next_progress _ p = p

abbrev started : WorkStatus → ℕ → Option ℕ → Option ℕ
started running now none = some now
started _ now at = at

abbrev completed_time : WorkStatus → ℕ → Option ℕ
completed_time completed now = some now
completed_time _ now = none

abbrev next_error : WorkStatus → Option String → Option String
next_error failed e = some "USER_RECORDED_FAILURE"
next_error queued e = none
next_error running e = none
next_error _ e = e

abbrev retries : WorkStatus → WorkStatus → ℕ → ℕ
retries failed queued n = n + 1
retries _ _ n = n

-- The assignment of the UPDATE.
unfoldable pub moved : ℕ → WorkStatus → WorkItem → WorkItem
unfolding next_progress
moved now target w = record w {
  status = target;
  progress = next_progress target w.progress;
  started_at = started target now w.started_at;
  completed_at = completed_time target now;
  error_class = next_error target w.error_class;
  retry_count = retries w.status target w.retry_count;
  version = w.version + 1;
  updated_at = now;
}

unfoldable pub transition_audit :
    Actor → String → TransitionRequest → WorkStatus → WorkStatus → AuditEvent
transition_audit who key r current target = record {
  profile = who.profile;
  actor_user_id = who.user_id;
  correlation_id = who.request_id;
  idempotency_key = key;
  action = work_item_status_changed;
  target_type = work_item_target;
  target_id = r.work_item_id;
  target_version = r.expected_version + 1;
  before_state = some (work_state current r.expected_version);
  after_state = work_state target (r.expected_version + 1);
  reason = user_reason (strip r.reason);
}

-- The part of the transaction for a key that no audit event has.
unfoldable pub transition_new :
    Actor
    → ℕ
    → String
    → WorkStatus
    → TransitionRequest
    → WorkItem
    → Db
    → Outcome WorkflowError (Db × WorkDetail)
unfolding transition_audit
transition_new who now key target r w db = do
  raise_if (not (w.version == r.expected_version)) (contract 409 work_item_version_conflict)
  raise_if (not (allowed w.status target)) (contract 409 invalid_work_transition)
  audits ← insert_audit (transition_audit who key r w.status target) db.audits
  let db' = record db {
    works = update (has_work_id r.work_item_id) (moved now target) db.works;
    audits = audits;
  }
  detail ← work_item_detail db' r.work_item_id
  ok (db', detail)

unfoldable pub transition_work_item :
    Env → Actor → ℕ → TransitionRequest → Db → Outcome WorkflowError (Db × WorkDetail)
transition_work_item env who now r db = do
  key ← validate_idempotency_key r.idempotency_key
  raise_if (is_empty (strip r.reason)) (contract 422 reason_required)
  target ← or_raise (parse_work_status r.target_status) (contract 422 invalid_work_status)
  w ← or_raise (select (has_work_id r.work_item_id) db.works) (contract 404 work_item_not_found)
  if exists (has_audit_key (audit_key env key)) db.audits
      then (do detail ← work_item_detail db r.work_item_id; ok (db, detail))
      else transition_new who now (audit_key env key) target r w db
