-- ===== src/Workflow/Queries.antt =====
-- backend/app/workflow.py: the helpers that the operations share.
use esafe.Prelude.{
  ℕ, String, Bool, true, false, ◌&&◌, ◌||◌, Option, none, some, List, [], ◌∷◌, ◌++◌, ltb, ◌==◌,
  str_eq, if◌then◌else◌, strip, is_empty, text_length, select, exists, filter, Outcome, ok, err,
  ◌>>=◌, ◌>>◌, raise_if, concat, trim_by,
}
use esafe.Workflow.Rows.{
  WorkStatus, queued, running, waiting_approval, on_hold, completed, discarded, failed,
  WorkPriority, normal, high, urgent, ChecklistStatus, pending, done, skipped, CloseReason,
  resolved, false_alarm, duplicate, other, WorkItem, ChecklistItem, AuditEvent, AuditState,
  AuditAction, work_item_status_changed, TargetType, work_item_target, work_state, user_reason,
  AuditReason, Db, WorkflowError, contract, integrity_error, runtime_error,
  idempotency_key_required, Env,
}

-- `value.strip() if value else ""`
abbrev pub or_blank : Option String → String
or_blank none = ""
or_blank (some s) = strip s

-- `_validate_idempotency_key`
unfoldable pub validate_idempotency_key : Option String → Outcome WorkflowError String
validate_idempotency_key value =
    let normalized = or_blank value in
    if is_empty normalized || ltb 160 (text_length normalized)
    then err (contract 400 idempotency_key_required)
    else ok normalized

-- `_audit_key`
unfoldable pub audit_key : Env → String → String
audit_key env key = concat "workflow:" (env.sha256 key)

abbrev pub or_raise {ℓ} : {A : Type ℓ} → Option A → WorkflowError → Outcome WorkflowError A
or_raise none e = err e
or_raise (some a) e = ok a

unfoldable pub parse_priority : String → Option WorkPriority
parse_priority s =
    if str_eq s "NORMAL"
    then some normal
    else if str_eq s "HIGH"
    then some high
    else if str_eq s "URGENT"
    then some urgent
    else none

unfoldable pub parse_work_status : String → Option WorkStatus
parse_work_status s =
    if str_eq s "QUEUED"
    then some queued
    else if str_eq s "RUNNING"
    then some running
    else if str_eq s "WAITING_APPROVAL"
    then some waiting_approval
    else if str_eq s "ON_HOLD"
    then some on_hold
    else if str_eq s "FAILED"
    then some failed
    else if str_eq s "COMPLETED"
    then some completed
    else if str_eq s "DISCARDED"
    then some discarded
    else none

unfoldable pub parse_checklist_status : String → Option ChecklistStatus
parse_checklist_status s =
    if str_eq s "PENDING"
    then some pending
    else if str_eq s "DONE"
    then some done
    else if str_eq s "SKIPPED"
    then some skipped
    else none

unfoldable pub parse_close_reason : String → Option CloseReason
parse_close_reason s =
    if str_eq s "RESOLVED"
    then some resolved
    else if str_eq s "FALSE_ALARM"
    then some false_alarm
    else if str_eq s "DUPLICATE"
    then some duplicate
    else if str_eq s "OTHER"
    then some other
    else none

-- WORK_TRANSITIONS
abbrev pub allowed : WorkStatus → WorkStatus → Bool
allowed queued running = true
allowed queued on_hold = true
allowed queued discarded = true
allowed running waiting_approval = true
allowed running failed = true
allowed running on_hold = true
allowed waiting_approval completed = true
allowed waiting_approval on_hold = true
allowed waiting_approval discarded = true
allowed on_hold running = true
allowed on_hold waiting_approval = true
allowed on_hold discarded = true
allowed failed queued = true
allowed failed discarded = true
allowed _ _ = false

-- status IN ('COMPLETED', 'DISCARDED')
abbrev pub is_terminal : WorkStatus → Bool
is_terminal completed = true
is_terminal discarded = true
is_terminal _ = false

abbrev pub is_discarded : WorkStatus → Bool
is_discarded discarded = true
is_discarded _ = false

abbrev pub has_work_id : ℕ → WorkItem → Bool
has_work_id id w = w.work_item_id == id

abbrev pub has_audit_key : String → AuditEvent → Bool
has_audit_key key a = str_eq a.idempotency_key key

abbrev pub belongs_to : ℕ → ChecklistItem → Bool
belongs_to id c = c.work_item_id == id

abbrev pub is_of : ℕ → Option ℕ → Bool
is_of case_id none = false
is_of case_id (some id) = id == case_id

-- The rows of a checklist are kept in the order of their ordinals.
pub record WorkDetail : Type 0 where
  pub item : WorkItem
  pub checklist : List ChecklistItem

-- `work_item_detail`, and the RuntimeError of its callers when the row is not there.
unfoldable pub work_item_detail : Db → ℕ → Outcome WorkflowError WorkDetail
work_item_detail db id = do
  w ← or_raise (select (has_work_id id) db.works) runtime_error
  ok (record { item = w; checklist = filter (belongs_to id) db.checklists })

-- `_insert_audit`: the key is unique.
unfoldable pub insert_audit : AuditEvent → List AuditEvent → Outcome WorkflowError (List AuditEvent)
insert_audit a audits = do
  raise_if (exists (has_audit_key a.idempotency_key) audits) integrity_error
  ok (audits ++ a ∷ [])

-- SQL `trim`, which removes spaces alone.
unfoldable pub sql_trim : String → String
sql_trim = trim_by (λ c. c == 32)

abbrev has_reason : AuditReason → Bool
has_reason (user_reason s) = ltb 0 (text_length (sql_trim s))
has_reason _ = false

abbrev to_discarded : AuditState → Bool
to_discarded (work_state s v) = is_discarded s
to_discarded _ = false

abbrev is_status_change : AuditAction → Bool
is_status_change work_item_status_changed = true
is_status_change _ = false

abbrev is_work_item : TargetType → Bool
is_work_item work_item_target = true
is_work_item _ = false

-- The audit event that gives the reason for which a work item was discarded.
unfoldable pub gives_discard_reason : ℕ → AuditEvent → Bool
unfolding sql_trim
gives_discard_reason id a =
    is_work_item a.target_type
    && a.target_id == id
    && is_status_change a.action
    && to_discarded a.after_state
    && has_reason a.reason
