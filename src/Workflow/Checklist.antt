-- ===== src/Workflow/Checklist.antt =====
-- backend/app/workflow.py: `update_checklist_item`.
use esafe.Prelude.{
  ℕ, ◌+◌, ◌*◌, String, Bool, true, false, ◌&&◌, not, Option, none, some, List, [], ◌∷◌, ◌==◌,
  if◌then◌else◌, strip, is_empty, length, select, exists, filter, update, round_half_even, Outcome,
  ok, ◌>>=◌, ◌>>◌, raise_if, is_some,
}
use esafe.Workflow.Rows.{
  WorkItem, ChecklistItem, ChecklistStatus, pending, done, skipped, AuditEvent,
  work_item_checklist_changed, work_item_target, checklist_state, note_provided, Db, WorkflowError,
  contract, invalid_checklist_status, work_item_not_found, work_item_version_conflict,
  work_item_locked, checklist_item_not_found, Env, Actor,
}
use esafe.Workflow.Queries.{
  validate_idempotency_key, audit_key, or_raise, parse_checklist_status, is_terminal, has_work_id,
  has_audit_key, belongs_to, WorkDetail, work_item_detail, insert_audit,
}

pub record ChecklistRequest : Type 0 where
  pub idempotency_key : Option String
  pub work_item_id : ℕ
  pub checklist_item_id : ℕ
  pub expected_work_version : ℕ
  pub status : String
  pub note : Option String

abbrev pub is_item : ℕ → ChecklistItem → Bool
is_item id c = c.checklist_item_id == id

abbrev pub is_item_of : ChecklistRequest → ChecklistItem → Bool
is_item_of r c = is_item r.checklist_item_id c && belongs_to r.work_item_id c

abbrev is_finished : ChecklistItem → ChecklistStatus → Bool
is_finished c done = true
is_finished c skipped = true
is_finished c pending = false

abbrev done_time : ChecklistStatus → ℕ → Option ℕ
done_time done now = some now
done_time _ now = none

-- `note.strip() if note and note.strip() else None`
unfoldable pub clean_note : Option String → Option String
clean_note none = none
clean_note (some s) = if is_empty (strip s) then none else some (strip s)

unfoldable pub checked : ℕ → ChecklistStatus → Option String → ChecklistItem → ChecklistItem
checked now status note c = record c {
  status = status;
  note = note;
  completed_at = done_time status now;
  updated_at = now;
}

-- round(finished * 85 / total), or 0 with no items.
unfoldable pub checklist_progress : List ChecklistItem → ℕ
checklist_progress [] = 0
checklist_progress (c ∷ cs) =
    round_half_even (length (filter (λ c. is_finished c c.status) (c ∷ cs)) * 85) (length (c ∷ cs))

unfoldable pub rescored : ℕ → ℕ → WorkItem → WorkItem
rescored now progress w = record w {
  progress = progress;
  version = w.version + 1;
  updated_at = now;
}

unfoldable pub checklist_audit :
    Actor → String → ChecklistRequest → ChecklistStatus → ChecklistStatus → AuditEvent
checklist_audit who key r before after = record {
  profile = who.profile;
  actor_user_id = who.user_id;
  correlation_id = who.request_id;
  idempotency_key = key;
  action = work_item_checklist_changed;
  target_type = work_item_target;
  target_id = r.work_item_id;
  target_version = r.expected_work_version + 1;
  before_state = some (checklist_state r.checklist_item_id before);
  after_state = checklist_state r.checklist_item_id after;
  reason = note_provided (is_some (clean_note r.note));
}

-- UPDATE work_item_checklist
unfoldable pub checked_rows :
    ℕ → ChecklistStatus → ChecklistRequest → List ChecklistItem → List ChecklistItem
checked_rows now status r =
    update (is_item r.checklist_item_id) (checked now status (clean_note r.note))

-- The part of the transaction for a key that no audit event has.
unfoldable pub update_checklist_new :
    Actor
    → ℕ
    → String
    → ChecklistStatus
    → ChecklistRequest
    → WorkItem
    → Db
    → Outcome WorkflowError (Db × WorkDetail)
unfolding checklist_audit
update_checklist_new who now key status r w db = do
  raise_if (not (w.version == r.expected_work_version)) (contract 409 work_item_version_conflict)
  raise_if (is_terminal w.status) (contract 409 work_item_locked)
  item ← or_raise (select (is_item_of r) db.checklists) (contract 404 checklist_item_not_found)
  let checklists = checked_rows now status r db.checklists
  let progress = checklist_progress (filter (belongs_to r.work_item_id) checklists)
  audits ← insert_audit (checklist_audit who key r item.status status) db.audits
  let db' = record db {
    works = update (has_work_id r.work_item_id) (rescored now progress) db.works;
    checklists = checklists;
    audits = audits;
  }
  detail ← work_item_detail db' r.work_item_id
  ok (db', detail)

unfoldable pub update_checklist_item :
    Env → Actor → ℕ → ChecklistRequest → Db → Outcome WorkflowError (Db × WorkDetail)
update_checklist_item env who now r db = do
  key ← validate_idempotency_key r.idempotency_key
  status ← or_raise (parse_checklist_status r.status) (contract 422 invalid_checklist_status)
  w ← or_raise (select (has_work_id r.work_item_id) db.works) (contract 404 work_item_not_found)
  if exists (has_audit_key (audit_key env key)) db.audits
      then (do detail ← work_item_detail db r.work_item_id; ok (db, detail))
      else update_checklist_new who now (audit_key env key) status r w db
