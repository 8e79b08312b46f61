-- ===== src/Workflow/Creation.antt =====
-- backend/app/workflow.py: `create_case_work_item`. One call is one transaction: an error leaves the
-- tables as they were. Its reply is read from the rows it leaves.
use esafe.Prelude.{
  ℕ, ◌+◌, String, Bool, true, false, ◌&&◌, ◌||◌, not, Option, none, some, List, [], ◌∷◌, ◌++◌, map,
  ltb, ◌==◌, str_eq, strip, is_empty, prefix, length, select, exists, filter, update, Outcome, ok,
  ◌>>=◌, ◌>>◌, raise_if,
}
use esafe.Automation.Rules.{CaseStatus, closed, merged}
use esafe.Workflow.Rows.{
  queued, WorkPriority, pending, WorkItem, ChecklistItem, AuditEvent, work_item_created,
  work_item_target, created_state, source_user, CaseRecord, RecommendationAction, ActionStatus,
  accepted, action_discarded, Db, WorkflowError, contract, integrity_error, invalid_work_priority,
  invalid_work_item, invalid_checklist, recommendation_action_unavailable,
  recommendation_action_discarded, case_not_found, case_work_item_locked, Env, Actor,
}
use esafe.Workflow.Queries.{
  validate_idempotency_key, audit_key, or_raise, parse_priority, has_work_id, is_of, WorkDetail,
  work_item_detail, insert_audit,
}

pub record CreateRequest : Type 0 where
  pub idempotency_key : Option String
  pub case_id : ℕ
  pub title : String
  pub work_type : String
  pub priority : String
  pub due_at : Option ℕ
  pub recommendation_action_id : Option ℕ
  pub checklist_labels : List String

abbrev is_action_of : ℕ → ℕ → RecommendationAction → Bool
is_action_of id case_id a =
    a.recommendation_action_id == id && a.case_id == case_id && a.recommendation_is_open

abbrev is_action_discarded : ActionStatus → Bool
is_action_discarded action_discarded = true
is_action_discarded _ = false

abbrev pub is_locked : CaseStatus → Bool
is_locked closed = true
is_locked merged = true
is_locked _ = false

unfoldable pub check_action :
    Option ℕ → ℕ → List RecommendationAction → Outcome WorkflowError (Unit {0})
check_action none case_id actions = ok tt
check_action (some id) case_id actions = do
  action ←
      or_raise (select (is_action_of id case_id) actions)
        (contract 409 recommendation_action_unavailable)
  raise_if (is_action_discarded action.status) (contract 409 recommendation_action_discarded)

unfoldable pub check_case : ℕ → List CaseRecord → Outcome WorkflowError (Unit {0})
check_case case_id cases = do
  c ← or_raise (select (λ c. c.case_id == case_id) cases) (contract 404 case_not_found)
  raise_if (is_locked c.status) (contract 409 case_work_item_locked)

abbrev uses_action : Option ℕ → WorkItem → Bool
uses_action none w = false
uses_action (some id) w = is_of id w.recommendation_action_id

-- INSERT INTO work_item: the primary key, the unique key, and ux_work_item_recommendation_action.
unfoldable pub insert_work : WorkItem → List WorkItem → Outcome WorkflowError (List WorkItem)
insert_work w works = do
  raise_if (exists (has_work_id w.work_item_id) works) integrity_error
  raise_if (exists (λ v. str_eq v.idempotency_key w.idempotency_key) works) integrity_error
  raise_if (exists (uses_action w.recommendation_action_id) works) integrity_error
  ok (works ++ w ∷ [])

-- The rows of a new checklist; `uuids` draws the key of each ordinal.
unfoldable pub new_checklist : (ℕ → ℕ) → ℕ → ℕ → ℕ → List String → List ChecklistItem
new_checklist uuids now id ordinal [] = []
new_checklist uuids now id ordinal (label ∷ labels) =
    record {
      checklist_item_id = uuids ordinal;
      work_item_id = id;
      ordinal = ordinal;
      label = label;
      status = pending;
      note = none;
      completed_at = none;
      updated_at = now;
    }
    ∷ new_checklist uuids now id (ordinal + 1) labels

unfoldable pub new_work_item : Env → ℕ → ℕ → String → WorkPriority → CreateRequest → WorkItem
new_work_item env now id key priority r = record {
  work_item_id = id;
  work_type = prefix 64 (env.upper (strip r.work_type));
  case_id = some r.case_id;
  recommendation_action_id = r.recommendation_action_id;
  status = queued;
  priority = priority;
  title = strip r.title;
  due_at = r.due_at;
  progress = 0;
  error_class = none;
  retry_count = 0;
  idempotency_key = key;
  version = 1;
  started_at = none;
  completed_at = none;
  updated_at = now;
}

abbrev accept : Option ℕ → List RecommendationAction → List RecommendationAction
accept none actions = actions
accept (some id) actions =
    update (λ a. a.recommendation_action_id == id) (λ a. record a { status = accepted }) actions

unfoldable pub clean_labels : List String → List String
clean_labels labels = filter (λ s. not (is_empty s)) (map strip labels)

unfoldable pub creation_audit : Env → Actor → ℕ → String → WorkPriority → AuditEvent
creation_audit env who id key priority = record {
  profile = who.profile;
  actor_user_id = who.user_id;
  correlation_id = who.request_id;
  idempotency_key = audit_key env key;
  action = work_item_created;
  target_type = work_item_target;
  target_id = id;
  target_version = 1;
  before_state = none;
  after_state = created_state queued priority;
  reason = source_user;
}

-- The transaction of `create_case_work_item` for a key that no work item has.
unfoldable pub create_new :
    Env
    → Actor
    → ℕ
    → ℕ
    → (ℕ → ℕ)
    → String
    → WorkPriority
    → List String
    → CreateRequest
    → Db
    → Outcome WorkflowError (Db × WorkDetail)
unfolding new_work_item creation_audit
create_new env who now id uuids key priority labels r db = do
  check_action r.recommendation_action_id r.case_id db.actions
  check_case r.case_id db.cases
  works ← insert_work (new_work_item env now id key priority r) db.works
  audits ← insert_audit (creation_audit env who id key priority) db.audits
  let db' = record db {
    works = works;
    checklists = db.checklists ++ new_checklist uuids now id 1 labels;
    audits = audits;
    actions = accept r.recommendation_action_id db.actions;
  }
  detail ← work_item_detail db' id
  ok (db', detail)

-- A key that a work item has returns that item.
unfoldable pub create_case_work_item :
    Env → Actor → ℕ → ℕ → (ℕ → ℕ) → CreateRequest → Db → Outcome WorkflowError (Db × WorkDetail)
create_case_work_item env who now id uuids r db = do
  key ← validate_idempotency_key r.idempotency_key
  priority ← or_raise (parse_priority r.priority) (contract 422 invalid_work_priority)
  raise_if (is_empty (strip r.title) || is_empty (env.upper (strip r.work_type)))
      (contract 422 invalid_work_item)
  let labels = clean_labels r.checklist_labels
  raise_if (not (length labels == length r.checklist_labels) || ltb 30 (length labels))
      (contract 422 invalid_checklist)
  elim (select (λ w. str_eq w.idempotency_key key) db.works) [
    | some w ↦ do detail ← work_item_detail db w.work_item_id; ok (db, detail)
    | none ↦ create_new env who now id uuids key priority labels r db
  ]
