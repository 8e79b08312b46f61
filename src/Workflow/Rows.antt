-- ===== src/Workflow/Rows.antt =====
-- backend/app/workflow.py: the rows that the workflow reads and writes, and the errors it raises.
use esafe.Prelude.{ℕ, String, Bool, Option, List}
use esafe.Automation.Rules.{CaseStatus, SourceStatus}

pub data WorkStatus : Type 0 where
  queued running waiting_approval on_hold completed discarded failed : WorkStatus

pub data WorkPriority : Type 0 where
  normal high urgent : WorkPriority

pub data ChecklistStatus : Type 0 where
  pending done skipped : ChecklistStatus

pub data CloseReason : Type 0 where
  resolved false_alarm duplicate other : CloseReason

pub data EvidenceStatus : Type 0 where
  sufficient insufficient conflict : EvidenceStatus

pub data ActionStatus : Type 0 where
  proposed accepted action_discarded : ActionStatus

pub record WorkItem : Type 0 where
  pub work_item_id : ℕ
  pub work_type : String
  pub case_id : Option ℕ
  pub recommendation_action_id : Option ℕ
  pub status : WorkStatus
  pub priority : WorkPriority
  pub title : String
  pub due_at : Option ℕ
  pub progress : ℕ
  pub error_class : Option String
  pub retry_count : ℕ
  pub idempotency_key : String
  pub version : ℕ
  pub started_at : Option ℕ
  pub completed_at : Option ℕ
  pub updated_at : ℕ

pub record ChecklistItem : Type 0 where
  pub checklist_item_id : ℕ
  pub work_item_id : ℕ
  pub ordinal : ℕ
  pub label : String
  pub status : ChecklistStatus
  pub note : Option String
  pub completed_at : Option ℕ
  pub updated_at : ℕ

pub data AuditAction : Type 0 where
  work_item_created work_item_status_changed work_item_checklist_changed case_closed : AuditAction

pub data TargetType : Type 0 where
  work_item_target case_record_target : TargetType

-- The JSON of `before_state` and `after_state`.
pub data AuditState : Type 0 where
  created_state : WorkStatus → WorkPriority → AuditState
  work_state : WorkStatus → ℕ → AuditState
  checklist_state : ℕ → ChecklistStatus → AuditState
  case_state : CaseStatus → ℕ → AuditState
  closed_state : ℕ → CloseReason → ℕ → AuditState

-- The JSON of `reason`.
pub data AuditReason : Type 0 where
  source_user : AuditReason
  user_reason : String → AuditReason
  note_provided : Bool → AuditReason
  closure_reason : String → Bool → AuditReason

pub record AuditEvent : Type 0 where
  pub profile : String
  pub actor_user_id : ℕ
  pub correlation_id : ℕ
  pub idempotency_key : String
  pub action : AuditAction
  pub target_type : TargetType
  pub target_id : ℕ
  pub target_version : ℕ
  pub before_state : Option AuditState
  pub after_state : AuditState
  pub reason : AuditReason

pub record CaseRecord : Type 0 where
  pub case_id : ℕ
  pub status : CaseStatus
  pub source_status : SourceStatus
  pub version : ℕ
  pub close_reason : Option CloseReason
  pub closed_at : Option ℕ

pub record CaseClosure : Type 0 where
  pub case_closure_id : ℕ
  pub case_id : ℕ
  pub version : ℕ
  pub close_reason : CloseReason
  pub summary : String
  pub evidence_status : EvidenceStatus
  pub warning_acknowledged : Bool
  pub completed_work_item_count : ℕ
  pub discarded_work_item_count : ℕ
  pub idempotency_key : String

pub record EvidenceBundle : Type 0 where
  pub case_id : ℕ
  pub is_current : Bool
  pub status : EvidenceStatus

-- A recommended action with the case of its recommendation, and whether that recommendation is
-- DRAFT or READY.
pub record RecommendationAction : Type 0 where
  pub recommendation_action_id : ℕ
  pub case_id : ℕ
  pub recommendation_is_open : Bool
  pub status : ActionStatus

pub record Db : Type 0 where
  pub works : List WorkItem
  pub checklists : List ChecklistItem
  pub audits : List AuditEvent
  pub cases : List CaseRecord
  pub closures : List CaseClosure
  pub bundles : List EvidenceBundle
  pub actions : List RecommendationAction

pub data ContractCode : Type 0 where
  idempotency_key_required invalid_work_priority invalid_work_item invalid_checklist : ContractCode
  recommendation_action_unavailable recommendation_action_discarded : ContractCode
  case_not_found case_work_item_locked work_item_not_found work_item_version_conflict : ContractCode
  reason_required invalid_work_status invalid_work_transition : ContractCode
  invalid_checklist_status work_item_locked checklist_item_not_found : ContractCode
  invalid_close_reason closure_summary_required idempotency_key_conflict : ContractCode
  case_already_closed case_merged case_version_conflict source_not_resolved : ContractCode
  case_work_incomplete discard_reason_required evidence_warning_ack_required : ContractCode

-- A `WorkflowContractError` with its HTTP status, a row that the database refuses, or a
-- `RuntimeError`.
pub data WorkflowError : Type 0 where
  contract : ℕ → ContractCode → WorkflowError
  integrity_error : WorkflowError
  runtime_error : WorkflowError

-- The digest and the Unicode upper-casing that the program calls.
pub record Env : Type 0 where
  pub sha256 : String → String
  pub upper : String → String

-- Who asks.
pub record Actor : Type 0 where
  pub profile : String
  pub user_id : ℕ
  pub request_id : ℕ
