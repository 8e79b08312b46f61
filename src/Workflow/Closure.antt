-- ===== src/Workflow/Closure.antt =====
-- backend/app/workflow.py: `close_case`.
use esafe.Prelude.{
  ℕ, ◌+◌, String, Bool, true, false, ◌&&◌, ◌||◌, not, Option, none, some, List, [], ◌∷◌, ◌++◌, max,
  ltb, ◌==◌, str_eq, if◌then◌else◌, strip, is_empty, text_length, concat, length, select, exists,
  filter, update, Outcome, ok, ◌>>=◌, ◌>>◌, raise_if,
}
use esafe.Automation.Rules.{
  CaseStatus, closed, merged, source_resolved_review, SourceStatus, source_resolved,
}
use esafe.Workflow.Rows.{
  WorkStatus, completed, WorkItem, AuditEvent, case_closed, case_record_target, case_state,
  closed_state, closure_reason, CaseRecord, CaseClosure, CloseReason, resolved, EvidenceBundle,
  EvidenceStatus, sufficient, insufficient, Db, WorkflowError, contract, integrity_error,
  invalid_close_reason, closure_summary_required, idempotency_key_conflict, case_not_found,
  case_already_closed, case_merged, case_version_conflict, source_not_resolved,
  case_work_incomplete, discard_reason_required, evidence_warning_ack_required, Env, Actor,
}
use esafe.Workflow.Queries.{
  validate_idempotency_key, audit_key, or_raise, parse_close_reason, is_terminal, is_discarded,
  is_of, gives_discard_reason, insert_audit,
}

pub record CloseRequest : Type 0 where
  pub idempotency_key : Option String
  pub case_id : ℕ
  pub expected_version : ℕ
  pub close_reason : String
  pub summary : String
  pub warning_acknowledged : Bool

abbrev pub has_case_id : ℕ → CaseRecord → Bool
has_case_id id c = c.case_id == id

abbrev pub is_closed : CaseStatus → Bool
is_closed closed = true
is_closed _ = false

abbrev pub is_merged : CaseStatus → Bool
is_merged merged = true
is_merged _ = false

abbrev pub is_resolution : CloseReason → Bool
is_resolution resolved = true
is_resolution _ = false

-- source_status <> 'RESOLVED' and status <> 'SOURCE_RESOLVED_REVIEW'
abbrev pub is_unresolved : SourceStatus → CaseStatus → Bool
is_unresolved source_resolved c = false
is_unresolved _ source_resolved_review = false
is_unresolved _ _ = true

abbrev pub is_sufficient : EvidenceStatus → Bool
is_sufficient sufficient = true
is_sufficient _ = false

abbrev pub works_of : ℕ → WorkItem → Bool
works_of case_id w = is_of case_id w.case_id

-- The column `discard_reasoned`.
unfoldable pub discard_reasoned : List AuditEvent → WorkItem → Bool
discard_reasoned audits w =
    not (is_discarded w.status) || exists (gives_discard_reason w.work_item_id) audits

unfoldable pub incomplete : List WorkItem → Bool
incomplete = exists (λ w. not (is_terminal w.status))

unfoldable pub unreasoned : List AuditEvent → List WorkItem → Bool
unreasoned audits = exists (λ w. is_discarded w.status && not (discard_reasoned audits w))

abbrev evidence_of : Option EvidenceBundle → EvidenceStatus
evidence_of none = insufficient
evidence_of (some b) = b.status

-- max(version) over the closures of a case.
unfoldable pub last_closure : ℕ → List CaseClosure → ℕ
last_closure case_id [] = 0
last_closure case_id (c ∷ cs) =
    let rest = last_closure case_id cs in if c.case_id == case_id then max c.version rest else rest

abbrev pub is_completed : WorkStatus → Bool
is_completed completed = true
is_completed _ = false

unfoldable pub closing : ℕ → CloseReason → ℕ → CaseRecord → CaseRecord
closing now reason version c = record c {
  status = closed;
  close_reason = some reason;
  closed_at = some now;
  version = version;
}

unfoldable pub new_closure :
    ℕ
    → String
    → String
    → CloseReason
    → EvidenceStatus
    → CloseRequest
    → List WorkItem
    → Db
    → CaseClosure
new_closure id key summary reason evidence r works db = record {
  case_closure_id = id;
  case_id = r.case_id;
  version = last_closure r.case_id db.closures + 1;
  close_reason = reason;
  summary = summary;
  evidence_status = evidence;
  warning_acknowledged = r.warning_acknowledged;
  completed_work_item_count = length (filter (λ w. is_completed w.status) works);
  discarded_work_item_count = length (filter (λ w. is_discarded w.status) works);
  idempotency_key = key;
}

-- INSERT INTO case_closure: the primary key, and ux_case_closure_completed, since every closure that
-- is recorded is COMPLETED. (The key was looked up before.)
unfoldable pub insert_closure :
    CaseClosure → List CaseClosure → Outcome WorkflowError (List CaseClosure)
insert_closure c closures = do
  raise_if (exists (λ d. d.case_closure_id == c.case_closure_id) closures) integrity_error
  raise_if (exists (λ d. d.case_id == c.case_id) closures) integrity_error
  ok (closures ++ c ∷ [])

unfoldable pub closing_audit :
    Env → Actor → ℕ → String → String → CloseReason → CloseRequest → CaseRecord → AuditEvent
closing_audit env who id key summary reason r c = record {
  profile = who.profile;
  actor_user_id = who.user_id;
  correlation_id = who.request_id;
  idempotency_key = audit_key env (concat "case-close:" key);
  action = case_closed;
  target_type = case_record_target;
  target_id = r.case_id;
  target_version = c.version + 1;
  before_state = some (case_state c.status c.version);
  after_state = closed_state (c.version + 1) reason id;
  reason = closure_reason summary r.warning_acknowledged;
}

-- The guards of a closing, in their order.
unfoldable pub check_closable :
    CloseReason
    → EvidenceStatus
    → CloseRequest
    → CaseRecord
    → List WorkItem
    → List AuditEvent
    → Outcome WorkflowError (Unit {0})
check_closable reason evidence r c works audits = do
  raise_if (is_closed c.status) (contract 409 case_already_closed)
  raise_if (is_merged c.status) (contract 409 case_merged)
  raise_if (not (c.version == r.expected_version)) (contract 409 case_version_conflict)
  raise_if (is_resolution reason && is_unresolved c.source_status c.status)
      (contract 409 source_not_resolved)
  raise_if (incomplete works) (contract 409 case_work_incomplete)
  raise_if (unreasoned audits works) (contract 409 discard_reason_required)
  raise_if (not (is_sufficient evidence) && not r.warning_acknowledged)
      (contract 409 evidence_warning_ack_required)

abbrev pub current_evidence : ℕ → List EvidenceBundle → EvidenceStatus
current_evidence case_id bundles =
    evidence_of (select (λ b. (b.case_id == case_id) && b.is_current) bundles)

-- The part of the transaction for a key that no closure has.
unfoldable pub close_new :
    Env
    → Actor
    → ℕ
    → ℕ
    → String
    → String
    → CloseReason
    → CloseRequest
    → CaseRecord
    → Db
    → Outcome WorkflowError (Db × Bool)
unfolding new_closure closing_audit
close_new env who now id key summary reason r c db = do
  let works = filter (works_of r.case_id) db.works
  let evidence = current_evidence r.case_id db.bundles
  check_closable reason evidence r c works db.audits
  closures ← insert_closure (new_closure id key summary reason evidence r works db) db.closures
  audits ← insert_audit (closing_audit env who id key summary reason r c) db.audits
  ok (
    record db {
      closures = closures;
      cases = update (has_case_id r.case_id) (closing now reason (c.version + 1)) db.cases;
      audits = audits;
    },
    false,
  )

-- The reply says whether the key had closed the case before (`reused`).
unfoldable pub close_case :
    Env → Actor → ℕ → ℕ → CloseRequest → Db → Outcome WorkflowError (Db × Bool)
close_case env who now id r db = do
  key ← validate_idempotency_key r.idempotency_key
  reason ←
      or_raise (parse_close_reason (env.upper (strip r.close_reason)))
        (contract 422 invalid_close_reason)
  raise_if (is_empty (strip r.summary) || ltb 4000 (text_length (strip r.summary)))
      (contract 422 closure_summary_required)
  elim (select (λ c. str_eq c.idempotency_key key) db.closures) [
    | some old ↦ do
      raise_if (not (old.case_id == r.case_id)) (contract 409 idempotency_key_conflict)
      ok (db, true)
    | none ↦ do
      c ← or_raise (select (has_case_id r.case_id) db.cases) (contract 404 case_not_found)
      close_new env who now id key (strip r.summary) reason r c db
  ]
