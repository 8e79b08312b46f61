-- ===== src/Workflow/Effects.antt =====
-- backend/app/workflow.py: what a call that returned has changed, read off once for all proofs.
pub mod Creation
pub mod Checking
pub mod Closing
use esafe.Prelude.{
  ℕ, ◌+◌, String, Bool, true, false, ◌≡◌, refl, ◌⊎◌, inl, inr, not, Option, none, some, is_some,
  List, [], ◌∷◌, ◌++◌, arith, ok, err, Bool-cases, Option-cases, Outcome-cases, select, exists,
  update, filter, is_empty, strip, str_eq, ◌==◌,
}
use esafe.Automation.Rules.{CaseStatus}
use esafe.Workflow.Rows.{
  WorkItem, WorkStatus, WorkPriority, CaseRecord, CloseReason, ChecklistStatus, Db, Env, Actor,
  EvidenceStatus,
}
use esafe.Workflow.Queries.{
  WorkDetail, work_item_detail, insert_audit, allowed, has_work_id, has_audit_key, is_terminal,
  belongs_to, audit_key, validate_idempotency_key, parse_work_status,
}
use esafe.Workflow.Creation.{
  CreateRequest, create_case_work_item, create_new, check_action, check_case, insert_work,
  new_work_item, creation_audit,
}
use esafe.Workflow.Transition.{
  TransitionRequest, transition_work_item, transition_new, transition_audit, moved,
}

pub transition_new-effect :
    (who : Actor) (now : ℕ) (key : String) (target : WorkStatus) (r : TransitionRequest)
    (w : WorkItem) (db db' : Db) (d : WorkDetail)
    → transition_new who now key target r w db ≡ ok (db', d)
    → (w.version ≡ r.expected_version)
      × (allowed w.status target ≡ true)
      × (db'.works ≡ update (has_work_id r.work_item_id) (moved now target) db.works)
      × (db'.audits ≡ db.audits ++ transition_audit who key r w.status target ∷ [])
      × (db'.cases ≡ db.cases)
unfolding transition_new insert_audit
transition_new-effect who now key target r w db db' d h = ground arith

-- A transition that returns has replayed its key, or made one allowed move of the work item.
pub data TransitionEffect (env : Env) (who : Actor) (now : ℕ) (r : TransitionRequest) (db db' : Db)
    : Type 0 where
  replayed : db' ≡ db → TransitionEffect env who now r db db'
  applied :
      (key : String) (target : WorkStatus) (w : WorkItem)
      → select (has_work_id r.work_item_id) db.works ≡ some w
      → parse_work_status r.target_status ≡ some target
      → w.version ≡ r.expected_version
      → allowed w.status target ≡ true
      → is_empty (strip r.reason) ≡ false
      → db'.works ≡ update (has_work_id r.work_item_id) (moved now target) db.works
      → db'.audits ≡ db.audits ++ transition_audit who (audit_key env key) r w.status target ∷ []
      → db'.cases ≡ db.cases
      → TransitionEffect env who now r db db'

module _ (env : Env) (who : Actor) (now : ℕ) (r : TransitionRequest) (db db' : Db) (d : WorkDetail)
    (h : transition_work_item env who now r db ≡ ok (db', d)) where
  transition_found :
      (key : String) (target : WorkStatus) (w : WorkItem)
      → validate_idempotency_key r.idempotency_key ≡ ok key
      → parse_work_status r.target_status ≡ some target
      → select (has_work_id r.work_item_id) db.works ≡ some w
      → TransitionEffect env who now r db db'
  unfolding transition_work_item
  transition_found key target w ek et ew =
      elim (Bool-cases (exists (has_audit_key (audit_key env key)) db.audits)) [
        | inl old ↦ replayed (ground arith)
        | inr new ↦
            let (same, move, works, audits, cases) =
              transition_new-effect who now (audit_key env key) target r w db db' d
                (ground arith) in
            applied key target w ew et same move (ground arith) works audits cases
      ]

  pub transition_work_item-effect : TransitionEffect env who now r db db'
  unfolding transition_work_item
  transition_work_item-effect = elim (Outcome-cases (validate_idempotency_key r.idempotency_key)) [
    | inr (x, e) ↦ ground arith
    | inl (key, ek) ↦ elim (Option-cases (parse_work_status r.target_status)) [
      | inl e ↦ ground arith
      | inr (target, et) ↦ elim (Option-cases (select (has_work_id r.work_item_id) db.works)) [
        | inl e ↦ ground arith
        | inr (w, ew) ↦ transition_found key target w ek et ew
      ]
    ]
  ]
