-- ===== src/Workflow/Effects/Checking.antt =====
-- backend/app/workflow.py: what `update_checklist_item` has changed when it returns.
use esafe.Prelude.{
  ℕ, String, false, ◌≡◌, inl, inr, some, List, [], ◌∷◌, ◌++◌, arith, ok, Option-cases,
  Outcome-cases, Bool-cases, select, exists, update, filter,
}
use esafe.Workflow.Rows.{WorkItem, ChecklistItem, ChecklistStatus, Db, Env, Actor}
use esafe.Workflow.Queries.{
  WorkDetail, insert_audit, validate_idempotency_key, parse_checklist_status, has_work_id,
  has_audit_key, audit_key, is_terminal, belongs_to,
}
use esafe.Workflow.Checklist.{
  ChecklistRequest, update_checklist_item, update_checklist_new, checklist_audit,
  checklist_progress, rescored, is_item_of, checked_rows,
}

-- A check that returns has replayed its key, or rescored a work item that is not terminal.
pub data CheckEffect (env : Env) (who : Actor) (now : ℕ) (r : ChecklistRequest) (db db' : Db)
    : Type 0 where
  replayed : db' ≡ db → CheckEffect env who now r db db'
  applied :
      (key : String) (before after : ChecklistStatus) (w : WorkItem) (items : List ChecklistItem)
      → select (has_work_id r.work_item_id) db.works ≡ some w
      → w.version ≡ r.expected_work_version
      → is_terminal w.status ≡ false
      → db'.works
        ≡ update (has_work_id r.work_item_id) (rescored now (checklist_progress items)) db.works
      → db'.audits ≡ db.audits ++ checklist_audit who (audit_key env key) r before after ∷ []
      → db'.cases ≡ db.cases
      → CheckEffect env who now r db db'

module _ (env : Env) (who : Actor) (now : ℕ) (r : ChecklistRequest) (db db' : Db)
    (d : WorkDetail) where
  update_checklist_new-effect :
      (key : String) (status : ChecklistStatus) (w : WorkItem)
      → select (has_work_id r.work_item_id) db.works ≡ some w
      → update_checklist_new who now (audit_key env key) status r w db ≡ ok (db', d)
      → CheckEffect env who now r db db'
  unfolding update_checklist_new insert_audit
  update_checklist_new-effect key status w ew h =
      elim (Option-cases (select (is_item_of r) db.checklists)) [
        | inl e ↦ ground arith
        | inr (item, ei) ↦
            applied key item.status status w
              (filter (belongs_to r.work_item_id) (checked_rows now status r db.checklists)) ew
              (ground arith) (ground arith) (ground arith) (ground arith) (ground arith)
      ]

  pub update_checklist_item-effect :
      update_checklist_item env who now r db ≡ ok (db', d) → CheckEffect env who now r db db'
  unfolding update_checklist_item
  update_checklist_item-effect h =
      elim (Outcome-cases (validate_idempotency_key r.idempotency_key)) [
        | inr (x, e) ↦ ground arith
        | inl (key, ek) ↦ elim (Option-cases (parse_checklist_status r.status)) [
          | inl e ↦ ground arith
          | inr (status, es) ↦ elim (Option-cases (select (has_work_id r.work_item_id) db.works)) [
            | inl e ↦ ground arith
            | inr (w, ew) ↦
                elim (Bool-cases (exists (has_audit_key (audit_key env key)) db.audits)) [
                  | inl old ↦ replayed (ground arith)
                  | inr new ↦ update_checklist_new-effect key status w ew (ground arith)
                ]
          ]
        ]
      ]
