-- ===== src/Workflow/Effects/Creation.antt =====
-- backend/app/workflow.py: what `create_case_work_item` has changed when it returns.
use esafe.Prelude.{
  ℕ, String, false, ◌≡◌, inl, inr, List, [], ◌∷◌, ◌++◌, arith, ok, Option-cases, Outcome-cases,
  select, exists, str_eq,
}
use esafe.Workflow.Rows.{WorkPriority, Db, Env, Actor}
use esafe.Workflow.Queries.{
  WorkDetail, insert_audit, validate_idempotency_key, parse_priority, has_work_id,
}
use esafe.Workflow.Creation.{
  CreateRequest, create_case_work_item, create_new, check_case, insert_work, new_work_item,
  creation_audit, clean_labels,
}

-- A creation that returns has found its key, or added one queued item to a case that is open.
pub data CreateEffect (env : Env) (who : Actor) (now id : ℕ) (r : CreateRequest) (db db' : Db)
    : Type 0 where
  found : db' ≡ db → CreateEffect env who now id r db db'
  created :
      (key : String) (priority : WorkPriority)
      → check_case r.case_id db.cases ≡ ok tt
      → exists (has_work_id id) db.works ≡ false
      → db'.works ≡ db.works ++ new_work_item env now id key priority r ∷ []
      → db'.audits ≡ db.audits ++ creation_audit env who id key priority ∷ []
      → db'.cases ≡ db.cases
      → CreateEffect env who now id r db db'

module _ (env : Env) (who : Actor) (now id : ℕ) (uuids : ℕ → ℕ) (r : CreateRequest) (db db' : Db)
    (d : WorkDetail) where
  create_new-effect :
      (key : String) (priority : WorkPriority) (labels : List String)
      → create_new env who now id uuids key priority labels r db ≡ ok (db', d)
      → CreateEffect env who now id r db db'
  unfolding create_new insert_work insert_audit new_work_item
  create_new-effect key priority labels h =
      created key priority (ground arith) (ground arith) (ground arith) (ground arith)
        (ground arith)

  pub create_case_work_item-effect :
      create_case_work_item env who now id uuids r db ≡ ok (db', d)
      → CreateEffect env who now id r db db'
  unfolding create_case_work_item
  create_case_work_item-effect h =
      elim (Outcome-cases (validate_idempotency_key r.idempotency_key)) [
        | inr (x, e) ↦ ground arith
        | inl (key, ek) ↦ elim (Option-cases (parse_priority r.priority)) [
          | inl e ↦ ground arith
          | inr (priority, ep) ↦
              elim (Option-cases (select (λ w. str_eq w.idempotency_key key) db.works)) [
                | inr (w, ew) ↦ found (ground arith)
                | inl e ↦
                    create_new-effect key priority (clean_labels r.checklist_labels) (ground arith)
              ]
        ]
      ]
