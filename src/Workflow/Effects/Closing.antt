-- ===== src/Workflow/Effects/Closing.antt =====
-- backend/app/workflow.py: what `close_case` has changed when it returns.
use esafe.Prelude.{
  ℕ, ◌+◌, String, Bool, ◌≡◌, inl, inr, some, [], ◌∷◌, ◌++◌, arith, ok, Option-cases, Outcome-cases,
  select, update, filter, str_eq, strip,
}
use esafe.Workflow.Rows.{CaseRecord, CloseReason, Db, Env, Actor}
use esafe.Workflow.Queries.{insert_audit, validate_idempotency_key, parse_close_reason}
use esafe.Workflow.Closure.{
  CloseRequest, close_case, close_new, check_closable, closing, closing_audit, has_case_id,
  works_of, insert_closure, current_evidence,
}

-- A closing that returns has found its key, or closed an existing case that passed every guard.
pub data CloseEffect (env : Env) (who : Actor) (now id : ℕ) (r : CloseRequest) (db db' : Db)
    : Type 0 where
  found : db' ≡ db → CloseEffect env who now id r db db'
  finished :
      (key summary : String) (reason : CloseReason) (c : CaseRecord)
      → select (has_case_id r.case_id) db.cases ≡ some c
      → check_closable reason
          (current_evidence r.case_id db.bundles)
          r
          c
          (filter (works_of r.case_id) db.works)
          db.audits
        ≡ ok tt
      → db'.works ≡ db.works
      → db'.audits ≡ db.audits ++ closing_audit env who id key summary reason r c ∷ []
      → db'.cases ≡ update (has_case_id r.case_id) (closing now reason (c.version + 1)) db.cases
      → CloseEffect env who now id r db db'

module _ (env : Env) (who : Actor) (now id : ℕ) (r : CloseRequest) (db db' : Db)
    (reused : Bool) where
  close_new-effect :
      (key summary : String) (reason : CloseReason) (c : CaseRecord)
      → select (has_case_id r.case_id) db.cases ≡ some c
      → close_new env who now id key summary reason r c db ≡ ok (db', reused)
      → CloseEffect env who now id r db db'
  unfolding close_new insert_audit insert_closure
  close_new-effect key summary reason c ec h =
      finished key summary reason c ec (ground arith) (ground arith) (ground arith) (ground arith)

  pub close_case-effect :
      close_case env who now id r db ≡ ok (db', reused) → CloseEffect env who now id r db db'
  unfolding close_case
  close_case-effect h = elim (Outcome-cases (validate_idempotency_key r.idempotency_key)) [
    | inr (x, e) ↦ ground arith
    | inl (key, ek) ↦ elim (Option-cases (parse_close_reason (env.upper (strip r.close_reason)))) [
      | inl e ↦ ground arith
      | inr (reason, er) ↦
          elim (Option-cases (select (λ c. str_eq c.idempotency_key key) db.closures)) [
            | inr (old, eo) ↦ found (ground arith)
            | inl e ↦ elim (Option-cases (select (has_case_id r.case_id) db.cases)) [
              | inl e ↦ ground arith
              | inr (c, ec) ↦ close_new-effect key (strip r.summary) reason c ec (ground arith)
            ]
          ]
    ]
  ]
