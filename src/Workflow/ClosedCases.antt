-- ===== src/Workflow/ClosedCases.antt =====
-- backend/app/workflow.py with backend/app/automation/case_rules.py: a closed case has no work left,
-- and it stays so.
use esafe.Prelude.{ℕ, true, ◌≡◌, subst, some, List, inl, inr, Bool-cases, All, All-map, select}
use esafe.Workflow.Rows.{WorkItem, AuditEvent, CaseRecord, Db, Env}
use esafe.Workflow.Queries.{is_terminal}
use esafe.Workflow.Requests.{Request, serve, serve_induction}
use esafe.Workflow.Closure.{is_closed, has_case_id, discard_reasoned}
use esafe.Workflow.CaseWork.{case_is_open, IsSettled, record_is_open}
use esafe.Workflow.Settled.{Settled, handle-Settled}

-- What a closed case says of a work item: it is completed, or discarded with a reason on record.
abbrev pub IsAccounted : List AuditEvent → WorkItem → Type 0
IsAccounted audits w = (is_terminal w.status ≡ true) × (discard_reasoned audits w ≡ true)

accounted :
    (id : ℕ) (c : CaseRecord) (cases : List CaseRecord) (audits : List AuditEvent) (w : WorkItem)
    → select (has_case_id id) cases ≡ some c
    → is_closed c.status ≡ true
    → IsSettled cases audits w
    → w.case_id ≡ some id
    → IsAccounted audits w
accounted id c cases audits w found shut s e = (
  elim (Bool-cases (is_terminal w.status)) [
    | inl y ↦ y
    | inr n ↦ absurd (
        let bad : case_is_open cases (some id) ≡ true = rw e at (s.0 n) in
        cc (subst (λ o. record_is_open o ≡ true) found bad, shut))
  ],
  s.1,
)

-- Take tables whose work items have unique keys and are settled: whatever calls users make and
-- signals arrive, in any order, a case that is then closed has only work items that are completed,
-- or discarded with the reason that the audit log gives.
pub serve-closed :
    (env : Env) (qs : List Request) (db : Db) (id : ℕ) (c : CaseRecord)
    → Settled db
    → select (has_case_id id) (serve env qs db).cases ≡ some c
    → is_closed c.status ≡ true
    → All
        (λ w. w.case_id ≡ some id → IsAccounted (serve env qs db).audits w)
        (serve env qs db).works
serve-closed env qs db id c h found shut =
    let after = serve_induction env Settled (handle-Settled env) qs db h in
    All-map (IsSettled (serve env qs db).cases (serve env qs db).audits) _ (serve env qs db).works
      (λ w s. accounted id c (serve env qs db).cases (serve env qs db).audits w found shut s)
      after.works
