-- ===== src/Workflow/Agreement.antt =====
-- backend/app/workflow.py: what `case_closure_review` announces is what `close_case` enforces.
use esafe.Prelude.{
  ℕ, Bool, true, false, ◌≡◌, ◌↔◌, ◌&&◌, ◌||◌, not, refl, some, List, [], ◌∷◌, arith, ok, inl, inr,
  Bool-cases, length, filter, exists, select, ltb,
}
use esafe.Workflow.Rows.{WorkItem, AuditEvent, CaseRecord, CloseReason, Db}
use esafe.Workflow.Queries.{is_terminal, is_discarded, gives_discard_reason}
use esafe.Workflow.Closure.{
  CloseRequest, check_closable, is_closed, is_merged, has_case_id, works_of, incomplete, unreasoned,
  discard_reasoned, is_resolution, is_unresolved, is_sufficient, current_evidence,
}
use esafe.Workflow.Review.{ClosureReview, closure_review, is_incomplete}

-- A count is positive exactly if a row passes.
count-exists {ℓ} :
    {A : Type ℓ} (p q : A → Bool) (xs : List A)
    → ((a : A) → p a ≡ q a)
    → ltb 0 (length (filter p xs)) ≡ exists q xs
unfolding filter exists
count-exists p q [] same = refl
count-exists p q (x ∷ xs) same = elim (Bool-cases (p x)) [
  | inl y ↦ ground (arith, same x)
  | inr n ↦ rw n (rw (← same x) (rw n (count-exists p q xs same)))
]

incomplete_same : (w : WorkItem) → is_incomplete w.status ≡ not (is_terminal w.status)
incomplete_same w = ground arith

unreasoned_same :
    (audits : List AuditEvent) (w : WorkItem)
    → (is_discarded w.status && not (exists (gives_discard_reason w.work_item_id) audits))
      ≡ (is_discarded w.status && not (discard_reasoned audits w))
unfolding discard_reasoned
unreasoned_same audits w = ground arith

module _ (id : ℕ) (c : CaseRecord) (db : Db) (v : ClosureReview)
    (found : select (has_case_id id) db.cases ≡ some c)
    (review : closure_review id db ≡ some v) where
  -- The review of a case blocks nothing exactly if the guards on its status and its work pass.
  closure_review-clear : (v.blocking_reasons ≡ []) ↔ (
      (is_closed c.status ≡ false)
      × (is_merged c.status ≡ false)
      × (incomplete (filter (works_of id) db.works) ≡ false)
      × (unreasoned db.audits (filter (works_of id) db.works) ≡ false))
  unfolding closure_review incomplete unreasoned
  closure_review-clear =
      let works = filter (works_of id) db.works in
      let waiting =
        count-exists (λ w. is_incomplete w.status) (λ w. not (is_terminal w.status)) works
          incomplete_same in
      let silent =
        count-exists
          (λ w.
            is_discarded w.status && not (exists (gives_discard_reason w.work_item_id) db.audits))
          (λ w. is_discarded w.status && not (discard_reasoned db.audits w)) works
          (unreasoned_same db.audits) in
      ((λ h. ground arith), (λ h. ground arith))

-- Where a user asks to close the case from the version on record, does not call an unresolved case
-- resolved, and acknowledges evidence that is not sufficient, the review blocks nothing exactly if
-- the guards of the closing let it through.
pub closure_review-agrees :
    (r : CloseRequest) (reason : CloseReason) (c : CaseRecord) (db : Db) (v : ClosureReview)
    → select (has_case_id r.case_id) db.cases ≡ some c
    → closure_review r.case_id db ≡ some v
    → c.version ≡ r.expected_version
    → (is_resolution reason && is_unresolved c.source_status c.status) ≡ false
    → (is_sufficient (current_evidence r.case_id db.bundles) || r.warning_acknowledged) ≡ true
    → (v.blocking_reasons ≡ []) ↔ (
        check_closable reason
          (current_evidence r.case_id db.bundles)
          r
          c
          (filter (works_of r.case_id) db.works)
          db.audits
        ≡ ok tt)
unfolding check_closable
closure_review-agrees r reason c db v found review same told known =
    let clear = closure_review-clear r.case_id c db v found review in
    ((λ h. let (a, b, d, e) = clear.0 h in ground arith), (λ h. clear.1 (ground arith)))
