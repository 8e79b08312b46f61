-- ===== src/Workflow/Review.antt =====
-- backend/app/workflow.py: `case_closure_review`, the conditions that a user sees before closing.
use esafe.Prelude.{
  ℕ, Bool, true, false, ◌&&◌, ◌||◌, not, Option, none, some, List, [], ◌∷◌, ◌++◌, ltb, length,
  select, exists, filter,
}
use esafe.Automation.Rules.{CaseStatus}
use esafe.Workflow.Rows.{WorkStatus, queued, running, waiting_approval, on_hold, failed, Db}
use esafe.Workflow.Queries.{is_discarded, gives_discard_reason}
use esafe.Workflow.Closure.{has_case_id, is_closed, is_merged, works_of, is_completed}

-- status IN ('QUEUED', 'RUNNING', 'WAITING_APPROVAL', 'ON_HOLD', 'FAILED')
abbrev pub is_incomplete : WorkStatus → Bool
is_incomplete queued = true
is_incomplete running = true
is_incomplete waiting_approval = true
is_incomplete on_hold = true
is_incomplete failed = true
is_incomplete _ = false

pub data BlockingReason : Type 0 where
  already_terminal work_incomplete discard_reason_missing : BlockingReason

pub record ClosureReview : Type 0 where
  pub incomplete_count : ℕ
  pub completed_count : ℕ
  pub discarded_count : ℕ
  pub unreasoned_discarded_count : ℕ
  pub blocking_reasons : List BlockingReason

abbrev when : Bool → BlockingReason → List BlockingReason
when true b = b ∷ []
when false b = []

unfoldable pub review_counts : CaseStatus → ℕ → ℕ → ℕ → ℕ → ClosureReview
review_counts status waiting finished dropped silent = record {
  incomplete_count = waiting;
  completed_count = finished;
  discarded_count = dropped;
  unreasoned_discarded_count = silent;
  blocking_reasons =
      when (is_closed status || is_merged status) already_terminal
      ++ (when (ltb 0 waiting) work_incomplete ++ when (ltb 0 silent) discard_reason_missing);
}

unfoldable pub closure_review : ℕ → Db → Option ClosureReview
unfolding review_counts
closure_review case_id db = elim (select (has_case_id case_id) db.cases) [
  | none ↦ none
  | some c ↦
      let works = filter (works_of case_id) db.works in
      some (
        review_counts c.status (length (filter (λ w. is_incomplete w.status) works))
          (length (filter (λ w. is_completed w.status) works))
          (length (filter (λ w. is_discarded w.status) works))
          (length (
            filter
              (λ w.
                is_discarded w.status
                && not (exists (gives_discard_reason w.work_item_id) db.audits))
              works)))
]
