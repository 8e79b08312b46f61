-- ===== src/Workflow/CaseWork.antt =====
-- backend/app/workflow.py with backend/app/automation/case_rules.py: each kind of call keeps work
-- within open cases.
use esafe.Prelude.{
  ℕ, String, Bool, true, false, ◌≡◌, not, refl, Option, none, some, List, [], ◌∷◌, ◌++◌, arith, ok,
  inl, inr, Bool-cases, Option-cases, All, select, select_sound, select-update, exists,
  exists-append, filter, update, is_empty, strip, sql_trim-strip, ◌==◌,
}
use esafe.Automation.Rules.{CaseStatus, SourceStatus, next_case_status}
use esafe.Workflow.Rows.{
  WorkItem, WorkStatus, AuditEvent, CaseRecord, CloseReason, EvidenceStatus, Actor,
}
use esafe.Workflow.Queries.{
  has_work_id, allowed, is_terminal, is_discarded, gives_discard_reason, is_of,
}
use esafe.Workflow.Creation.{check_case}
use esafe.Workflow.Transition.{moved, TransitionRequest, transition_audit}
use esafe.Workflow.Requests.{refreshed}
use esafe.Workflow.Closure.{
  CloseRequest, is_closed, has_case_id, check_closable, closing, discard_reasoned, incomplete,
}

abbrev pub record_is_open : Option CaseRecord → Bool
record_is_open none = true
record_is_open (some c) = not (is_closed c.status)

-- The work item has no case, or its case is not closed.
abbrev pub case_is_open : List CaseRecord → Option ℕ → Bool
case_is_open cases none = true
case_is_open cases (some id) = record_is_open (select (has_case_id id) cases)

-- Work goes on only in a case that is open, and discarded work has its reason on record.
abbrev pub IsSettled : List CaseRecord → List AuditEvent → WorkItem → Type 0
IsSettled cases audits w =
    (is_terminal w.status ≡ false → case_is_open cases w.case_id ≡ true)
    × (discard_reasoned audits w ≡ true)

pub discard_reasoned-append :
    (audits : List AuditEvent) (a : AuditEvent) (w : WorkItem)
    → discard_reasoned audits w ≡ true
    → discard_reasoned (audits ++ a ∷ []) w ≡ true
unfolding discard_reasoned
discard_reasoned-append audits a w h =
    ground (arith, exists-append (gives_discard_reason w.work_item_id) audits (a ∷ []))

pub check_case_open :
    (id : ℕ) (cases : List CaseRecord)
    → check_case id cases ≡ ok tt
    → case_is_open cases (some id) ≡ true
unfolding check_case
check_case_open id cases h = ground arith

-- A discarding transition writes the reason.
transition_audit_reason :
    (who : Actor) (key : String) (r : TransitionRequest) (current : WorkStatus)
    (target : WorkStatus) (id : ℕ)
    → is_empty (strip r.reason) ≡ false
    → (id == r.work_item_id) ≡ true
    → is_discarded target ≡ true
    → gives_discard_reason id (transition_audit who key r current target) ≡ true
unfolding gives_discard_reason transition_audit
transition_audit_reason who key r current target id h same d =
    ground (arith, sql_trim-strip r.reason)

pub moved-IsSettled :
    (who : Actor) (now : ℕ) (key : String) (r : TransitionRequest) (target : WorkStatus)
    (cases : List CaseRecord) (audits : List AuditEvent) (w : WorkItem)
    → is_empty (strip r.reason) ≡ false
    → has_work_id r.work_item_id w ≡ true
    → allowed w.status target ≡ true
    → IsSettled cases audits w
    → IsSettled cases
        (audits ++ transition_audit who key r w.status target ∷ [])
        (moved now target w)
unfolding moved discard_reasoned exists
moved-IsSettled who now key r target cases audits w reason same move s = (
  (λ live. ground arith),
  ground (
    arith,
    transition_audit_reason who key r w.status target w.work_item_id reason same,
    exists-append (gives_discard_reason w.work_item_id) audits
        (transition_audit who key r w.status target ∷ []),
  ),
)

-- A closing leaves the other cases open.
pub closing_keeps :
    (now : ℕ) (reason : CloseReason) (version id : ℕ) (cases : List CaseRecord) (at : Option ℕ)
    → is_of id at ≡ false
    → case_is_open cases at ≡ true
    → case_is_open (update (has_case_id id) (closing now reason version) cases) at ≡ true
unfolding closing
closing_keeps now reason version id cases none other h = refl
closing_keeps now reason version id cases (some k) other h =
    rw
      (select-update (has_case_id k) (has_case_id id) (closing now reason version) cases
        (λ c. refl))
      (elim (Option-cases (select (has_case_id k) cases)) [
        | inl e ↦ rw e
        | inr (c, e) ↦ rw e (ground (arith, select_sound (has_case_id k) cases c e))
      ])

next_case_status-closed :
    (c : CaseStatus) (s : SourceStatus) → is_closed (next_case_status c s) ≡ is_closed c
unfolding next_case_status
next_case_status-closed c s = ground arith

-- A signal neither closes a case nor opens a closed one.
pub signal_keeps :
    (s : SourceStatus) (id : ℕ) (cases : List CaseRecord) (at : Option ℕ)
    → case_is_open cases at ≡ true
    → case_is_open (update (has_case_id id) (refreshed s) cases) at ≡ true
unfolding refreshed
signal_keeps s id cases none h = refl
signal_keeps s id cases (some k) h =
    rw (select-update (has_case_id k) (has_case_id id) (refreshed s) cases (λ c. refl))
      (elim (Option-cases (select (has_case_id k) cases)) [
        | inl e ↦ rw e
        | inr (c, e) ↦ rw e (ground (arith, next_case_status-closed c.status s))
      ])

-- The guard of a closing has found every work item of the case terminal.
pub guarded :
    (p : WorkItem → Bool) (works : List WorkItem)
    → incomplete (filter p works) ≡ false
    → All (λ w. p w ≡ true → is_terminal w.status ≡ true) works
unfolding incomplete exists filter
guarded p [] h = tt
guarded p (w ∷ works) h = elim (Bool-cases (p w)) [
  | inl y ↦ ((λ t. ground arith), guarded p works (ground arith))
  | inr n ↦ ((λ t. ground arith), guarded p works (ground arith))
]

pub check_closable-incomplete :
    (reason : CloseReason) (evidence : EvidenceStatus) (r : CloseRequest) (c : CaseRecord)
    (works : List WorkItem) (audits : List AuditEvent)
    → check_closable reason evidence r c works audits ≡ ok tt
    → incomplete works ≡ false
unfolding check_closable
check_closable-incomplete reason evidence r c works audits h = ground arith
