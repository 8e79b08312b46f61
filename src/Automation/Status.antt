-- ===== src/Automation/Status.antt =====
-- backend/app/automation/case_rules.py: the status of a case over the signals that it receives.
use esafe.Prelude.{◌≡◌, ◌↔◌, Bool, true, false, List, [], ◌∷◌, ◌++◌, arith}
use esafe.Automation.Rules.{
  CaseStatus, closed, merged, source_resolved_review, SourceStatus, source_resolved,
  next_case_status,
}

-- The aggregate source status of a case, refresh after refresh.
unfoldable pub follow : CaseStatus → List SourceStatus → CaseStatus
follow c [] = c
follow c (s ∷ ss) = follow (next_case_status c s) ss

abbrev pub is_final : CaseStatus → Bool
is_final closed = true
is_final merged = true
is_final _ = false

next-final : (c : CaseStatus) (s : SourceStatus) → is_final (next_case_status c s) ≡ is_final c
unfolding next_case_status
next-final c s = ground arith

next-review :
    (c : CaseStatus) (s : SourceStatus)
    → is_final c ≡ false
    → (next_case_status c s ≡ source_resolved_review) ↔ (s ≡ source_resolved)
unfolding next_case_status
next-review c s h = ((λ e. ground arith), (λ e. ground arith))

-- A case that is neither closed nor merged awaits review after a sequence of signals exactly if the
-- last of them was resolved, whatever came before.
pub follow-review :
    (c : CaseStatus) (ss : List SourceStatus) (last : SourceStatus)
    → is_final c ≡ false
    → (follow c (ss ++ last ∷ []) ≡ source_resolved_review) ↔ (last ≡ source_resolved)
unfolding follow
follow-review c [] last h = next-review c last h
follow-review c (s ∷ ss) last h =
    follow-review (next_case_status c s) ss last (ground (arith, next-final c s))
