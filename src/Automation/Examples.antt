-- ===== src/Automation/Examples.antt =====
-- backend/app/automation/case_rules.py: a fire that is reported, updated and put out.
use esafe.Prelude.{◌≡◌, ◌↔◌, refl, List, [], ◌∷◌, ◌++◌}
use esafe.Automation.Rules.{
  active, source_resolved_review, SourceStatus, source_active, source_updated, source_resolved,
}
use esafe.Automation.Status.{follow, follow-review}

abbrev reports : List SourceStatus
reports = source_active ∷ source_resolved ∷ source_updated ∷ []

follow-review_example :
    (follow active (reports ++ source_resolved ∷ []) ≡ source_resolved_review)
    ↔ (source_resolved ≡ source_resolved)
follow-review_example = follow-review active reports source_resolved refl
