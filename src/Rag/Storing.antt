-- ===== src/Rag/Storing.antt =====
-- backend/app/rag_search.py: the bundle that a retrieval stores is the current one of its case.
use esafe.Prelude.{ℕ, String, false, List, update}
use esafe.Rag.Rows.{Floats, FusedCandidate}
use esafe.Rag.Selecting.{select_context}
use esafe.Rag.Bundles.{Bundle, is_current_of, new_bundle}

-- UPDATE evidence_bundle SET is_current = false
abbrev pub retired : ℕ → List Bundle → List Bundle
retired id bundles = update (is_current_of id) (λ b. record b { is_current = false }) bundles

module _ (fl : Floats) (id case_id : ℕ) (query : String) (cs : List (FusedCandidate fl))
    (bundles : List Bundle) where
  -- The bundle that a retrieval stores.
  abbrev pub bundle_of : Bundle
  bundle_of = new_bundle fl id case_id query bundles cs (select_context fl cs)
