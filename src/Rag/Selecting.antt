-- ===== src/Rag/Selecting.antt =====
-- backend/app/rag_search.py: `select_context`.
use esafe.Prelude.{
  ℕ, suc, Bool, true, false, ◌&&◌, ◌||◌, not, List, [], ◌∷◌, ◌++◌, ltb, leb, ◌==◌, if◌then◌else◌,
  length, exists, filter, sort_by,
}
use esafe.Rag.Rows.{Floats, Group, official, past_incident, other_region, FusedCandidate}

abbrev pub max_selected : ℕ
max_selected = 12

abbrev pub cap : Group → ℕ
cap official = 6
cap past_incident = 4
cap other_region = 2

abbrev pub same_group : Group → Group → Bool
same_group official official = true
same_group past_incident past_incident = true
same_group other_region other_region = true
same_group _ _ = false

-- The place of a group in the result.
abbrev pub place : Group → ℕ
place official = 0
place past_incident = 1
place other_region = 2

module _ (fl : Floats) where
  abbrev pub of_group : Group → FusedCandidate fl → Bool
  of_group g c = same_group c.group g

  abbrev pub of_document : ℕ → FusedCandidate fl → Bool
  of_document d c = c.row.document_id == d

  abbrev pub of_chunk : FusedCandidate fl → FusedCandidate fl → Bool
  of_chunk c d = d.row.chunk_id == c.row.chunk_id

  -- `selected` and `per_document`; `selected_ids` is the chunk ids of `selected`.
  pub record Picked : Type 0 where
    pub selected : List (FusedCandidate fl)
    pub per_document : ℕ → ℕ

  abbrev pub none_picked : Picked
  none_picked = record { selected = []; per_document = λ d. 0 }

  -- The candidate is appended, and `write` gives the new count of its document.
  unfoldable pub taken : (ℕ → ℕ) → FusedCandidate fl → Picked → Picked
  taken write c s = record {
    selected = s.selected ++ c ∷ [];
    per_document =
        λ d. if c.row.document_id == d then write (s.per_document d) else s.per_document d;
  }

  -- The candidate is passed over in the pass of a group.
  unfoldable pub is_barred : Group → FusedCandidate fl → Picked → Bool
  is_barred g c s =
      not (of_group g c)
      || leb 1 (s.per_document c.row.document_id)
      || leb (cap g) (length (filter (of_group g) s.selected))

  -- The pass of one group.
  unfoldable pub group_pass : Group → List (FusedCandidate fl) → Picked → Picked
  group_pass g [] s = s
  group_pass g (c ∷ cs) s = group_pass g cs (if is_barred g c s then s else taken suc c s)

  unfoldable pub is_used : ℕ → FusedCandidate fl → Picked → Bool
  is_used limit c s = exists (of_chunk c) s.selected || leb limit (s.per_document c.row.document_id)

  -- The second and the third pass, up to `limit` chunks of a document.
  unfoldable pub fill : ℕ → (ℕ → ℕ) → List (FusedCandidate fl) → Picked → Picked
  fill limit write [] s = s
  fill limit write (c ∷ cs) s =
      let next = if is_used limit c s then s else taken write c s in
      let rest = fill limit write cs next in
      if not (is_used limit c s) && length next.selected == max_selected then next else rest

  unfoldable pub fill_if_short : ℕ → (ℕ → ℕ) → List (FusedCandidate fl) → Picked → Picked
  fill_if_short limit write cs s =
      if ltb (length s.selected) max_selected then fill limit write cs s else s

  unfoldable pub group_passes : List (FusedCandidate fl) → Picked
  group_passes cs =
      group_pass other_region cs (group_pass past_incident cs (group_pass official cs none_picked))

  unfoldable pub picked : List (FusedCandidate fl) → Picked
  picked cs = fill_if_short 2 suc cs (fill_if_short 1 (λ n. 1) cs (group_passes cs))

  -- (place of the group, -fused_score); equal ones keep their order.
  unfoldable pub context_order : FusedCandidate fl → FusedCandidate fl → Bool
  context_order a b =
      ltb (place a.group) (place b.group)
      || (place a.group == place b.group && not (fl.lt a.fused_score b.fused_score))

  -- `select_context`
  unfoldable pub select_context : List (FusedCandidate fl) → List (FusedCandidate fl)
  select_context cs = sort_by context_order (picked cs).selected
