-- ===== src/Rag/Items.antt =====
-- backend/app/rag_search.py: the items of a bundle meet the constraints of their table.
use esafe.Prelude.{
  ℕ, suc, true, false, ◌≡◌, ◌≤◌, ◌<◌, refl, ap, sym, ◌∙◌, subst, List, [], ◌∷◌, ◌++◌, ◌+◌, arith,
  inl, inr, Bool-cases, ◌==◌, length, exists, filter, All, All-append, All-map, ok,
}
use esafe.Rag.Rows.{Floats, Group, official, past_incident, other_region, FusedCandidate}
use esafe.Rag.Selecting.{same_group, of_group}
use esafe.Rag.Distinct.{chunk_is, IsStorable}
use esafe.Rag.Bundles.{Item, item_of, new_items, check_item, clashes, insert_items}

append_nil {ℓ} : {A : Type ℓ} (xs : List A) → xs ++ [] ≡ xs
append_nil [] = refl
append_nil (x ∷ xs) = ap (λ ys. x ∷ ys) (append_nil xs)

append_snoc {ℓ} :
    {A : Type ℓ} (xs : List A) (y : A) (zs : List A) → (xs ++ y ∷ []) ++ zs ≡ xs ++ y ∷ zs
append_snoc [] y zs = refl
append_snoc (x ∷ xs) y zs = ap (λ ys. x ∷ ys) (append_snoc xs y zs)

module _ (fl : Floats) (document_of : ℕ → ℕ) where
  -- What is stored for a bundle after these candidates: chunks of theirs, and ranks up to their number.
  abbrev IsBehind : ℕ → List (FusedCandidate fl) → Item fl → Type 0
  IsBehind id seen i =
      (i.evidence_bundle_id == id) ≡ true
      → (0 < length (filter (chunk_is fl document_of i.chunk_id) seen))
        × (i.rank ≤ length (filter (of_group fl i.evidence_group) seen))

  IsBehind-cons :
      (id : ℕ) (seen : List (FusedCandidate fl)) (c : FusedCandidate fl) (i : Item fl)
      → IsBehind id seen i
      → IsBehind id (c ∷ seen) i
  unfolding filter
  IsBehind-cons id seen c i h y = let (chunk, rank) = h y in (ground arith, ground arith)

  item_of-IsBehind :
      (id : ℕ) (seen : List (FusedCandidate fl)) (c : FusedCandidate fl)
      → IsBehind id (c ∷ seen) (item_of fl id (suc (length (filter (of_group fl c.group) seen))) c)
  unfolding filter item_of
  item_of-IsBehind id seen c y = (ground arith, ground arith)

  same_group_count :
      (g k : Group) (seen : List (FusedCandidate fl))
      → same_group g k ≡ true
      → length (filter (of_group fl g) seen) ≡ length (filter (of_group fl k) seen)
  same_group_count official official seen h = refl
  same_group_count past_incident past_incident seen h = refl
  same_group_count other_region other_region seen h = refl
  same_group_count official past_incident seen h = absurd cc
  same_group_count official other_region seen h = absurd cc
  same_group_count past_incident official seen h = absurd cc
  same_group_count past_incident other_region seen h = absurd cc
  same_group_count other_region official seen h = absurd cc
  same_group_count other_region past_incident seen h = absurd cc

  no_clash :
      (id : ℕ) (seen : List (FusedCandidate fl)) (c : FusedCandidate fl) (items : List (Item fl))
      → length (filter (chunk_is fl document_of c.row.chunk_id) seen) ≡ 0
      → All (IsBehind id seen) items
      → exists
          (clashes fl (item_of fl id (suc (length (filter (of_group fl c.group) seen))) c))
          items
        ≡ false
  unfolding exists clashes item_of
  no_clash id seen c [] new h = refl
  no_clash id seen c (i ∷ items) new h =
      let rest = no_clash id seen c items new h.1 in
      elim (Bool-cases (i.evidence_bundle_id == id)) [
        | inr n ↦ rw n rest
        | inl y ↦
            let (chunk, rank) = h.0 y in
            elim (Bool-cases (i.chunk_id == c.row.chunk_id)) [
              | inl same ↦
                  let there : 0 < length (filter (chunk_is fl document_of c.row.chunk_id) seen) =
                    subst (λ k. 0 < length (filter (chunk_is fl document_of k) seen)) (ground arith)
                      chunk in
                  absurd (omega (arith, there, new))
              | inr other ↦ elim (Bool-cases (same_group i.evidence_group c.group)) [
                | inr d ↦ rw (y, other, d) rest
                | inl g ↦
                    let count = same_group_count i.evidence_group c.group seen g in
                    let later : (i.rank == suc (length (filter (of_group fl c.group) seen)))
                        ≡ false =
                      ground (arith, rank, count) in
                    rw (y, other, g, later) rest
              ]
            ]
      ]

  checked_item :
      (id n : ℕ) (c : FusedCandidate fl)
      → check_item fl (item_of fl 0 1 c) ≡ true
      → check_item fl (item_of fl id (suc n) c) ≡ true
  unfolding check_item item_of
  checked_item id n c h = ground arith

  moved_over :
      (c : FusedCandidate fl) (seen cs : List (FusedCandidate fl))
      → ((k : ℕ)
          → length (filter (chunk_is fl document_of k) seen)
              + length (filter (chunk_is fl document_of k) (c ∷ cs))
            ≤ 1)
      → (k : ℕ)
      → length (filter (chunk_is fl document_of k) (c ∷ seen))
          + length (filter (chunk_is fl document_of k) cs)
        ≤ 1
  unfolding filter
  moved_over c seen cs h k = ground (arith, h k)

  -- Items of storable candidates with chunks of their own are never refused.
  pub insert_items-new_items :
      (id : ℕ) (seen cs : List (FusedCandidate fl)) (items : List (Item fl))
      → All (IsStorable fl document_of) cs
      → ((k : ℕ)
          → length (filter (chunk_is fl document_of k) seen)
              + length (filter (chunk_is fl document_of k) cs)
            ≤ 1)
      → All (IsBehind id seen) items
      → insert_items fl (new_items fl id seen cs) items ≡ ok (items ++ new_items fl id seen cs)
  unfolding insert_items new_items
  insert_items-new_items id seen [] items q h behind = ap ok (sym (append_nil items))
  insert_items-new_items id seen (c ∷ cs) items q h behind =
      let rank = suc (length (filter (of_group fl c.group) seen)) in
      let new = item_of fl id rank c in
      let free : length (filter (chunk_is fl document_of c.row.chunk_id) seen) ≡ 0 =
        unfold filter in ground (arith, h c.row.chunk_id) in
      let checked : check_item fl new ≡ true =
        checked_item id (length (filter (of_group fl c.group) seen)) c q.0.1 in
      let rest =
        insert_items-new_items id (c ∷ seen) cs (items ++ new ∷ []) q.1 (moved_over c seen cs h) (
          All-append (IsBehind id (c ∷ seen)) items (new ∷ [])
            (All-map (IsBehind id seen) (IsBehind id (c ∷ seen)) items (IsBehind-cons id seen c)
              behind)
            (item_of-IsBehind id seen c, tt)) in
      rw (checked, no_clash id seen c items free behind)
        (rest ∙ ap ok (append_snoc items new (new_items fl id (c ∷ seen) cs)))

  pub fresh_items :
      (id : ℕ) (items : List (Item fl))
      → exists (λ i. i.evidence_bundle_id == id) items ≡ false
      → All (IsBehind id []) items
  unfolding exists
  fresh_items id [] h = tt
  fresh_items id (i ∷ items) h = ((λ y. absurd (ground arith)), fresh_items id items (ground arith))
