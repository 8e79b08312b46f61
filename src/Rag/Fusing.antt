-- ===== src/Rag/Fusing.antt =====
-- backend/app/rag_search.py: `fuse_candidates`. The dictionary of candidates is the list of its values in
-- the order of their first insertion.
use esafe.Prelude.{
  ℕ, suc, String, Bool, true, ◌&&◌, ◌||◌, not, Option, none, some, List, [], ◌∷◌, ◌++◌, ◌+◌, ltb,
  leb, ◌==◌, is_some, if◌then◌else◌, exists, filter, update, sort_by, Outcome, ok, err, ◌>>=◌,
}
use esafe.Rag.Rows.{
  Floats, official, ChunkRow, FusedCandidate, TextTests, candidate_group, authority_weight,
  region_weight, freshness_weight,
}

pub data FuseError : Type 0 where
  key_error : FuseError

abbrev rrf_k : ℕ
rrf_k = 60

module _ (fl : Floats) where
  abbrev pub has_chunk : ℕ → FusedCandidate fl → Bool
  has_chunk id c = c.row.chunk_id == id

  -- `FusedCandidate(row=row)`
  unfoldable pub new_candidate : ChunkRow → FusedCandidate fl
  new_candidate row = record {
    row = row;
    lexical_rank = none;
    vector_rank = none;
    vector_similarity = none;
    fused_score = fl.hundredths 0;
    group = official;
  }

  -- `fused.setdefault(...)`, and an assignment to what it returns.
  unfoldable pub set_default :
      ChunkRow
      → (FusedCandidate fl → FusedCandidate fl)
      → List (FusedCandidate fl)
      → List (FusedCandidate fl)
  set_default row f fused =
      update (has_chunk row.chunk_id) f
        (if exists (has_chunk row.chunk_id) fused then fused else fused ++ new_candidate row ∷ [])

  abbrev with_lexical : ℕ → FusedCandidate fl → FusedCandidate fl
  with_lexical rank c = record c { lexical_rank = some rank }

  abbrev with_vector : ℕ → fl.Float → FusedCandidate fl → FusedCandidate fl
  with_vector rank distance c = record c {
    vector_rank = some rank;
    vector_similarity = some (fl.minus (fl.hundredths 100) distance);
  }

  -- The rows of the lexical search, of which the first has that rank.
  unfoldable pub add_lexical :
      ℕ → List ChunkRow → List (FusedCandidate fl) → List (FusedCandidate fl)
  add_lexical rank [] fused = fused
  add_lexical rank (row ∷ rows) fused =
      add_lexical (suc rank) rows (set_default row (with_lexical rank) fused)

  -- The rows of the vector search with their distances.
  unfoldable pub add_vector :
      ℕ → List (ChunkRow × fl.Float) → List (FusedCandidate fl) → List (FusedCandidate fl)
  add_vector rank [] fused = fused
  add_vector rank ((row, distance) ∷ rows) fused =
      add_vector (suc rank) rows (set_default row (with_vector rank distance) fused)

  abbrev is_far : Option fl.Float → Bool
  is_far none = true
  is_far (some similarity) = fl.lt similarity (fl.hundredths 20)

  -- The candidate is passed over.
  unfoldable pub is_weak : FusedCandidate fl → Bool
  is_weak c = not (is_some c.lexical_rank) && is_far c.vector_similarity

  abbrev add_rank : fl.Float → Option ℕ → fl.Float
  add_rank base none = base
  add_rank base (some rank) = fl.plus base (fl.reciprocal (rrf_k + rank))

  abbrev weigh :
      TextTests
      → Option String
      → ℕ
      → FusedCandidate fl
      → Option ℕ
      → Outcome FuseError (FusedCandidate fl)
  weigh t region today c none = err key_error
  weigh t region today c (some authority) =
      let base = add_rank (add_rank (fl.hundredths 0) c.lexical_rank) c.vector_rank in
      ok (record c {
        fused_score =
            fl.times
              (fl.times (fl.times base (fl.hundredths authority))
                (fl.hundredths (freshness_weight c.row.published_at today)))
              (fl.hundredths (region_weight t c.row.regions region));
        group = candidate_group c.row;
      })

  -- The candidate with its score and its group.
  unfoldable pub score :
      TextTests → Option String → ℕ → FusedCandidate fl → Outcome FuseError (FusedCandidate fl)
  score t region today c = weigh t region today c (authority_weight c.row.authority_level)

  unfoldable pub score_all :
      TextTests
      → Option String
      → ℕ
      → List (FusedCandidate fl)
      → Outcome FuseError (List (FusedCandidate fl))
  score_all t region today [] = ok []
  score_all t region today (c ∷ cs) = do
    s ← score t region today c
    rest ← score_all t region today cs
    ok (s ∷ rest)

  -- (-fused_score, authority_level, chunk_id)
  unfoldable pub fused_order : FusedCandidate fl → FusedCandidate fl → Bool
  fused_order a b =
      fl.lt b.fused_score a.fused_score
      || (not (fl.lt a.fused_score b.fused_score)
          && (ltb a.row.authority_level b.row.authority_level
              || (a.row.authority_level == b.row.authority_level
                  && leb a.row.chunk_id b.row.chunk_id)))

  -- `fuse_candidates`
  unfoldable pub fuse_candidates :
      TextTests
      → Option String
      → ℕ
      → List ChunkRow
      → List (ChunkRow × fl.Float)
      → Outcome FuseError (List (FusedCandidate fl))
  fuse_candidates t region today lexical vector = do
    let fused = add_vector 1 vector (add_lexical 1 lexical [])
    scored ← score_all t region today (filter (λ c. not (is_weak c)) fused)
    ok (sort_by fused_order scored)
