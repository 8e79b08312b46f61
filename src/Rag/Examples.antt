-- ===== src/Rag/Examples.antt =====
-- backend/app/rag_search.py: runs, and the theorems at three candidates. The floats are numbers here.
use esafe.Prelude.{
  ℕ, true, ◌≡◌, ◌≤◌, ◌<◌, refl, none, some, List, [], ◌∷◌, ◌+◌, ◌-◌, ◌*◌, ◌/◌, arith, ◌==◌, ltb,
  leb, ◌||◌, length, exists, filter, sort_by, insert, All, if◌then◌else◌,
}
use esafe.Rag.Rows.{Floats, Group, official, past_incident, FusedCandidate}
use esafe.Rag.Selecting.{
  of_group, of_document, of_chunk, select_context, picked, fill_if_short, fill, group_passes,
  group_pass, is_barred, is_used, taken, context_order,
}
use esafe.Rag.Bundles.{Bundle, sufficient, insufficient, bundle_status}
use esafe.Rag.Bounds.{select_context_bounds}
use esafe.Rag.Complete.{select_context_complete}
use esafe.Rag.Evidence.{bundle_status_lem}

abbrev whole : Floats
whole = record {
  Float = ℕ;
  hundredths = λ n. n;
  reciprocal = λ n. 1_000_000 / n;
  plus = λ a b. a + b;
  minus = λ a b. a - b;
  times = λ a b. a * b;
  lt = ltb;
}

abbrev found : ℕ → ℕ → Group → ℕ → FusedCandidate whole
found chunk document group score = record {
  row = record {
    chunk_id = chunk;
    document_id = document;
    document_family = "LAW";
    regions = [];
    published_at = none;
    authority_level = 1;
    text_content = "Article";
    page_or_section = "1";
  };
  lexical_rank = some chunk;
  vector_rank = none;
  vector_similarity = none;
  fused_score = score;
  group = group;
}

-- The second and the third chunk are of one document.
abbrev four : List (FusedCandidate whole)
four =
    found 1 10 past_incident 90
    ∷ found 2 20 official 80
    ∷ found 3 20 official 70
    ∷ found 4 20 official 60
    ∷ []

four_selected :
    select_context whole four
    ≡ found 2 20 official 80 ∷ found 3 20 official 70 ∷ found 1 10 past_incident 90 ∷ []
unfolding select_context picked group_passes fill_if_short sort_by group_pass is_barred filter taken
    fill is_used exists insert context_order
four_selected = refl

select_context_bounds_example :
    (length (select_context whole four) ≤ 12)
    × (length (filter (of_document whole 20) (select_context whole four)) ≤ 2)
select_context_bounds_example = select_context_bounds whole four 20

few : length (select_context whole four) < 12
few = rw four_selected (ground arith)

select_context_complete_example :
    All
      (λ c.
        (exists (of_chunk whole c) (select_context whole four)
          || leb 2
              (length (filter (of_document whole c.row.document_id) (select_context whole four))))
        ≡ true)
      four
select_context_complete_example = select_context_complete whole four few

bundle_status_lem_example :
    bundle_status whole (select_context whole four)
    ≡ (if exists (of_group whole official) four then sufficient else insufficient)
bundle_status_lem_example = bundle_status_lem whole four

abbrev earlier : Bundle
earlier = record {
  evidence_bundle_id = 1;
  case_id = 7;
  version = 1;
  status = insufficient;
  query_text = "flood";
  candidate_count = 0;
  selected_count = 0;
  direct_citation_count = 0;
  warning = some "none found";
  is_current = true;
}

-- The first chunk is of document 10, and all others of document 20.
abbrev document_of : ℕ → ℕ
document_of k = if k == 1 then 10 else 20
