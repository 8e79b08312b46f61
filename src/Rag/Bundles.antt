-- ===== src/Rag/Bundles.antt =====
-- backend/app/rag_search.py: what `run_case_retrieval` makes of the selected candidates and stores
-- (migration 20260729_0009_evidence_workflow.py).
use esafe.Prelude.{
  ℕ, suc, String, Bool, Option, none, some, is_some, is_empty, trim_by, text_length, true, false,
  ◌&&◌, ◌||◌, not, List, [], ◌∷◌, ◌++◌, ◌+◌, max, ltb, leb, ◌==◌, if◌then◌else◌, length, exists,
  filter, update, Outcome, ok, ◌>>=◌, ◌>>◌, raise_if,
}
use esafe.Rag.Rows.{Floats, Group, official, FusedCandidate}
use esafe.Rag.Selecting.{same_group, of_group, select_context}

pub data BundleStatus : Type 0 where
  sufficient insufficient : BundleStatus

pub record Bundle : Type 0 where
  pub evidence_bundle_id : ℕ
  pub case_id : ℕ
  pub version : ℕ
  pub status : BundleStatus
  pub query_text : String
  pub candidate_count : ℕ
  pub selected_count : ℕ
  pub direct_citation_count : ℕ
  pub warning : Option String
  pub is_current : Bool

pub record Item (fl : Floats) : Type 0 where
  pub evidence_bundle_id : ℕ
  pub chunk_id : ℕ
  pub evidence_group : Group
  pub rank : ℕ
  pub lexical_rank : Option ℕ
  pub vector_rank : Option ℕ
  pub fused_score : fl.Float
  pub authority_level : ℕ
  pub excerpt : String
  pub locator : String

pub data StoreError : Type 0 where
  integrity_error : StoreError

abbrev pub of_case : ℕ → Bundle → Bool
of_case id b = b.case_id == id

abbrev pub is_current_of : ℕ → Bundle → Bool
is_current_of id b = of_case id b && b.is_current

-- coalesce(max(version), 0) of the bundles of a case.
unfoldable pub last_version : ℕ → List Bundle → ℕ
last_version id [] = 0
last_version id (b ∷ bs) =
    let rest = last_version id bs in if of_case id b then max b.version rest else rest

-- length(trim(value)) = 0, where SQL's `trim` removes spaces alone.
unfoldable pub is_blank : String → Bool
is_blank s = is_empty (trim_by (λ c. c == 32) s)

-- ck_evidence_bundle_warning
abbrev check_warning : BundleStatus → Option String → Bool
check_warning sufficient warning = true
check_warning insufficient warning = is_some warning

-- INSERT INTO evidence_bundle: the primary key, uq_evidence_bundle_version, ux_evidence_bundle_current,
-- ck_evidence_bundle_version, ck_evidence_bundle_counts, ck_evidence_bundle_query and
-- ck_evidence_bundle_warning. (`rag_search_run` asks the same of the query and of the counts.)
unfoldable pub insert_bundle : Bundle → List Bundle → Outcome StoreError (List Bundle)
insert_bundle b bundles = do
  raise_if (exists (λ x. x.evidence_bundle_id == b.evidence_bundle_id) bundles) integrity_error
  raise_if (exists (λ x. of_case b.case_id x && x.version == b.version) bundles) integrity_error
  raise_if (b.is_current && exists (is_current_of b.case_id) bundles) integrity_error
  raise_if (not (ltb 0 b.version) || not (leb b.selected_count b.candidate_count)) integrity_error
  raise_if (is_blank b.query_text || not (check_warning b.status b.warning)) integrity_error
  ok (bundles ++ b ∷ [])

module _ (fl : Floats) where
  unfoldable pub official_count : List (FusedCandidate fl) → ℕ
  official_count selected = length (filter (of_group fl official) selected)

  unfoldable pub bundle_status : List (FusedCandidate fl) → BundleStatus
  bundle_status selected = if ltb 0 (official_count selected) then sufficient else insufficient

  abbrev warning_of : BundleStatus → Option String
  warning_of sufficient = none
  warning_of insufficient = some "공식 현행 근거가 부족합니다. 결과는 참고 의견이며 추가 확인이 필요합니다."

  unfoldable pub new_bundle :
      ℕ → ℕ → String → List Bundle → List (FusedCandidate fl) → List (FusedCandidate fl) → Bundle
  new_bundle id case_id query bundles candidates selected = record {
    evidence_bundle_id = id;
    case_id = case_id;
    version = last_version case_id bundles + 1;
    status = bundle_status selected;
    query_text = query;
    warning = warning_of (bundle_status selected);
    candidate_count = length candidates;
    selected_count = length selected;
    direct_citation_count = official_count selected;
    is_current = true;
  }

  unfoldable pub item_of : ℕ → ℕ → FusedCandidate fl → Item fl
  item_of id rank c = record {
    evidence_bundle_id = id;
    chunk_id = c.row.chunk_id;
    evidence_group = c.group;
    rank = rank;
    lexical_rank = c.lexical_rank;
    vector_rank = c.vector_rank;
    fused_score = c.fused_score;
    authority_level = c.row.authority_level;
    excerpt = c.row.text_content;
    locator = c.row.page_or_section;
  }

  -- The items of the selected candidates; the rank counts within the group, and `seen` are the ones
  -- before.
  unfoldable pub new_items :
      ℕ → List (FusedCandidate fl) → List (FusedCandidate fl) → List (Item fl)
  new_items id seen [] = []
  new_items id seen (c ∷ cs) =
      item_of id (suc (length (filter (of_group fl c.group) seen))) c ∷ new_items id (c ∷ seen) cs

  abbrev rank_is_positive : Option ℕ → Bool
  rank_is_positive none = true
  rank_is_positive (some n) = ltb 0 n

  -- ck_evidence_item_rank, _score, _authority, _excerpt and _locator, and varchar(240).
  unfoldable pub check_item : Item fl → Bool
  check_item i =
      ltb 0 i.rank
      && rank_is_positive i.lexical_rank
      && rank_is_positive i.vector_rank
      && not (fl.lt i.fused_score (fl.hundredths 0))
      && leb 1 i.authority_level
      && leb i.authority_level 5
      && not (is_blank i.excerpt)
      && not (is_blank i.locator)
      && leb (text_length i.locator) 240

  -- uq_evidence_item_chunk and uq_evidence_item_rank
  unfoldable pub clashes : Item fl → Item fl → Bool
  clashes new i =
      i.evidence_bundle_id == new.evidence_bundle_id
      && (i.chunk_id == new.chunk_id
          || (same_group i.evidence_group new.evidence_group && i.rank == new.rank))

  -- INSERT INTO evidence_item, one row after another, each with a fresh key.
  unfoldable pub insert_items :
      List (Item fl) → List (Item fl) → Outcome StoreError (List (Item fl))
  insert_items [] items = ok items
  insert_items (new ∷ rest) items = do
    raise_if (not (check_item new)) integrity_error
    raise_if (exists (clashes new) items) integrity_error
    insert_items rest (items ++ new ∷ [])

  -- The bundles and the items that the transaction stores for the fused candidates.
  unfoldable pub store_retrieval :
      ℕ
      → ℕ
      → String
      → List (FusedCandidate fl)
      → List Bundle × List (Item fl)
      → Outcome StoreError (List Bundle × List (Item fl))
  store_retrieval id case_id query candidates (bundles, items) = do
    let selected = select_context fl candidates
    let others = update (is_current_of case_id) (λ b. record b { is_current = false }) bundles
    stored ← insert_bundle (new_bundle id case_id query bundles candidates selected) others
    rows ← insert_items (new_items id [] selected) items
    ok (stored, rows)
