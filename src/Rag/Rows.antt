-- ===== src/Rag/Rows.antt =====
-- backend/app/rag_search.py: candidates and their weights. An id is a UUID, as its number, which has the
-- order of its text; a day is its number.
use esafe.Prelude.{
  ℕ, String, Bool, ◌||◌, Option, none, some, List, [], ◌∷◌, ◌-◌, ◌*◌, leb, ◌==◌, str_eq, exists,
  if◌then◌else◌,
}

-- Python's floats: a literal in hundredths, 1 / n, the operations that the scores use, and `<`.
pub record Floats : Type 1 where
  pub Float : Type 0
  pub hundredths : ℕ → Float
  pub reciprocal : ℕ → Float
  pub plus : Float → Float → Float
  pub minus : Float → Float → Float
  pub times : Float → Float → Float
  pub lt : Float → Float → Bool

pub data Group : Type 0 where
  official past_incident other_region : Group

-- The columns of a candidate row that the ranking and the stored items read.
pub record ChunkRow : Type 0 where
  pub chunk_id : ℕ
  pub document_id : ℕ
  pub document_family : String
  pub regions : List String
  pub published_at : Option ℕ
  pub authority_level : ℕ
  pub text_content : String
  pub page_or_section : String

pub record FusedCandidate (fl : Floats) : Type 0 where
  pub row : ChunkRow
  pub lexical_rank : Option ℕ
  pub vector_rank : Option ℕ
  pub vector_similarity : Option fl.Float
  pub fused_score : fl.Float
  pub group : Group

-- `_candidate_group`
unfoldable pub candidate_group : ChunkRow → Group
candidate_group row =
    if str_eq row.document_family "INCIDENT_CASE"
    then past_incident
    else if str_eq row.document_family "OTHER_REGION_REFERENCE"
    then other_region
    else official

-- `_authority_weight`, in hundredths; another level raises KeyError.
unfoldable pub authority_weight : ℕ → Option ℕ
authority_weight level =
    if level == 1
    then some 125
    else if level == 2
    then some 118
    else if level == 3
    then some 110
    else if level == 4
    then some 85
    else if level == 5
    then some 75
    else none

-- What the weight of a region tests: whether a code starts with a text, and whether a text contains
-- another.
pub record TextTests : Type 0 where
  pub starts_with : String → String → Bool
  pub contains : String → String → Bool

abbrev region_weight_of : TextTests → List String → String → ℕ
region_weight_of t regions code =
    if t.starts_with code "29"
    then (if exists (λ r. t.contains r "광주") regions then 112 else 88)
    else if t.starts_with code "46"
    then (if exists (λ r. t.contains r "전남" || t.contains r "전라남도") regions then 112 else 88)
    else 100

-- `_region_weight`, in hundredths. (An empty code starts with neither prefix.)
unfoldable pub region_weight : TextTests → List String → Option String → ℕ
region_weight t [] code = 108
region_weight t (r ∷ rs) none = 100
region_weight t (r ∷ rs) (some code) = region_weight_of t (r ∷ rs) code

abbrev age_weight : ℕ → ℕ
age_weight days = if leb days (365 * 3) then 106 else if leb days (365 * 7) then 100 else 94

-- `_freshness_weight`, in hundredths.
unfoldable pub freshness_weight : Option ℕ → ℕ → ℕ
freshness_weight none today = 100
freshness_weight (some published) today = age_weight (today - published)
