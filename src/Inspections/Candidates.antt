-- ===== src/Inspections/Candidates.antt =====
-- backend/app/inspection_engine.py: `_create_candidates` and the order of `_ranked_sql`.
use esafe.Prelude.{
  ℕ, suc, String, Bool, true, false, ◌&&◌, ◌||◌, Option, none, some, List, [], ◌∷◌, map, ltb, leb,
  ◌==◌, str_eq, exists, filter, sort_by, length,
}
use esafe.Inspections.Rows.{
  Simulation, ScenarioType, balanced, high_risk_focused, coverage_expanded,
}

-- A risk snapshot with its building and region; the type of the facility is read from the main use.
pub record Assessment : Type 0 where
  pub building_id : ℕ
  pub risk_snapshot_id : ℕ
  pub reference_month : ℕ
  pub horizon_days : ℕ
  pub lineage_version : String
  pub manifest_hash : String
  pub region_code : String
  pub parent_code : Option String
  pub facility_type : String
  pub final_score : ℕ
  pub regional_rank : ℕ
  pub top_percentile : ℕ

-- A row of the temporary table inspection_candidate.
pub record Candidate : Type 0 where
  pub building_id : ℕ
  pub risk_snapshot_id : ℕ
  pub region_code : String
  pub facility_type : String
  pub final_score : ℕ
  pub regional_rank : ℕ
  pub top_percentile : ℕ
  pub base_eligible : Bool
  pub forced_inclusion : Bool

abbrev text_is : Option String → String → Bool
text_is none t = false
text_is (some s) t = str_eq s t

abbrev id_is : Option ℕ → ℕ → Bool
id_is none n = false
id_is (some m) n = m == n

abbrev in_region : Option String → Assessment → Bool
in_region none a = true
in_region (some r) a = str_eq a.region_code r || text_is a.parent_code r

unfoldable pub is_categorized : Simulation → Assessment → Bool
is_categorized s a =
    a.reference_month == s.reference_month
    && a.horizon_days == s.horizon_days
    && str_eq a.lineage_version s.lineage_version
    && in_region s.region_code a

abbrev has_facility : List String → String → Bool
has_facility [] t = true
has_facility (x ∷ xs) t = exists (str_eq t) (x ∷ xs)

unfoldable pub is_candidate : Simulation → Assessment → Bool
is_candidate s a =
    is_categorized s a
    && ((leb a.top_percentile s.expanded_top_percentile
          && leb s.expanded_minimum_score a.final_score)
        || id_is s.building_id a.building_id)
    && (has_facility s.facility_types a.facility_type || id_is s.building_id a.building_id)

unfoldable pub new_candidate : Simulation → Assessment → Candidate
new_candidate s a = record {
  building_id = a.building_id;
  risk_snapshot_id = a.risk_snapshot_id;
  region_code = a.region_code;
  facility_type = a.facility_type;
  final_score = a.final_score;
  regional_rank = a.regional_rank;
  top_percentile = a.top_percentile;
  base_eligible =
      (leb a.top_percentile s.top_percentile && leb s.minimum_score a.final_score)
      || id_is s.building_id a.building_id;
  forced_inclusion = id_is s.building_id a.building_id;
}

-- `_create_candidates`
unfoldable pub create_candidates : Simulation → List Assessment → List Candidate
create_candidates s rows = map (new_candidate s) (filter (is_candidate s) rows)

-- ORDER BY final_score DESC, regional_rank, building_id
unfoldable pub risk_order : Candidate → Candidate → Bool
risk_order a b =
    ltb b.final_score a.final_score
    || (a.final_score == b.final_score
        && (ltb a.regional_rank b.regional_rank
            || (a.regional_rank == b.regional_rank && leb a.building_id b.building_id)))

-- ORDER BY final_score DESC, building_id
unfoldable pub score_order : Candidate → Candidate → Bool
score_order a b =
    ltb b.final_score a.final_score
    || (a.final_score == b.final_score && leb a.building_id b.building_id)

-- A candidate with its `group_position`.
pub record Placed : Type 0 where
  pub group_position : ℕ
  pub candidate : Candidate

unfoldable pub same_group : Candidate → Candidate → Bool
same_group a b = str_eq a.region_code b.region_code && str_eq a.facility_type b.facility_type

-- row_number() OVER (PARTITION BY region_code, facility_type …), of rows in order: `seen` are the rows
-- before.
unfoldable pub placed : List Candidate → List Candidate → List Placed
placed seen [] = []
placed seen (c ∷ cs) =
    record { group_position = suc (length (filter (same_group c) seen)); candidate = c }
    ∷ placed (c ∷ seen) cs

-- ORDER BY group_position, final_score DESC, region_code, facility_type, building_id; `text_lt` is the
-- collation of the database.
unfoldable pub group_order : (String → String → Bool) → Placed → Placed → Bool
group_order text_lt p q =
    let a = p.candidate in
    let b = q.candidate in
    ltb p.group_position q.group_position
    || (p.group_position == q.group_position
        && (ltb b.final_score a.final_score
            || (a.final_score == b.final_score
                && (text_lt a.region_code b.region_code
                    || (str_eq a.region_code b.region_code
                        && (text_lt a.facility_type b.facility_type
                            || (str_eq a.facility_type b.facility_type
                                && leb a.building_id b.building_id)))))))

unfoldable pub balanced_order : (String → String → Bool) → List Candidate → List Placed
balanced_order text_lt cs =
    sort_by (group_order text_lt)
      (placed [] (sort_by score_order (filter (λ c. c.base_eligible) cs)))

-- The rows of `_ranked_sql` by their `target_order`.
unfoldable pub ranked : (String → String → Bool) → ScenarioType → List Candidate → List Candidate
ranked text_lt balanced cs = map (λ p. p.candidate) (balanced_order text_lt cs)
ranked text_lt high_risk_focused cs = sort_by risk_order (filter (λ c. c.base_eligible) cs)
ranked text_lt coverage_expanded cs = sort_by risk_order cs
