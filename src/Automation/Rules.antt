-- ===== src/Automation/Rules.antt =====
-- backend/app/automation/case_rules.py: the state machine of a case and the scope of a signal.
use esafe.Prelude.{
  ℕ, String, Bool, true, false, ◌||◌, not, Option, none, some, List, [], ◌∷◌, ◌==◌, if◌then◌else◌,
  text_length, exists, Outcome, ok, err, ◌>>◌, raise_if, is_some,
}

pub data CaseStatus : Type 0 where
  detected active on_hold source_resolved_review closed merged : CaseStatus

pub data CaseType : Type 0 where
  fire weather_warning disaster_message : CaseType

pub data EventType : Type 0 where
  fire_dispatch_event weather_warning_event disaster_message_event : EventType

-- backend/app/signals/contracts.py
pub data SourceStatus : Type 0 where
  source_active source_updated source_resolved source_unknown : SourceStatus

unfoldable pub case_type_for : EventType → CaseType
case_type_for fire_dispatch_event = fire
case_type_for weather_warning_event = weather_warning
case_type_for _ = disaster_message

unfoldable pub initial_case_status : SourceStatus → CaseStatus
initial_case_status source_resolved = source_resolved_review
initial_case_status _ = active

unfoldable pub next_case_status : CaseStatus → SourceStatus → CaseStatus
next_case_status closed s = closed
next_case_status merged s = merged
next_case_status c source_resolved = source_resolved_review
next_case_status source_resolved_review s = active
next_case_status c s = c

pub data RuleError : Type 0 where
  point_incomplete radius_not_allowed region_required : RuleError

-- A coordinate is kept as the text of its number: the rules only ask whether it is there.
pub record SignalFacts : Type 0 where
  pub event_type : EventType
  pub source_status : SourceStatus
  pub region_codes : List String
  pub longitude : Option String
  pub latitude : Option String

pub data ImpactScopeType : Type 0 where
  radius admin_region : ImpactScopeType

pub data PrecisionWarning : Type 0 where
  location_precision_sido : PrecisionWarning

pub record ImpactScope : Type 0 where
  pub scope_type : ImpactScopeType
  pub radius_m : Option ℕ
  pub region_codes : List String
  pub precision_warning : Option PrecisionWarning

-- `SignalFacts.__post_init__`
unfoldable pub check_facts : SignalFacts → Outcome RuleError SignalFacts
check_facts f =
    if is_some f.longitude
    then (if is_some f.latitude then ok f else err point_incomplete)
    else if is_some f.latitude
    then err point_incomplete
    else ok f

unfoldable pub is_allowed_radius : ℕ → Bool
is_allowed_radius r = r == 500 || r == 1000 || r == 3000 || r == 5000

abbrev is_nil {ℓ} : {A : Type ℓ} → List A → Bool
is_nil [] = true
is_nil (x ∷ xs) = false

abbrev pub circle : ℕ → ImpactScope
circle r = record {
  scope_type = radius;
  radius_m = some r;
  region_codes = [];
  precision_warning = none;
}

abbrev pub districts : List String → ImpactScope
districts codes = record {
  scope_type = admin_region;
  radius_m = none;
  region_codes = codes;
  precision_warning =
      if exists (λ code. text_length code == 2) codes then some location_precision_sido else none;
}

unfoldable pub select_impact_scope : SignalFacts → ℕ → Outcome RuleError ImpactScope
select_impact_scope signal r = do
  raise_if (not (is_allowed_radius r)) radius_not_allowed
  if is_some signal.longitude then ok (circle r) else (do
    raise_if (is_nil signal.region_codes) region_required
    ok (districts signal.region_codes))
