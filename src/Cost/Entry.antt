-- ===== src/Cost/Entry.antt =====
-- backend/app/ai_control.py: the rows of `ai_cost_entry` and `ai_embedding_cache` with the CHECK
-- constraints of their tables. A cost is an integer count of 10⁻⁸ USD, the scale of numeric(14, 8).
use esafe.Prelude.{
  ℕ, String, Bool, true, false, ◌&&◌, ◌||◌, not, Option, none, some, List, leb, ◌==◌, str_eq,
  is_some, text_length, all_chars,
}
use esafe.Prelude.Int.{ℤ, pos, leb_ℤ, ltb_ℤ}

pub data Profile : Type 0 where
  live demo : Profile

pub data RequestKind : Type 0 where
  chat embedding document_parse : RequestKind

pub data CostStatus : Type 0 where
  reserved success failed cancelled : CostStatus

pub record Usage : Type 0 where
  pub input_tokens : Option ℤ
  pub cached_input_tokens : Option ℤ
  pub output_tokens : Option ℤ
  pub embedding_tokens : Option ℤ
  pub document_pages : Option ℤ

abbrev pub no_usage : Usage
no_usage = record {
  input_tokens = none;
  cached_input_tokens = none;
  output_tokens = none;
  embedding_tokens = none;
  document_pages = none;
}

pub record CostEntry : Type 0 where
  pub reservation_id : ℕ
  pub profile : Profile
  pub feature_name : String
  pub case_reference : Option ℕ
  pub model : String
  pub request_kind : RequestKind
  pub request_sha256 : String
  pub status : CostStatus
  pub reserved_cost_usd : ℤ
  pub actual_cost_usd : Option ℤ
  pub usage : Usage
  pub unit_price_snapshot : String
  pub provider_request_id : Option String
  pub retry_of : Option ℕ
  pub error_type : Option String
  pub settled_at : Option ℕ

pub record CacheEntry : Type 0 where
  pub model : String
  pub request_sha256 : String
  pub dimension : ℕ
  pub item_count : ℕ
  pub vector_payload : List ℕ
  pub embedding_tokens : ℤ
  pub source_reservation_id : ℕ
  pub last_used_at : ℕ
  pub use_count : ℕ

abbrev pub same_profile : Profile → Profile → Bool
same_profile live live = true
same_profile demo demo = true
same_profile _ _ = false

abbrev pub is_reserved : CostStatus → Bool
is_reserved reserved = true
is_reserved _ = false

-- status IN ('RESERVED', 'SUCCESS')
abbrev pub is_active : CostStatus → Bool
is_active reserved = true
is_active success = true
is_active _ = false

is_hex : ℕ → Bool
is_hex c = (leb b'0' c && leb c b'9') || (leb b'a' c && leb c b'f')

-- ^[0-9a-f]{64}$
unfoldable pub is_sha256 : String → Bool
unfolding is_hex
is_sha256 s = (text_length s == 64) && all_chars is_hex s

abbrev pub is_nonneg : Option ℤ → Bool
is_nonneg none = true
is_nonneg (some n) = leb_ℤ (pos 0) n

-- ck_ai_cost_usage
unfoldable pub check_usage : Usage → Bool
check_usage u =
    is_nonneg u.input_tokens
    && is_nonneg u.cached_input_tokens
    && is_nonneg u.output_tokens
    && is_nonneg u.embedding_tokens
    && is_nonneg u.document_pages

-- ck_ai_cost_actual
abbrev pub check_actual : Option ℤ → ℤ → Bool
check_actual none most = true
check_actual (some cost) most = leb_ℤ (pos 0) cost && leb_ℤ cost most

-- ck_ai_cost_settlement
abbrev pub check_settlement : CostStatus → Option ℤ → Option ℕ → Option String → Bool
check_settlement reserved actual settled error =
    not (is_some actual) && not (is_some settled) && not (is_some error)
check_settlement success actual settled error =
    is_some actual && is_some settled && not (is_some error)
check_settlement _ actual settled error = is_some actual && is_some settled && is_some error

abbrev pub fits : ℕ → Option String → Bool
fits n none = true
fits n (some s) = leb (text_length s) n

-- An integer column: four bytes.
abbrev fits_integer : Option ℤ → Bool
fits_integer none = true
fits_integer (some n) = leb_ℤ n (pos 2_147_483_647)

-- varchar(80) and varchar(200) columns; numeric(14, 8) has six digits before the point; the numbers of
-- tokens and pages are of four bytes, and not negative by ck_ai_cost_usage.
unfoldable pub check_columns : CostEntry → Bool
check_columns e =
    leb (text_length e.feature_name) 80
    && leb (text_length e.model) 80
    && fits 200 e.provider_request_id
    && fits 80 e.error_type
    && ltb_ℤ e.reserved_cost_usd (pos 100_000_000_000_000)
    && fits_integer e.usage.input_tokens
    && fits_integer e.usage.cached_input_tokens
    && fits_integer e.usage.output_tokens
    && fits_integer e.usage.embedding_tokens
    && fits_integer e.usage.document_pages

-- The CHECK constraints of `ai_cost_entry`, ck_ai_cost_reserved among them.
unfoldable pub satisfies_checks : CostEntry → Bool
satisfies_checks e =
    ltb_ℤ (pos 0) e.reserved_cost_usd
    && check_actual e.actual_cost_usd e.reserved_cost_usd
    && check_settlement e.status e.actual_cost_usd e.settled_at e.error_type
    && is_sha256 e.request_sha256
    && check_usage e.usage
    && check_columns e

-- ux_ai_cost_active_request: one open or successful entry for a request.
unfoldable pub same_request : CostEntry → CostEntry → Bool
same_request a b =
    same_profile a.profile b.profile
    && str_eq a.feature_name b.feature_name
    && str_eq a.model b.model
    && str_eq a.request_sha256 b.request_sha256
