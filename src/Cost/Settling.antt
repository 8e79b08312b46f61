-- ===== src/Cost/Settling.antt =====
-- backend/app/ai_control.py: the settlements of `AiCostGate` and its cache of embeddings.
use esafe.Prelude.{
  ℕ, ◌+◌, ◌*◌, String, Bool, true, false, ◌&&◌, ◌||◌, not, Option, none, some, List, [], ◌∷◌, ◌++◌,
  leb, ◌==◌, str_eq, if◌then◌else◌, is_some, is_empty, length, select, exists, filter, update,
  Outcome, ok, ◌>>=◌, ◌>>◌, raise_if,
}
use esafe.Prelude.Int.{ℤ, pos, ltb_ℤ}
use esafe.Cost.Entry.{
  CostStatus, success, Usage, CostEntry, CacheEntry, is_reserved, is_sha256, satisfies_checks,
}
use esafe.Cost.Ledger.{
  CostError, CostReservation, Ledger, actual_outside_reservation, cache_payload_invalid,
  failure_without_error, integrity_error, request_sha256_invalid, reservation_not_open,
  success_with_error,
}

-- WHERE reservation_id = :reservation_id AND status = 'RESERVED'
unfoldable pub is_open : ℕ → CostEntry → Bool
is_open id e = e.reservation_id == id && is_reserved e.status

-- The UPDATE of a settlement: it fails if a row breaks a CHECK, and must hit exactly one row.
unfoldable pub update_open :
    ℕ → (CostEntry → CostEntry) → List CostEntry → Outcome CostError (List CostEntry)
update_open id assign es = do
  raise_if (exists (λ e. not (satisfies_checks e)) (update (is_open id) assign es)) integrity_error
  raise_if (not (length (filter (is_open id) es) == 1)) reservation_not_open
  ok (update (is_open id) assign es)

abbrev outside : ℤ → CostReservation → Bool
outside actual r = ltb_ℤ actual (pos 0) || ltb_ℤ r.reserved_cost_usd actual

abbrev is_success : CostStatus → Bool
is_success success = true
is_success _ = false

-- `not error_type`
abbrev is_blank : Option String → Bool
is_blank none = true
is_blank (some s) = is_empty s

pub record Settlement : Type 0 where
  pub status : CostStatus
  pub actual_cost_usd : ℤ
  pub usage : Usage
  pub provider_request_id : Option String
  pub error_type : Option String

unfoldable pub settled : ℕ → Settlement → CostEntry → CostEntry
settled now s e = record e {
  status = s.status;
  actual_cost_usd = some s.actual_cost_usd;
  usage = s.usage;
  provider_request_id = s.provider_request_id;
  error_type = s.error_type;
  settled_at = some now;
}

unfoldable pub settle :
    ℕ → CostReservation → Settlement → Ledger → Outcome CostError (Ledger × Unit {0})
settle now r s l = do
  raise_if (outside s.actual_cost_usd r) actual_outside_reservation
  raise_if (is_success s.status && is_some s.error_type) success_with_error
  raise_if (not (is_success s.status) && is_blank s.error_type) failure_without_error
  es ← update_open r.reservation_id (settled now s) l.entries
  ok (record l { entries = es }, tt)

pub record EmbeddingSettlement : Type 0 where
  pub actual_cost_usd : ℤ
  pub embedding_tokens : ℤ
  pub provider_request_id : Option String
  pub model : String
  pub request_sha256 : String
  pub dimension : ℕ
  pub item_count : ℕ
  pub vector_payload : List ℕ

unfoldable pub cache_payload_is_valid : EmbeddingSettlement → Bool
cache_payload_is_valid s =
    is_sha256 s.request_sha256
    && s.dimension == 1024
    && leb 1 s.item_count
    && leb s.item_count 100
    && ltb_ℤ (pos 0) s.embedding_tokens
    && length s.vector_payload == s.dimension * s.item_count * 4

unfoldable pub embedding_settled : ℕ → EmbeddingSettlement → CostEntry → CostEntry
embedding_settled now s e = record e {
  status = success;
  actual_cost_usd = some s.actual_cost_usd;
  usage = record (e.usage) { embedding_tokens = some s.embedding_tokens };
  provider_request_id = s.provider_request_id;
  error_type = none;
  settled_at = some now;
}

unfoldable pub is_cached : String → String → CacheEntry → Bool
is_cached model sha c = str_eq c.model model && str_eq c.request_sha256 sha

-- INSERT INTO ai_embedding_cache … ON CONFLICT DO NOTHING
unfoldable pub cache_embedding :
    ℕ → CostReservation → EmbeddingSettlement → List CacheEntry → List CacheEntry
cache_embedding now r s cache =
    if exists (is_cached s.model s.request_sha256) cache
    then cache
    else cache
      ++ record {
        model = s.model;
        request_sha256 = s.request_sha256;
        dimension = s.dimension;
        item_count = s.item_count;
        vector_payload = s.vector_payload;
        embedding_tokens = s.embedding_tokens;
        source_reservation_id = r.reservation_id;
        last_used_at = now;
        use_count = 0;
      }
        ∷ []

unfoldable pub settle_embedding_success :
    ℕ → CostReservation → EmbeddingSettlement → Ledger → Outcome CostError (Ledger × Unit {0})
settle_embedding_success now r s l = do
  raise_if (outside s.actual_cost_usd r) actual_outside_reservation
  raise_if (not (cache_payload_is_valid s)) cache_payload_invalid
  es ← update_open r.reservation_id (embedding_settled now s) l.entries
  ok (record { entries = es; cache = cache_embedding now r s l.cache }, tt)

-- A hit is stamped and counted, and returned as it then stands.
unfoldable pub get_embedding_cache :
    ℕ → String → String → Ledger → Outcome CostError (Ledger × Option CacheEntry)
get_embedding_cache now model sha l = do
  raise_if (not (is_sha256 sha)) request_sha256_invalid
  let cache =
      update (is_cached model sha)
        (λ c. record c { last_used_at = now; use_count = c.use_count + 1 }) l.cache
  ok (record l { cache = cache }, select (is_cached model sha) cache)
