-- ===== src/Cost/Ledger.antt =====
-- backend/app/ai_control.py: the state of `AiCostGate` and `reserve`. A method is a function of the two
-- tables; what it raises leaves them as they were. `uuid4()` and CURRENT_TIMESTAMP are arguments. The
-- advisory lock makes the reservations one after another, so a transaction is one step.
use esafe.Prelude.{
  ℕ, String, Bool, true, ◌&&◌, not, Option, none, some, List, [], ◌∷◌, ◌++◌, ◌==◌, exists, Outcome,
  ok, ◌>>=◌, ◌>>◌, raise_if,
}
use esafe.Prelude.Int.{ℤ, pos, ◌+ℤ◌, leb_ℤ, ltb_ℤ}
use esafe.Cost.Entry.{
  Profile, RequestKind, CostStatus, reserved, cancelled, no_usage, CostEntry, CacheEntry, is_active,
  is_sha256, satisfies_checks, same_request,
}

pub data CostError : Type 0 where
  reserved_cost_not_positive hard_stop_not_positive current_cost_negative : CostError
  cost_limit_reached duplicate_cost_request reservation_not_open : CostError
  request_sha256_invalid actual_outside_reservation : CostError
  success_with_error failure_without_error : CostError
  cache_payload_invalid integrity_error : CostError

pub record Ledger : Type 0 where
  pub entries : List CostEntry
  pub cache : List CacheEntry

abbrev pub empty_ledger : Ledger
empty_ledger = record { entries = []; cache = [] }

pub record CostReservation : Type 0 where
  pub reservation_id : ℕ
  pub reserved_cost_usd : ℤ

pub record ReserveRequest : Type 0 where
  pub profile : Profile
  pub feature_name : String
  pub case_reference : Option ℕ
  pub model : String
  pub request_kind : RequestKind
  pub request_sha256 : String
  pub reserved_cost_usd : ℤ
  pub unit_price_snapshot : String
  pub retry_of : Option ℕ

unfoldable pub check_cost_headroom : ℤ → ℤ → ℤ → Outcome CostError (Unit {0})
check_cost_headroom current requested hard_stop = do
  raise_if (leb_ℤ requested (pos 0)) reserved_cost_not_positive
  raise_if (leb_ℤ hard_stop (pos 0)) hard_stop_not_positive
  raise_if (ltb_ℤ current (pos 0)) current_cost_negative
  raise_if (ltb_ℤ hard_stop (current +ℤ requested)) cost_limit_reached

abbrev pub or_zero : Option ℤ → ℤ
or_zero none = pos 0
or_zero (some n) = n

-- What an entry counts for: its reservation while it is open, then its actual cost; a cancelled
-- entry is not among the summed rows.
abbrev pub charge : CostStatus → ℤ → Option ℤ → ℤ
charge reserved most actual = most
charge cancelled most actual = pos 0
charge _ most actual = or_zero actual

unfoldable pub committed : List CostEntry → ℤ
committed [] = pos 0
committed (e ∷ es) = charge e.status e.reserved_cost_usd e.actual_cost_usd +ℤ committed es

unfoldable pub new_entry : ℕ → ReserveRequest → CostEntry
new_entry uuid r = record {
  reservation_id = uuid;
  profile = r.profile;
  feature_name = r.feature_name;
  case_reference = r.case_reference;
  model = r.model;
  request_kind = r.request_kind;
  request_sha256 = r.request_sha256;
  status = reserved;
  reserved_cost_usd = r.reserved_cost_usd;
  actual_cost_usd = none;
  usage = no_usage;
  unit_price_snapshot = r.unit_price_snapshot;
  provider_request_id = none;
  retry_of = r.retry_of;
  error_type = none;
  settled_at = none;
}

abbrev pub has_id : ℕ → CostEntry → Bool
has_id id e = e.reservation_id == id

-- The entry that takes the place of a request: the same key, open or successful.
unfoldable pub blocks : CostEntry → CostEntry → Bool
unfolding same_request
blocks new e = is_active e.status && same_request e new

abbrev refers : Option ℕ → List CostEntry → Bool
refers none es = true
refers (some id) es = exists (has_id id) es

-- INSERT INTO ai_cost_entry: primary key, CHECK constraints, foreign key, partial unique index.
unfoldable pub insert_entry : CostEntry → List CostEntry → Outcome CostError (List CostEntry)
insert_entry e es = do
  raise_if (exists (has_id e.reservation_id) es) integrity_error
  raise_if (not (satisfies_checks e)) integrity_error
  raise_if (not (refers e.retry_of es)) integrity_error
  raise_if (is_active e.status && exists (blocks e) es) integrity_error
  ok (es ++ e ∷ [])

unfoldable pub reserve :
    ℤ → ℕ → ReserveRequest → Ledger → Outcome CostError (Ledger × CostReservation)
unfolding new_entry
reserve hard_stop uuid r l = do
  raise_if (not (is_sha256 r.request_sha256)) request_sha256_invalid
  raise_if (exists (blocks (new_entry uuid r)) l.entries) duplicate_cost_request
  check_cost_headroom (committed l.entries) r.reserved_cost_usd hard_stop
  es ← insert_entry (new_entry uuid r) l.entries
  ok (
    record l { entries = es },
    record { reservation_id = uuid; reserved_cost_usd = r.reserved_cost_usd },
  )
