-- ===== src/Cost/Chat.antt =====
-- backend/app/upstage.py: `UpstageChatClient.complete_json` over the cost gate. What the provider and the
-- parsing of its answer come to is an argument, as are the digest of the request and the two times.
use esafe.Prelude.{
  ℕ, String, Bool, ◌||◌, not, Option, none, some, ◌+◌, ltb, if◌then◌else◌, strip, is_empty, prefix,
  text_length, Outcome, ok, err,
}
use esafe.Prelude.Int.{ℤ}
use esafe.Cost.Entry.{Profile, chat, success, failed, no_usage}
use esafe.Cost.Ledger.{
  CostError, integrity_error, actual_outside_reservation, success_with_error, failure_without_error,
  Ledger, CostReservation, ReserveRequest, reserve,
}
use esafe.Cost.Settling.{Settlement, settle}
use esafe.Cost.Price.{PriceError, chat_cost, chat_max_request_cost_usd}

pub record ChatCall : Type 0 where
  pub profile : Profile
  pub model : String
  pub feature_name : String
  pub case_reference : Option ℕ
  pub privacy_verified : Bool
  pub system_prompt : String
  pub user_prompt : String
  pub has_api_key : Bool
  pub request_sha256 : String
  pub unit_price_snapshot : String

-- The tokens that `parse_chat_response` reads, and the provider's id of the request.
pub record ChatAnswer : Type 0 where
  pub input_tokens : ℤ
  pub cached_input_tokens : ℤ
  pub output_tokens : ℤ
  pub provider_request_id : Option String

-- An answer, an `Exception` with the name of its type, or an interruption that is no `Exception` (the
-- task is cancelled).
pub data Provider : Type 0 where
  answered : ChatAnswer → Provider
  raised : String → Provider
  interrupted : Provider

pub data ChatError : Type 0 where
  privacy_not_verified empty_input input_too_large api_key_required : ChatError
  usage_inconsistent provider_failed was_interrupted : ChatError
  not_settled : CostError → ChatError

unfoldable pub chat_request : ChatCall → ReserveRequest
chat_request c = record {
  profile = c.profile;
  feature_name = c.feature_name;
  case_reference = c.case_reference;
  model = c.model;
  request_kind = chat;
  request_sha256 = c.request_sha256;
  reserved_cost_usd = chat_max_request_cost_usd;
  unit_price_snapshot = c.unit_price_snapshot;
  retry_of = none;
}

unfoldable pub chat_failure : CostReservation → String → Settlement
chat_failure r name = record {
  status = failed;
  actual_cost_usd = r.reserved_cost_usd;
  usage = no_usage;
  provider_request_id = none;
  error_type = some (prefix 80 name);
}

unfoldable pub chat_success : ℤ → ChatAnswer → Settlement
chat_success cost a = record {
  status = success;
  actual_cost_usd = cost;
  usage = record no_usage {
    input_tokens = some a.input_tokens;
    cached_input_tokens = some a.cached_input_tokens;
    output_tokens = some a.output_tokens;
  };
  provider_request_id = a.provider_request_id;
  error_type = none;
}

abbrev concluded :
    Ledger
    → ChatError
    → Outcome CostError (Ledger × Unit {0})
    → Ledger × Outcome ChatError ChatAnswer
concluded l e (ok (l', u)) = (l', err e)
concluded l e (err x) = (l, err (not_settled x))

-- The `except` branch.
unfoldable pub fail_chat :
    ℕ → CostReservation → String → ChatError → Ledger → Ledger × Outcome ChatError ChatAnswer
fail_chat now r name e l = concluded l e (settle now r (chat_failure r name) l)

-- The name of the type of what `settle` raises.
abbrev pub cost_error_name : CostError → String
cost_error_name integrity_error = "IntegrityError"
cost_error_name actual_outside_reservation = "ValueError"
cost_error_name success_with_error = "ValueError"
cost_error_name failure_without_error = "ValueError"
cost_error_name _ = "CostControlError"

abbrev accounted :
    ℕ
    → CostReservation
    → ChatAnswer
    → Ledger
    → Outcome CostError (Ledger × Unit {0})
    → Ledger × Outcome ChatError ChatAnswer
accounted now r a l (ok (l', u)) = (l', ok a)
accounted now r a l (err x) = fail_chat now r (cost_error_name x) (not_settled x) l

abbrev priced :
    ℕ
    → CostReservation
    → ChatAnswer
    → Ledger
    → Outcome PriceError ℤ
    → Ledger × Outcome ChatError ChatAnswer
priced now r a l (err x) = fail_chat now r "ValueError" usage_inconsistent l
priced now r a l (ok cost) = accounted now r a l (settle now r (chat_success cost a) l)

-- What follows the reservation.
unfoldable pub settle_chat :
    ℕ → CostReservation → Provider → Ledger → Ledger × Outcome ChatError ChatAnswer
settle_chat now r (answered a) l =
    priced now r a l (chat_cost a.input_tokens a.cached_input_tokens a.output_tokens)
settle_chat now r (raised name) l = fail_chat now r name provider_failed l
settle_chat now r interrupted l = (l, err was_interrupted)

abbrev reserved_chat :
    ℕ
    → Provider
    → Ledger
    → Outcome CostError (Ledger × CostReservation)
    → Ledger × Outcome ChatError ChatAnswer
reserved_chat now p l (err x) = (l, err (not_settled x))
reserved_chat now p l (ok (l', r)) = settle_chat now r p l'

-- `complete_json`
unfoldable pub complete_json :
    ℤ → ℕ → ℕ → ChatCall → Provider → Ledger → Ledger × Outcome ChatError ChatAnswer
complete_json hard_stop uuid now c p l =
    if not c.privacy_verified
    then (l, err privacy_not_verified)
    else if is_empty (strip c.system_prompt) || is_empty (strip c.user_prompt)
    then (l, err empty_input)
    else if ltb 360_000 (text_length c.system_prompt + text_length c.user_prompt)
    then (l, err input_too_large)
    else if not c.has_api_key
    then (l, err api_key_required)
    else reserved_chat now p l (reserve hard_stop uuid (chat_request c) l)
