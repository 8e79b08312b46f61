-- ===== src/Cost/Examples.antt =====
-- backend/app/ai_control.py and backend/app/upstage.py: a request that is reserved and settled.
use esafe.Prelude.{
  ℕ, zero, suc, String, true, ap, map, length, All, ◌<◌, ◌∙◌, ◌≡◌, ◌≤◌, ◌+◌, ◌-◌, ◌*◌, refl, none,
  some, List, [], ◌∷◌, arith, ok, err, all_chars, text_length, exists, select, filter, update,
}
use esafe.Prelude.Int.{ℤ, pos, ◌+ℤ◌, ◌≤ℤ◌}
use esafe.Cost.Entry.{
  live, chat, reserved, success, failed, cancelled, no_usage, CostEntry, satisfies_checks,
  check_usage, check_columns, is_sha256,
}
use esafe.Cost.Ledger.{
  CostError, Ledger, empty_ledger, CostReservation, ReserveRequest, reserve, new_entry,
  insert_entry, blocks, committed, check_cost_headroom,
}
use esafe.Cost.Settling.{
  Settlement, EmbeddingSettlement, settle, settle_embedding_success, settled, update_open, is_open,
}
use esafe.Cost.Calls.{Call, call_reserve, call_settle, run}
use esafe.Cost.Chat.{ChatCall, raised, complete_json}
use esafe.Cost.ChatSettled.{chat_settles}
use esafe.Cost.Vectors.{is_finite, pack_embedding_vectors, unpack_embedding_vectors}
use esafe.Cost.RoundTrip.{IsVector, unpack-pack}
use esafe.Cost.Budget.{WithinBudget, run-WithinBudget}
use esafe.Cost.Unique.{PaidOnce, run-PaidOnce}
use esafe.Cost.Settlement.{settle_once}
use esafe.Cost.Refund.{settle-committed}
use esafe.Cost.Price.{
  embedding_cost, chat_cost, embedding_max_batch_cost_usd, chat_max_request_cost_usd,
}
use esafe.Cost.Price.Bounds.{embedding_cost_bounds, chat_cost_bounds}

abbrev digest : String
digest = "0123456789abcdef0123456789abcdef0123456789abcdef0123456789abcdef"

abbrev summary_request : ReserveRequest
summary_request = record {
  profile = live;
  feature_name = "case_summary";
  case_reference = none;
  model = "solar-pro2";
  request_kind = chat;
  request_sha256 = digest;
  reserved_cost_usd = pos 2_182_752;
  unit_price_snapshot = "{}";
  retry_of = none;
}

abbrev reservation : CostReservation
reservation = record { reservation_id = 1; reserved_cost_usd = pos 2_182_752 }

abbrev answered : Settlement
answered = record {
  status = success;
  actual_cost_usd = pos 40_000;
  usage = no_usage;
  provider_request_id = some "r-1";
  error_type = none;
}

abbrev embedded : EmbeddingSettlement
embedded = record {
  actual_cost_usd = pos 1;
  embedding_tokens = pos 1;
  provider_request_id = none;
  model = "solar-pro2";
  request_sha256 = digest;
  dimension = 1024;
  item_count = 1;
  vector_payload = [];
}

abbrev two_users : List Call
two_users =
    call_reserve 1 summary_request
    ∷ call_reserve 2 summary_request
    ∷ call_settle 100 reservation answered
    ∷ []

-- Ten dollars.
abbrev ten_usd : ℤ
ten_usd = pos 1_000_000_000

run-WithinBudget_example : WithinBudget ten_usd (run ten_usd two_users empty_ledger)
unfolding committed
run-WithinBudget_example =
    run-WithinBudget ten_usd two_users empty_ledger (record { within = omega arith })

run-PaidOnce_example : PaidOnce (run ten_usd two_users empty_ledger).entries
run-PaidOnce_example = run-PaidOnce ten_usd two_users empty_ledger tt

-- The ledger with one entry, open and then settled.
abbrev open_entry : CostEntry
open_entry = record {
  reservation_id = 1;
  profile = live;
  feature_name = "case_summary";
  case_reference = none;
  model = "solar-pro2";
  request_kind = chat;
  request_sha256 = digest;
  status = reserved;
  reserved_cost_usd = pos 2_182_752;
  actual_cost_usd = none;
  usage = no_usage;
  unit_price_snapshot = "{}";
  provider_request_id = none;
  retry_of = none;
  error_type = none;
  settled_at = none;
}

abbrev open_ledger : Ledger
open_ledger = record { entries = open_entry ∷ []; cache = [] }

abbrev settled_ledger : Ledger
settled_ledger = record {
  entries =
      record open_entry {
        status = success;
        actual_cost_usd = some (pos 40_000);
        provider_request_id = some "r-1";
        settled_at = some 100;
      }
      ∷ [];
  cache = [];
}

reserves : reserve ten_usd 1 summary_request empty_ledger ≡ ok (open_ledger, reservation)
unfolding reserve new_entry insert_entry blocks committed check_cost_headroom is_sha256
    satisfies_checks check_usage check_columns exists all_chars text_length ◌+ℤ◌
reserves = refl

settles : settle 100 reservation answered open_ledger ≡ ok (settled_ledger, tt)
unfolding settle settled update_open is_open is_sha256 satisfies_checks check_usage check_columns
    exists filter update all_chars text_length
settles = refl

-- Calls that come after the settlement: the same request again, and the cache.
abbrev later_calls : List Call
later_calls = call_reserve 2 summary_request ∷ call_settle 150 reservation answered ∷ []

settle_once_example :
    ((x : CostError) × (settle 200 reservation answered (run ten_usd later_calls settled_ledger)
        ≡ err x))
    × ((x : CostError) × (settle_embedding_success 200 reservation embedded
            (run ten_usd later_calls settled_ledger)
          ≡ err x))
settle_once_example =
    settle_once ten_usd 100 200 reservation answered answered embedded open_ledger settled_ledger
      later_calls settles

settle-committed_example :
    (success ≡ success
      → committed settled_ledger.entries +ℤ pos 2_182_752
        ≡ committed open_ledger.entries +ℤ pos 40_000)
    × (success ≡ failed
        → committed settled_ledger.entries +ℤ pos 2_182_752
          ≡ committed open_ledger.entries +ℤ pos 40_000)
    × (success ≡ cancelled
        → committed settled_ledger.entries +ℤ pos 2_182_752 ≡ committed open_ledger.entries)
unfolding select is_open
settle-committed_example =
    settle-committed 100 reservation answered open_ledger settled_ledger open_entry settles refl

chat_cost_bounds_example :
    (cost : ℕ) × (chat_cost (pos 1000) (pos 400) (pos 200) ≡ ok (pos cost))
    × (pos cost ≤ℤ chat_max_request_cost_usd)
    × (cost * 100 ≤ (1000 - 400) * 1650 + 400 * 165 + 200 * 6600 + 50)
    × ((1000 - 400) * 1650 + 400 * 165 + 200 * 6600 ≤ cost * 100 + 50)
chat_cost_bounds_example = chat_cost_bounds 1000 400 200 (omega arith) (omega arith) (omega arith)

embedding_cost_bounds_example :
    (cost : ℕ) × (embedding_cost (pos 777) ≡ ok (pos cost))
    × (pos cost ≤ℤ embedding_max_batch_cost_usd)
    × (cost * 10 ≤ 777 * 22 + 5)
    × (777 * 22 ≤ cost * 10 + 5)
embedding_cost_bounds_example = embedding_cost_bounds 777 (omega arith)

abbrev chat_call : ChatCall
chat_call = record {
  profile = live;
  model = "solar-pro2";
  feature_name = "case_summary";
  case_reference = none;
  privacy_verified = true;
  system_prompt = "s";
  user_prompt = "u";
  has_api_key = true;
  request_sha256 = digest;
  unit_price_snapshot = "{}";
}

chat_settles_example :
    filter
      (is_open 1)
      (complete_json (pos 100_000_000) 1 5 chat_call (raised "ReadTimeout") empty_ledger).0.entries
    ≡ []
chat_settles_example =
    chat_settles (pos 100_000_000) 1 5 chat_call (raised "ReadTimeout") empty_ledger tt
      (unfold filter in refl) refl

-- The single 1.0, that many times.
abbrev ones : ℕ → List ℕ
ones zero = []
ones (suc n) = 1065353216 ∷ ones n

length-ones : (n : ℕ) → length (ones n) ≡ n
length-ones zero = refl
length-ones (suc n) = ap suc (length-ones n)

ones-All : (n : ℕ) → All (λ w. (w < 4294967296) × (is_finite w ≡ true)) (map (λ w. w) (ones n))
unfolding is_finite
ones-All zero = tt
ones-All (suc n) = ((omega arith, refl), ones-All n)

map-ones : (n : ℕ) → map (λ w. w) (ones n) ≡ ones n
map-ones zero = refl
map-ones (suc n) = ap (λ ws. 1065353216 ∷ ws) (map-ones n)

vectors_example : (n : ℕ) → n ≡ 1024 → All IsVector (map (map (λ w. w)) (ones n ∷ ones n ∷ []))
vectors_example n h =
    let long : length (map (λ w. w) (ones n)) ≡ 1024 = ap length (map-ones n) ∙ length-ones n ∙ h in
    ((long, ones-All n), ((long, ones-All n), tt))

unpack-pack_example :
    unpack_embedding_vectors (pack_embedding_vectors (λ w. w) (ones 1024 ∷ ones 1024 ∷ [])) 2 1024
    ≡ ok (map (map (λ w. w)) (ones 1024 ∷ ones 1024 ∷ []))
unpack-pack_example =
    unpack-pack (λ w. w) (ones 1024 ∷ ones 1024 ∷ []) (omega arith) (omega arith)
      (vectors_example 1024 refl)
