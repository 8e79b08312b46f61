-- ===== src/Cost/Price.antt =====
-- backend/app/upstage.py: the price of a call, in 10⁻⁸ USD. A token costs 2.2 (embedding), 16.5
-- (input), 1.65 (cached input) or 66 (output) such units; `quantize` rounds half to even.
pub mod Bounds
use esafe.Prelude.{
  ℕ, ◌+◌, ◌-◌, ◌*◌, ◌/◌, ◌%◌, ◌≤◌, ◌<◌, ◌≡◌, Bool, ◌||◌, arith, ltb, ◌==◌, if◌then◌else◌, Outcome,
  ok, err, round_half_even,
}
use esafe.Prelude.Int.{ℤ, pos, negsuc, pos_part, ltb_ℤ, ◌≤ℤ◌}

-- Both raise ValueError.

pub data PriceError : Type 0 where
  embedding_tokens_negative chat_usage_inconsistent : PriceError

abbrev pub embedding_dimension : ℕ
embedding_dimension = 1024

abbrev pub max_embedding_batch_items : ℕ
max_embedding_batch_items = 100

abbrev pub max_embedding_batch_tokens : ℕ
max_embedding_batch_tokens = 204_800

-- 204 800 tokens at 2.2
abbrev pub embedding_max_batch_cost_usd : ℤ
embedding_max_batch_cost_usd = pos 450_560

abbrev pub chat_max_input_tokens : ℕ
chat_max_input_tokens = 120_000

abbrev pub chat_max_output_tokens : ℕ
chat_max_output_tokens = 3_072

-- 120 000 tokens at 16.5 and 3 072 at 66
abbrev pub chat_max_request_cost_usd : ℤ
chat_max_request_cost_usd = pos 2_182_752

unfoldable pub embedding_cost : ℤ → Outcome PriceError ℤ
embedding_cost tokens =
    if ltb_ℤ tokens (pos 0)
    then err embedding_tokens_negative
    else ok (pos (round_half_even (pos_part tokens * 22) 10))

-- Past its guard the three counts are not negative, and cached ≤ input.
unfoldable pub chat_cost : ℤ → ℤ → ℤ → Outcome PriceError ℤ
chat_cost input cached output =
    if ltb_ℤ input (pos 0) || ltb_ℤ cached (pos 0) || ltb_ℤ output (pos 0) || ltb_ℤ input cached
    then err chat_usage_inconsistent
    else ok (
        pos (
          round_half_even
            ((pos_part input - pos_part cached) * 1650
              + pos_part cached * 165
              + pos_part output * 6600)
            100))
