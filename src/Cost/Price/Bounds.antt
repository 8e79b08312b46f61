-- ===== src/Cost/Price/Bounds.antt =====
-- backend/app/upstage.py: a call within the provider's limits costs no more than is reserved for it.
use esafe.Prelude.{ℕ, ◌+◌, ◌-◌, ◌*◌, ◌≤◌, ◌≡◌, arith, ok, round_half_even}
use esafe.Prelude.Int.{pos, ◌≤ℤ◌}
use esafe.Cost.Price.{
  embedding_cost, chat_cost, embedding_max_batch_cost_usd, chat_max_request_cost_usd,
  max_embedding_batch_tokens, chat_max_input_tokens, chat_max_output_tokens,
}

-- Rounding is off by at most half a unit, and is monotone.
round_hundredths :
    (n : ℕ) → (round_half_even n 100 * 100 ≤ n + 50) × (n ≤ round_half_even n 100 * 100 + 50)
unfolding round_half_even
round_hundredths n = ground arith

round_tenths : (n : ℕ) → (round_half_even n 10 * 10 ≤ n + 5) × (n ≤ round_half_even n 10 * 10 + 5)
unfolding round_half_even
round_tenths n = ground arith

-- An embedding response within the batch limit has a cost, it is at most the reservation of a batch,
-- and it is the exact price of its tokens up to half a unit.
pub embedding_cost_bounds :
    (tokens : ℕ)
    → tokens ≤ max_embedding_batch_tokens
    → (cost : ℕ) × (embedding_cost (pos tokens) ≡ ok (pos cost))
      × (pos cost ≤ℤ embedding_max_batch_cost_usd)
      × (cost * 10 ≤ tokens * 22 + 5)
      × (tokens * 22 ≤ cost * 10 + 5)
unfolding embedding_cost
embedding_cost_bounds tokens h =
    let (up, down) = round_tenths (tokens * 22) in
    (round_half_even (tokens * 22) 10, ground arith, omega arith, up, down)

-- A chat response within the limits, whose cached input is part of its input, has a cost, it is at
-- most the reservation of a request, and it is the exact price of its tokens up to half a unit.
pub chat_cost_bounds :
    (input cached output : ℕ)
    → input ≤ chat_max_input_tokens
    → cached ≤ input
    → output ≤ chat_max_output_tokens
    → (cost : ℕ) × (chat_cost (pos input) (pos cached) (pos output) ≡ ok (pos cost))
      × (pos cost ≤ℤ chat_max_request_cost_usd)
      × (cost * 100 ≤ (input - cached) * 1650 + cached * 165 + output * 6600 + 50)
      × ((input - cached) * 1650 + cached * 165 + output * 6600 ≤ cost * 100 + 50)
unfolding chat_cost
chat_cost_bounds input cached output hi hc ho =
    let (up, down) = round_hundredths ((input - cached) * 1650 + cached * 165 + output * 6600) in
    (
      round_half_even ((input - cached) * 1650 + cached * 165 + output * 6600) 100,
      ground arith,
      omega arith,
      up,
      down,
    )
