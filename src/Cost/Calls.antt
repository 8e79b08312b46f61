-- ===== src/Cost/Calls.antt =====
-- backend/app/ai_control.py: the calls of `AiCostGate`, one transaction after another.
use esafe.Prelude.{ℕ, String, List, [], ◌∷◌, commit}
use esafe.Prelude.Int.{ℤ}
use esafe.Cost.Ledger.{CostReservation, Ledger, ReserveRequest, reserve}
use esafe.Cost.Settling.{
  EmbeddingSettlement, Settlement, get_embedding_cache, settle, settle_embedding_success,
}

-- One call of a method of the gate, by any process.
pub data Call : Type 0 where
  call_reserve : ℕ → ReserveRequest → Call
  call_settle : ℕ → CostReservation → Settlement → Call
  call_settle_embedding : ℕ → CostReservation → EmbeddingSettlement → Call
  call_get_cache : ℕ → String → String → Call

unfoldable pub step : ℤ → Call → Ledger → Ledger
step hard_stop (call_reserve uuid r) l = commit l (reserve hard_stop uuid r l)
step hard_stop (call_settle now r s) l = commit l (settle now r s l)
step hard_stop (call_settle_embedding now r s) l = commit l (settle_embedding_success now r s l)
step hard_stop (call_get_cache now model sha) l = commit l (get_embedding_cache now model sha l)

unfoldable pub run : ℤ → List Call → Ledger → Ledger
run hard_stop [] l = l
run hard_stop (c ∷ cs) l = run hard_stop cs (step hard_stop c l)
