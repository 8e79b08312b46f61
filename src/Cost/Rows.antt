-- ===== src/Cost/Rows.antt =====
-- backend/app/ai_control.py: which rows of `ai_cost_entry` a method that returned has left.
use esafe.Prelude.{
  ℕ, String, ◌≡◌, ok, Option, ◌++◌, ◌∷◌, [], arith, false, exists, Outcome-cases, inl, inr,
}
use esafe.Prelude.Int.{ℤ}
use esafe.Cost.Entry.{CacheEntry}
use esafe.Cost.Ledger.{
  Ledger, CostReservation, reserve, new_entry, blocks, ReserveRequest, insert_entry,
}
use esafe.Cost.Settling.{
  Settlement, EmbeddingSettlement, settle, settle_embedding_success, get_embedding_cache,
  update_open, settled, embedding_settled,
}

pub settle-entries :
    (now : ℕ) (r : CostReservation) (s : Settlement) (l l' : Ledger) (out : Unit {0})
    → settle now r s l ≡ ok (l', out)
    → update_open r.reservation_id (settled now s) l.entries ≡ ok l'.entries
unfolding settle
settle-entries now r s l l' out h =
    elim (Outcome-cases (update_open r.reservation_id (settled now s) l.entries)) [
      | inl (es, e) ↦ ground arith
      | inr (x, e) ↦ ground arith
    ]

pub settle_embedding_success-entries :
    (now : ℕ) (r : CostReservation) (s : EmbeddingSettlement) (l l' : Ledger) (out : Unit {0})
    → settle_embedding_success now r s l ≡ ok (l', out)
    → update_open r.reservation_id (embedding_settled now s) l.entries ≡ ok l'.entries
unfolding settle_embedding_success
settle_embedding_success-entries now r s l l' out h =
    elim (Outcome-cases (update_open r.reservation_id (embedding_settled now s) l.entries)) [
      | inl (es, e) ↦ ground arith
      | inr (x, e) ↦ ground arith
    ]

pub get_embedding_cache-entries :
    (now : ℕ) (model sha : String) (l l' : Ledger) (out : Option CacheEntry)
    → get_embedding_cache now model sha l ≡ ok (l', out)
    → l'.entries ≡ l.entries
unfolding get_embedding_cache
get_embedding_cache-entries now model sha l l' out h = ground arith

pub reserve-entries :
    (hard_stop : ℤ) (uuid : ℕ) (r : ReserveRequest) (l l' : Ledger) (out : CostReservation)
    → reserve hard_stop uuid r l ≡ ok (l', out)
    → (l'.entries ≡ l.entries ++ new_entry uuid r ∷ [])
      × (exists (blocks (new_entry uuid r)) l.entries ≡ false)
unfolding reserve insert_entry
reserve-entries hard_stop uuid r l l' out h = ground arith
