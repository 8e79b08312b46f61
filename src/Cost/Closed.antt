-- ===== src/Cost/Closed.antt =====
-- backend/app/ai_control.py: a reservation of which no row is open cannot be settled.
use esafe.Prelude.{
  ℕ, true, false, not, ◌≡◌, refl, is_some, List, [], ◌∷◌, arith, inl, inr, Bool-cases, All, exists,
  exists-false, update, filter, ok, err, Outcome-cases,
}
use esafe.Cost.Entry.{CostEntry, satisfies_checks}
use esafe.Cost.Ledger.{Ledger, CostReservation, CostError}
use esafe.Cost.Settling.{
  is_open, update_open, settled, settle, Settlement, settle_embedding_success, EmbeddingSettlement,
  embedding_settled,
}
use esafe.Cost.Rows.{settle-entries, settle_embedding_success-entries}

-- A row with an actual cost that satisfies the constraints is not open.
pub not_open :
    (id : ℕ) (e : CostEntry)
    → is_some e.actual_cost_usd ≡ true
    → not (satisfies_checks e) ≡ false
    → is_open id e ≡ false
unfolding is_open satisfies_checks
not_open id e paid h = ground arith

module _ (id : ℕ) (assign : CostEntry → CostEntry)
    (pays : (e : CostEntry) → is_some (assign e).actual_cost_usd ≡ true) where
  filter-update :
      (es : List CostEntry)
      → All (λ e. not (satisfies_checks e) ≡ false) (update (is_open id) assign es)
      → filter (is_open id) (update (is_open id) assign es) ≡ []
  unfolding update filter
  filter-update [] h = refl
  filter-update (e ∷ es) h = elim (Bool-cases (is_open id e)) [
    | inl y ↦ rw y (rw (not_open id (assign e) (pays e) (rw y at (h.0))) (filter-update es h.1))
    | inr n ↦ rw n (rw n (filter-update es h.1))
  ]

  pub filter-update_open :
      (es fs : List CostEntry) → update_open id assign es ≡ ok fs → filter (is_open id) fs ≡ []
  unfolding update_open
  filter-update_open es fs h =
      elim (Bool-cases (exists (λ e. not (satisfies_checks e)) (update (is_open id) assign es))) [
        | inl y ↦ ground arith
        | inr n ↦
            ground (arith, filter-update es (exists-false (λ e. not (satisfies_checks e)) _ n))
      ]

update_open_closed :
    (id : ℕ) (assign : CostEntry → CostEntry) (es : List CostEntry)
    → filter (is_open id) es ≡ []
    → (x : CostError) × (update_open id assign es ≡ err x)
unfolding update_open
update_open_closed id assign es h = elim (Outcome-cases (update_open id assign es)) [
  | inl (fs, e) ↦ ground arith
  | inr refused ↦ refused
]

pub settle_closed :
    (now : ℕ) (r : CostReservation) (s : Settlement) (l : Ledger)
    → filter (is_open r.reservation_id) l.entries ≡ []
    → (x : CostError) × (settle now r s l ≡ err x)
settle_closed now r s l h = elim (Outcome-cases (settle now r s l)) [
  | inl ((l', out), e) ↦
      let (x, refused) = update_open_closed r.reservation_id (settled now s) l.entries h in
      ground (arith, settle-entries now r s l l' out e)
  | inr refused ↦ refused
]

pub settle_embedding_success_closed :
    (now : ℕ) (r : CostReservation) (s : EmbeddingSettlement) (l : Ledger)
    → filter (is_open r.reservation_id) l.entries ≡ []
    → (x : CostError) × (settle_embedding_success now r s l ≡ err x)
settle_embedding_success_closed now r s l h =
    elim (Outcome-cases (settle_embedding_success now r s l)) [
      | inl ((l', out), e) ↦
          let (x, refused) =
            update_open_closed r.reservation_id (embedding_settled now s) l.entries h in
          ground (arith, settle_embedding_success-entries now r s l l' out e)
      | inr refused ↦ refused
    ]
