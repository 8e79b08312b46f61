-- ===== src/Cost/Budget.antt =====
-- backend/app/ai_control.py: what the ledger has committed never passes the hard stop.
use esafe.Prelude.{
  ℕ, true, false, not, ◌≡◌, subst, sym, ◌∙◌, refl, List, [], ◌∷◌, ◌++◌, arith, inl, inr, Bool-cases,
  All, exists, exists-false, update, ok, Outcome-cases, commit-keeps,
}
use esafe.Cost.Rows.{settle-entries, settle_embedding_success-entries, get_embedding_cache-entries}
use esafe.Prelude.Int.{ℤ, ◌+ℤ◌, ◌≤ℤ◌, +ℤ_parts}
use esafe.Cost.Entry.{CostEntry, satisfies_checks}
use esafe.Cost.Ledger.{
  Ledger, charge, committed, reserve, new_entry, insert_entry, CostReservation, ReserveRequest,
  check_cost_headroom,
}
use esafe.Cost.Settling.{
  settle, update_open, is_open, settled, embedding_settled, Settlement, EmbeddingSettlement,
  settle_embedding_success, get_embedding_cache,
}
use esafe.Cost.Calls.{
  step, run, Call, call_reserve, call_settle, call_settle_embedding, call_get_cache,
}

committed-append :
    (es : List CostEntry) (e : CostEntry)
    → committed (es ++ e ∷ [])
      ≤ℤ committed es +ℤ charge e.status e.reserved_cost_usd e.actual_cost_usd
unfolding committed
committed-append [] e = omega (arith, +ℤ_parts)
committed-append (x ∷ es) e = omega (arith, +ℤ_parts, committed-append es e)

-- An entry that satisfies the CHECK constraints counts for at most its reservation.
charge-le :
    (e : CostEntry)
    → not (satisfies_checks e) ≡ false
    → charge e.status e.reserved_cost_usd e.actual_cost_usd ≤ℤ e.reserved_cost_usd
unfolding satisfies_checks
charge-le e h = ground arith

pub charge_of_open :
    (id : ℕ) (e : CostEntry)
    → is_open id e ≡ true
    → charge e.status e.reserved_cost_usd e.actual_cost_usd ≡ e.reserved_cost_usd
unfolding is_open
charge_of_open id e h = ground arith

module _ (id : ℕ) (assign : CostEntry → CostEntry)
    (keeps : (e : CostEntry) → (assign e).reserved_cost_usd ≡ e.reserved_cost_usd) where
  assigned-le :
      (e : CostEntry)
      → is_open id e ≡ true
      → not (satisfies_checks (assign e)) ≡ false
      → charge (assign e).status (assign e).reserved_cost_usd (assign e).actual_cost_usd
        ≤ℤ charge e.status e.reserved_cost_usd e.actual_cost_usd
  assigned-le e y h =
      subst
        (λ most.
          charge (assign e).status (assign e).reserved_cost_usd (assign e).actual_cost_usd ≤ℤ most)
        (keeps e ∙ sym (charge_of_open id e y)) (charge-le (assign e) h)

  -- A settlement commits no more than what was reserved.
  committed-update :
      (es : List CostEntry)
      → All (λ e. not (satisfies_checks e) ≡ false) (update (is_open id) assign es)
      → committed (update (is_open id) assign es) ≤ℤ committed es
  unfolding committed update
  committed-update [] h = omega arith
  committed-update (e ∷ es) h = elim (Bool-cases (is_open id e)) [
    | inl y ↦
        rw y (omega (arith, +ℤ_parts, committed-update es h.1, assigned-le e y (rw y at (h.0))))
    | inr n ↦ rw n (omega (arith, +ℤ_parts, committed-update es h.1))
  ]

  committed-update_open :
      (es fs : List CostEntry) → update_open id assign es ≡ ok fs → committed fs ≤ℤ committed es
  unfolding update_open
  committed-update_open es fs h =
      elim (Bool-cases (exists (λ e. not (satisfies_checks e)) (update (is_open id) assign es))) [
        | inl y ↦ ground arith
        | inr n ↦
            ground (arith, committed-update es (exists-false (λ e. not (satisfies_checks e)) _ n))
      ]

headroom :
    (current requested hard_stop : ℤ)
    → check_cost_headroom current requested hard_stop ≡ ok tt
    → current +ℤ requested ≤ℤ hard_stop
unfolding check_cost_headroom
headroom current requested hard_stop h = ground arith

committed-insert_entry :
    (e : CostEntry) (es fs : List CostEntry)
    → insert_entry e es ≡ ok fs
    → committed fs ≤ℤ committed es +ℤ charge e.status e.reserved_cost_usd e.actual_cost_usd
unfolding insert_entry
committed-insert_entry e es fs h = ground (arith, committed-append es e)

committed-reserve :
    (hard_stop : ℤ) (uuid : ℕ) (r : ReserveRequest) (l l' : Ledger) (out : CostReservation)
    → reserve hard_stop uuid r l ≡ ok (l', out)
    → committed l'.entries ≤ℤ hard_stop
unfolding reserve
committed-reserve hard_stop uuid r l l' out h =
    elim (Outcome-cases (insert_entry (new_entry uuid r) l.entries)) [
      | inl (es, inserted) ↦ ground (
        arith,
        headroom (committed l.entries) r.reserved_cost_usd hard_stop,
        committed-insert_entry (new_entry uuid r) l.entries es inserted,
      )
      | inr (x, refused) ↦ ground arith
    ]

pub record WithinBudget (hard_stop : ℤ) (l : Ledger) : Type 0 where
  pub within : committed l.entries ≤ℤ hard_stop

committed-settled :
    (now id : ℕ) (s : Settlement) (es fs : List CostEntry)
    → update_open id (settled now s) es ≡ ok fs
    → committed fs ≤ℤ committed es
unfolding settled
committed-settled now id s es fs = committed-update_open id (settled now s) (λ e. refl) es fs

committed-embedding_settled :
    (now id : ℕ) (s : EmbeddingSettlement) (es fs : List CostEntry)
    → update_open id (embedding_settled now s) es ≡ ok fs
    → committed fs ≤ℤ committed es
unfolding embedding_settled
committed-embedding_settled now id s es fs =
    committed-update_open id (embedding_settled now s) (λ e. refl) es fs

-- Each call of the gate keeps the committed cost within the hard stop.
step-WithinBudget :
    (hard_stop : ℤ) (c : Call) (l : Ledger)
    → WithinBudget hard_stop l
    → WithinBudget hard_stop (step hard_stop c l)
unfolding step
step-WithinBudget hard_stop (call_reserve uuid r) l h =
    commit-keeps (WithinBudget hard_stop) l (reserve hard_stop uuid r l) h
      λ l' out e. record { within = committed-reserve hard_stop uuid r l l' out e }
step-WithinBudget hard_stop (call_settle now r s) l h =
    commit-keeps (WithinBudget hard_stop) l (settle now r s l) h λ l' out e. omega (
      arith,
      committed-settled now r.reservation_id s l.entries l'.entries
          (settle-entries now r s l l' out e),
    )
step-WithinBudget hard_stop (call_settle_embedding now r s) l h =
    commit-keeps (WithinBudget hard_stop) l (settle_embedding_success now r s l) h λ l' out e.
      omega (
        arith,
        committed-embedding_settled now r.reservation_id s l.entries l'.entries
            (settle_embedding_success-entries now r s l l' out e),
      )
step-WithinBudget hard_stop (call_get_cache now model sha) l h =
    commit-keeps (WithinBudget hard_stop) l (get_embedding_cache now model sha l) h λ l' out e.
      record {
        within =
            subst (λ es. committed es ≤ℤ hard_stop)
              (sym (get_embedding_cache-entries now model sha l l' out e)) h.within;
      }

-- Whatever calls any number of processes make, in any order, from a ledger that is within the hard
-- stop: the reservations still open and the actual costs of the successful and failed requests
-- together never pass it.
pub run-WithinBudget :
    (hard_stop : ℤ) (calls : List Call) (l : Ledger)
    → WithinBudget hard_stop l
    → WithinBudget hard_stop (run hard_stop calls l)
unfolding run
run-WithinBudget hard_stop [] l h = h
run-WithinBudget hard_stop (c ∷ cs) l h =
    run-WithinBudget hard_stop cs (step hard_stop c l) (step-WithinBudget hard_stop c l h)
