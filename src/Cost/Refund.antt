-- ===== src/Cost/Refund.antt =====
-- backend/app/ai_control.py: what a settlement gives back of its reservation.
use esafe.Prelude.{
  ℕ, Bool, ◌≡◌, refl, ap, subst, ◌∙◌, some, List, [], ◌∷◌, arith, inl, inr, Bool-cases, select,
  filter, length, update, ok, select_sound,
}
use esafe.Prelude.Int.{ℤ, pos, pos_part, neg_part, ◌+ℤ◌, +ℤ_parts, eq_of_parts}
use esafe.Cost.Entry.{CostEntry, CostStatus, success, failed, cancelled}
use esafe.Cost.Ledger.{Ledger, CostReservation, charge, committed}
use esafe.Cost.Settling.{Settlement, is_open, settle, settled, update_open}
use esafe.Cost.Rows.{settle-entries}
use esafe.Cost.Budget.{charge_of_open}

pub update_nothing {ℓ} :
    {A : Type ℓ} (p : A → Bool) (f : A → A) (xs : List A)
    → length (filter p xs) ≡ 0
    → update p f xs ≡ xs
unfolding filter update
update_nothing p f [] h = refl
update_nothing p f (x ∷ xs) h = elim (Bool-cases (p x)) [
  | inl y ↦ absurd (ground arith)
  | inr n ↦ ground (arith, update_nothing p f xs)
]

add_nothing : (a : ℤ) → a +ℤ pos 0 ≡ a
add_nothing a = eq_of_parts (a +ℤ pos 0) a (omega (arith, +ℤ_parts))

abbrev charge_of : CostEntry → ℤ
charge_of e = charge e.status e.reserved_cost_usd e.actual_cost_usd

swap_ends : (a b c : ℤ) → a +ℤ c +ℤ b ≡ b +ℤ c +ℤ a
swap_ends a b c = eq_of_parts (a +ℤ c +ℤ b) (b +ℤ c +ℤ a) (omega (arith, +ℤ_parts))

add_both : (d a b c g : ℤ) → a +ℤ b ≡ c +ℤ g → d +ℤ a +ℤ b ≡ d +ℤ c +ℤ g
add_both d a b c g h =
    let left : pos_part (a +ℤ b) ≡ pos_part (c +ℤ g) = ap pos_part h in
    let right : neg_part (a +ℤ b) ≡ neg_part (c +ℤ g) = ap neg_part h in
    eq_of_parts (d +ℤ a +ℤ b) (d +ℤ c +ℤ g) (omega (arith, +ℤ_parts))

-- An assignment to the one row of a condition moves the committed cost by what that row moves.
committed-update_one :
    (p : CostEntry → Bool) (f : CostEntry → CostEntry) (es : List CostEntry) (e : CostEntry)
    → select p es ≡ some e
    → length (filter p es) ≡ 1
    → committed (update p f es) +ℤ charge_of e ≡ committed es +ℤ charge_of (f e)
unfolding committed filter update select
committed-update_one p f [] e found one = absurd cc
committed-update_one p f (x ∷ xs) e found one = elim (Bool-cases (p x)) [
  | inl y ↦
      let this : x ≡ e = ground arith in
      let rest : update p f xs ≡ xs = update_nothing p f xs (ground arith) in
      subst
        (λ e.
          committed (update p f (x ∷ xs)) +ℤ charge_of e ≡ committed (x ∷ xs) +ℤ charge_of (f e))
        this (rw y (rw rest (swap_ends (charge_of (f x)) (charge_of x) (committed xs))))
  | inr n ↦
      let there : select p xs ≡ some e = ground arith in
      let single : length (filter p xs) ≡ 1 = ground arith in
      rw n (
        add_both (charge_of x) (committed (update p f xs)) (charge_of e) (committed xs)
          (charge_of (f e)) (committed-update_one p f xs e there single))
]

update_open_one :
    (id : ℕ) (assign : CostEntry → CostEntry) (es fs : List CostEntry)
    → update_open id assign es ≡ ok fs
    → (length (filter (is_open id) es) ≡ 1) × (update (is_open id) assign es ≡ fs)
unfolding update_open
update_open_one id assign es fs h = (ground arith, ground arith)

settle_moves :
    (now : ℕ) (r : CostReservation) (s : Settlement) (l l' : Ledger) (e : CostEntry)
    → settle now r s l ≡ ok (l', tt)
    → select (is_open r.reservation_id) l.entries ≡ some e
    → committed l'.entries +ℤ e.reserved_cost_usd
      ≡ committed l.entries +ℤ charge s.status e.reserved_cost_usd (some s.actual_cost_usd)
unfolding settled
settle_moves now r s l l' e h found =
    let (one, rows) =
      update_open_one r.reservation_id (settled now s) l.entries l'.entries
        (settle-entries now r s l l' tt h) in
    let moved =
      committed-update_one (is_open r.reservation_id) (settled now s) l.entries e found one in
    let same : charge_of e ≡ e.reserved_cost_usd =
      charge_of_open r.reservation_id e
        (select_sound (is_open r.reservation_id) l.entries e found) in
    let after = committed l.entries +ℤ charge_of (settled now s e) in
    subst (λ n. committed l'.entries +ℤ n ≡ after) same
      (subst (λ es. committed es +ℤ charge_of e ≡ after) rows moved)

-- A `settle` that is accepted replaces the reservation in the committed cost by the actual cost, if it
-- is a success or a failure, and takes the reservation out of it if it is a cancellation, whatever
-- actual cost that names.
pub settle-committed :
    (now : ℕ) (r : CostReservation) (s : Settlement) (l l' : Ledger) (e : CostEntry)
    → settle now r s l ≡ ok (l', tt)
    → select (is_open r.reservation_id) l.entries ≡ some e
    → (s.status ≡ success
        → committed l'.entries +ℤ e.reserved_cost_usd ≡ committed l.entries +ℤ s.actual_cost_usd)
      × (s.status ≡ failed
          → committed l'.entries +ℤ e.reserved_cost_usd ≡ committed l.entries +ℤ s.actual_cost_usd)
      × (s.status ≡ cancelled → committed l'.entries +ℤ e.reserved_cost_usd ≡ committed l.entries)
settle-committed now r s l l' e h found =
    let due : CostStatus → Type 0 = λ status.
      committed l'.entries +ℤ e.reserved_cost_usd
      ≡ committed l.entries +ℤ charge status e.reserved_cost_usd (some s.actual_cost_usd) in
    let moves = settle_moves now r s l l' e h found in
    (
      (λ y. subst due y moves),
      (λ y. subst due y moves),
      (λ y. subst due y moves ∙ add_nothing (committed l.entries)),
    )
