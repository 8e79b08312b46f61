-- ===== src/Cost/Settlement.antt =====
-- backend/app/ai_control.py: a reservation is settled once, whatever calls follow.
use esafe.Prelude.{
  ℕ, Bool, ◌==◌, length, subst, sym, commit-keeps, exists-append, filter-append, true, false, not,
  ◌≡◌, refl, is_some, List, [], ◌∷◌, arith, inl, inr, Bool-cases, All, exists, exists-false, update,
  filter, ok, err,
}
use esafe.Cost.Entry.{CostEntry, satisfies_checks}
use esafe.Prelude.Int.{ℤ}
use esafe.Cost.Ledger.{
  Ledger, CostReservation, CostError, ReserveRequest, reserve, insert_entry, new_entry, has_id,
}
use esafe.Cost.Calls.{
  Call, call_reserve, call_settle, call_settle_embedding, call_get_cache, step, run,
}
use esafe.Cost.Settling.{
  is_open, update_open, settled, settle, Settlement, settle_embedding_success, EmbeddingSettlement,
  embedding_settled, get_embedding_cache,
}
use esafe.Cost.Rows.{
  settle-entries, settle_embedding_success-entries, get_embedding_cache-entries, reserve-entries,
}
use esafe.Cost.Closed.{not_open, filter-update_open, settle_closed, settle_embedding_success_closed}

-- A reservation that has been settled: there is a row of it, and no open one.
abbrev pub IsSettled : ℕ → List CostEntry → Type 0
IsSettled id es = (exists (has_id id) es ≡ true) × (filter (is_open id) es ≡ [])

not_filtered {ℓ} :
    {A : Type ℓ} (p : A → Bool) (x : A) (xs : List A)
    → filter p (x ∷ xs) ≡ []
    → (p x ≡ false) × (filter p xs ≡ [])
unfolding filter
not_filtered p x xs h = elim (Bool-cases (p x)) [ inl y ↦ absurd cc | inr n ↦ (n, ground arith) ]

-- The settlement of any row leaves none open that was not open before.
module _ (id other : ℕ) (assign : CostEntry → CostEntry)
    (pays : (e : CostEntry) → is_some (assign e).actual_cost_usd ≡ true)
    (same_id : (e : CostEntry) → (assign e).reservation_id ≡ e.reservation_id) where
  closed-update :
      (es : List CostEntry)
      → All (λ e. not (satisfies_checks e) ≡ false) (update (is_open other) assign es)
      → filter (is_open id) es ≡ []
      → filter (is_open id) (update (is_open other) assign es) ≡ []
  unfolding update filter
  closed-update [] h closed = refl
  closed-update (e ∷ es) h closed =
      let (shut, rest) = not_filtered (is_open id) e es closed in
      elim (Bool-cases (is_open other e)) [
        | inl y ↦
            rw y (rw (not_open id (assign e) (pays e) (rw y at (h.0))) (closed-update es h.1 rest))
        | inr n ↦ rw n (rw shut (closed-update es h.1 rest))
      ]

  known-update :
      (es : List CostEntry)
      → exists (has_id id) (update (is_open other) assign es) ≡ exists (has_id id) es
  unfolding update exists
  known-update [] = refl
  known-update (e ∷ es) = elim (Bool-cases (is_open other e)) [
    | inl y ↦ rw (y, same_id e, known-update es) refl
    | inr n ↦ rw (n, known-update es) refl
  ]

  IsSettled-update_open :
      (es fs : List CostEntry)
      → IsSettled id es
      → update_open other assign es ≡ ok fs
      → IsSettled id fs
  unfolding update_open
  IsSettled-update_open es fs (known, closed) h =
      elim (Bool-cases
        (exists (λ e. not (satisfies_checks e)) (update (is_open other) assign es))) [
          | inl y ↦ ground arith
          | inr n ↦ subst (IsSettled id) (ground arith) (
            rw (known-update es) known,
            closed-update es (exists-false (λ e. not (satisfies_checks e)) _ n) closed,
          )
        ]

IsSettled-reserve :
    (hard_stop : ℤ) (uuid id : ℕ) (q : ReserveRequest) (l l' : Ledger) (out : CostReservation)
    → reserve hard_stop uuid q l ≡ ok (l', out)
    → IsSettled id l.entries
    → IsSettled id l'.entries
unfolding reserve insert_entry filter is_open exists
IsSettled-reserve hard_stop uuid id q l l' out h (known, closed) =
    let (rows, free) = reserve-entries hard_stop uuid q l l' out h in
    let new : exists (has_id uuid) l.entries ≡ false = unfold new_entry in ground arith in
    let differ : (uuid == id) ≡ false = elim (Bool-cases (uuid == id)) [
      | inr n ↦ n
      | inl y ↦
          let same : uuid ≡ id = ground arith in
          let there : exists (has_id id) l.entries ≡ false =
            subst (λ k. exists (has_id k) l.entries ≡ false) same new in
          absurd (ground arith)
    ] in
    subst (IsSettled id) (sym rows) (
      rw (exists-append (has_id id) l.entries (new_entry uuid q ∷ [])) (ground arith),
      rw (filter-append (is_open id) l.entries (new_entry uuid q ∷ []), closed)
          (unfold new_entry in rw differ refl),
    )

step-IsSettled :
    (hard_stop : ℤ) (id : ℕ) (c : Call) (l : Ledger)
    → IsSettled id l.entries
    → IsSettled id (step hard_stop c l).entries
unfolding step settled embedding_settled
step-IsSettled hard_stop id (call_reserve uuid q) l h =
    commit-keeps (λ l. IsSettled id l.entries) l (reserve hard_stop uuid q l) h
      λ l' out e. IsSettled-reserve hard_stop uuid id q l l' out e h
step-IsSettled hard_stop id (call_settle now r s) l h =
    commit-keeps (λ l. IsSettled id l.entries) l (settle now r s l) h
      λ l' out e.
        IsSettled-update_open id r.reservation_id (settled now s) (λ e. refl) (λ e. refl) l.entries
          l'.entries h (settle-entries now r s l l' out e)
step-IsSettled hard_stop id (call_settle_embedding now r s) l h =
    commit-keeps (λ l. IsSettled id l.entries) l (settle_embedding_success now r s l) h
      λ l' out e.
        IsSettled-update_open id r.reservation_id (embedding_settled now s) (λ e. refl) (λ e. refl)
          l.entries l'.entries h (settle_embedding_success-entries now r s l l' out e)
step-IsSettled hard_stop id (call_get_cache now model sha) l h =
    commit-keeps (λ l. IsSettled id l.entries) l (get_embedding_cache now model sha l) h
      λ l' out e.
        subst (IsSettled id) (sym (get_embedding_cache-entries now model sha l l' out e)) h

run-IsSettled :
    (hard_stop : ℤ) (id : ℕ) (calls : List Call) (l : Ledger)
    → IsSettled id l.entries
    → IsSettled id (run hard_stop calls l).entries
unfolding run
run-IsSettled hard_stop id [] l h = h
run-IsSettled hard_stop id (c ∷ cs) l h =
    run-IsSettled hard_stop id cs (step hard_stop c l) (step-IsSettled hard_stop id c l h)

-- What an accepted settlement leaves: before it the row was there.
open-known :
    (id : ℕ) (es : List CostEntry)
    → length (filter (is_open id) es) ≡ 1
    → exists (has_id id) es ≡ true
unfolding filter exists is_open
open-known id [] h = absurd cc
open-known id (e ∷ es) h = elim (Bool-cases (e.reservation_id == id)) [
  | inl y ↦ rw y refl
  | inr n ↦ rw n (open-known id es (ground arith))
]

settle-IsSettled :
    (now : ℕ) (r : CostReservation) (s : Settlement) (l l' : Ledger)
    → settle now r s l ≡ ok (l', tt)
    → IsSettled r.reservation_id l'.entries
unfolding settled update_open
settle-IsSettled now r s l l' h =
    let rows = settle-entries now r s l l' tt h in
    let closed =
      filter-update_open r.reservation_id (settled now s) (λ e. refl) l.entries l'.entries rows in
    let known = open-known r.reservation_id l.entries (ground arith) in
    let same : update (is_open r.reservation_id) (settled now s) l.entries ≡ l'.entries =
      ground arith in
    (
      subst (λ es. exists (has_id r.reservation_id) es ≡ true) same
          (rw
            (known-update r.reservation_id r.reservation_id (settled now s) (λ e. refl) (λ e. refl)
              l.entries)
            known),
      closed,
    )

-- A reservation that `settle` has settled is settled for good: after any later calls of the gate, a
-- settlement of it, of either kind, raises.
pub settle_once :
    (hard_stop : ℤ) (now later : ℕ) (r : CostReservation) (s s' : Settlement)
    (t : EmbeddingSettlement) (l l' : Ledger) (calls : List Call)
    → settle now r s l ≡ ok (l', tt)
    → ((x : CostError) × (settle later r s' (run hard_stop calls l') ≡ err x))
      × ((x : CostError) × (settle_embedding_success later r t (run hard_stop calls l') ≡ err x))
settle_once hard_stop now later r s s' t l l' calls h =
    let end = run hard_stop calls l' in
    let (known, closed) =
      run-IsSettled hard_stop r.reservation_id calls l' (settle-IsSettled now r s l l' h) in
    (settle_closed later r s' end closed, settle_embedding_success_closed later r t end closed)
