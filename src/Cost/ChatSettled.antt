-- ===== src/Cost/ChatSettled.antt =====
-- backend/app/upstage.py: a chat call leaves no reservation open.
use esafe.Prelude.{
  ℕ, zero, suc, String, Bool, true, false, ◌≡◌, ◌≤◌, refl, ap, not, List, [], ◌∷◌, ◌++◌, arith, inl,
  inr, Outcome-cases, ok, is_empty, prefix, text_length, exists, exists-append, filter,
  filter-append, update, All, if◌then◌else◌,
}
use esafe.Prelude.Int.{ℤ, pos, ltb_ℤ}
use esafe.Cost.Entry.{CostEntry, satisfies_checks, check_columns}
use esafe.Cost.Ledger.{
  Ledger, CostReservation, CostError, reserved_cost_not_positive, hard_stop_not_positive,
  current_cost_negative, cost_limit_reached, duplicate_cost_request, reservation_not_open,
  request_sha256_invalid, actual_outside_reservation, success_with_error, failure_without_error,
  cache_payload_invalid, integrity_error, ReserveRequest, reserve, new_entry, insert_entry,
}
use esafe.Cost.Settling.{Settlement, is_open, update_open, settled, settle}
use esafe.Cost.Rows.{settle-entries}
use esafe.Cost.Closed.{filter-update_open}
use esafe.Cost.Refund.{update_nothing}
use esafe.Cost.Price.{chat_cost}
use esafe.Cost.Chat.{
  ChatCall, ChatAnswer, ChatError, Provider, answered, raised, interrupted, chat_request,
  chat_failure, chat_success, fail_chat, cost_error_name, settle_chat, complete_json, not_settled,
  usage_inconsistent, provider_failed,
}

text_length-prefix : (n : ℕ) (s : String) → text_length (prefix n s) ≤ n
unfolding text_length prefix
text_length-prefix zero s = omega arith
text_length-prefix (suc n) String.[] = omega arith
text_length-prefix (suc n) (String.◌∷◌ c s) = omega (arith, text_length-prefix n s)

is_empty-prefix : (n : ℕ) (s : String) → is_empty s ≡ false → is_empty (prefix (suc n) s) ≡ false
unfolding prefix
is_empty-prefix n String.[] h = h
is_empty-prefix n (String.◌∷◌ c s) h = refl

update-append {ℓ} :
    {A : Type ℓ} (p : A → Bool) (f : A → A) (xs ys : List A)
    → update p f (xs ++ ys) ≡ update p f xs ++ update p f ys
unfolding update
update-append p f [] ys = refl
update-append p f (x ∷ xs) ys = ap (λ zs. (if p x then f x else x) ∷ zs) (update-append p f xs ys)

sound_rows :
    (es : List CostEntry)
    → All (λ e. satisfies_checks e ≡ true) es
    → exists (λ e. not (satisfies_checks e)) es ≡ false
unfolding exists
sound_rows [] h = refl
sound_rows (e ∷ es) h = rw h.0 (sound_rows es h.1)

named_error : (x : CostError) → is_empty (cost_error_name x) ≡ false
named_error reserved_cost_not_positive = refl
named_error hard_stop_not_positive = refl
named_error current_cost_negative = refl
named_error cost_limit_reached = refl
named_error duplicate_cost_request = refl
named_error reservation_not_open = refl
named_error request_sha256_invalid = refl
named_error actual_outside_reservation = refl
named_error success_with_error = refl
named_error failure_without_error = refl
named_error cache_payload_invalid = refl
named_error integrity_error = refl

-- A row as `reserve` wrote it satisfies the constraints once it is settled as failed.
failed_row :
    (now uuid : ℕ) (q : ReserveRequest) (r : CostReservation) (name : String)
    → r.reserved_cost_usd ≡ q.reserved_cost_usd
    → satisfies_checks (new_entry uuid q) ≡ true
    → satisfies_checks (settled now (chat_failure r name) (new_entry uuid q)) ≡ true
unfolding satisfies_checks new_entry settled chat_failure check_columns
failed_row now uuid q r name same h = ground (arith, text_length-prefix 80 name)

module _ (now uuid : ℕ) (q : ReserveRequest) (l : Ledger) (r : CostReservation)
    (sound : All (λ e. satisfies_checks e ≡ true) l.entries)
    (none_open : filter (is_open uuid) l.entries ≡ []) (its_id : r.reservation_id ≡ uuid)
    (its_cost : r.reserved_cost_usd ≡ q.reserved_cost_usd)
    (new_sound : satisfies_checks (new_entry uuid q) ≡ true) where
  new_open : is_open uuid (new_entry uuid q) ≡ true
  unfolding is_open new_entry
  new_open = ground arith

  one_open : filter (is_open uuid) (l.entries ++ new_entry uuid q ∷ []) ≡ new_entry uuid q ∷ []
  unfolding filter
  one_open =
      rw (filter-append (is_open uuid) l.entries (new_entry uuid q ∷ []), none_open, new_open) refl

  update_rows :
      (f : CostEntry → CostEntry)
      → update (is_open uuid) f (l.entries ++ new_entry uuid q ∷ [])
        ≡ l.entries ++ f (new_entry uuid q) ∷ []
  unfolding update
  update_rows f =
      rw
        (
          update-append (is_open uuid) f l.entries (new_entry uuid q ∷ []),
          update_nothing (is_open uuid) f l.entries (rw none_open refl),
          new_open,
        )
        refl

  -- The failure of an open reservation can always be recorded.
  failure_recorded :
      (name : String)
      → is_empty name ≡ false
      → (l' : Ledger) × (settle now r
            (chat_failure r name)
            (record l { entries = l.entries ++ new_entry uuid q ∷ [] })
          ≡ ok (l', tt))
  unfolding settle update_open chat_failure
  failure_recorded name named =
      let f = settled now (chat_failure r name) in
      let row = failed_row now uuid q r name its_cost new_sound in
      let rows = update_rows f in
      let fine : exists (λ e. not (satisfies_checks e)) (l.entries ++ f (new_entry uuid q) ∷ [])
          ≡ false =
        rw (exists-append, sound_rows l.entries sound) (unfold exists in rw row refl) in
      let positive : ltb_ℤ (pos 0) r.reserved_cost_usd ≡ true =
        unfold satisfies_checks new_entry in ground (arith, new_sound, its_cost) in
      let blank : is_empty (prefix 80 name) ≡ false = is_empty-prefix 79 name named in
      (
        record l { entries = l.entries ++ f (new_entry uuid q) ∷ [] },
        rw (its_id, rows, fine, one_open, blank) (ground (arith, positive)),
      )

  abbrev opened : Ledger
  opened = record l { entries = l.entries ++ new_entry uuid q ∷ [] }

  -- No row of the reservation is open.
  abbrev IsClosed : Ledger → Type 0
  IsClosed l' = filter (is_open uuid) l'.entries ≡ []

  settle-IsClosed :
      (s : Settlement) (l' : Ledger) (u : Unit {0})
      → settle now r s opened ≡ ok (l', u)
      → IsClosed l'
  settle-IsClosed s l' u e =
      filter-update_open uuid (settled now s) (unfold settled in λ e. refl)
        (l.entries ++ new_entry uuid q ∷ []) l'.entries
        (rw its_id at (settle-entries now r s opened l' u e))

  pub fail_chat-IsClosed :
      (name : String) (x : ChatError)
      → is_empty name ≡ false
      → IsClosed (fail_chat now r name x opened).0
  unfolding fail_chat
  fail_chat-IsClosed name x named =
      let (l', e) = failure_recorded name named in
      rw e (settle-IsClosed (chat_failure r name) l' tt e)

  pub answered-IsClosed : (a : ChatAnswer) → IsClosed (settle_chat now r (answered a) opened).0
  unfolding settle_chat
  answered-IsClosed a =
      elim (Outcome-cases (chat_cost a.input_tokens a.cached_input_tokens a.output_tokens)) [
        | inr (x, n) ↦ rw n (fail_chat-IsClosed "ValueError" usage_inconsistent refl)
        | inl (cost, y) ↦ rw y (elim (Outcome-cases (settle now r (chat_success cost a) opened)) [
          | inl ((l', u), e) ↦ rw e (settle-IsClosed (chat_success cost a) l' u e)
          | inr (x, e) ↦
              rw e (fail_chat-IsClosed (cost_error_name x) (not_settled x) (named_error x))
        ])
      ]

-- The call comes to an end in the process: an answer, or an exception whose type has a name.
abbrev pub Returns : Provider → Type 0
Returns (answered a) = Unit
Returns (raised name) = is_empty name ≡ false
Returns interrupted = ⊥

reserve-row :
    (hard_stop : ℤ) (uuid : ℕ) (q : ReserveRequest) (l l' : Ledger) (r : CostReservation)
    → reserve hard_stop uuid q l ≡ ok (l', r)
    → (l' ≡ record l { entries = l.entries ++ new_entry uuid q ∷ [] })
      × (r.reservation_id ≡ uuid)
      × (r.reserved_cost_usd ≡ q.reserved_cost_usd)
      × (satisfies_checks (new_entry uuid q) ≡ true)
unfolding reserve insert_entry
reserve-row hard_stop uuid q l l' r e = (ground arith, ground arith, ground arith, ground arith)

settled_end :
    (now uuid : ℕ) (q : ReserveRequest) (l : Ledger) (r : CostReservation)
    → All (λ e. satisfies_checks e ≡ true) l.entries
    → filter (is_open uuid) l.entries ≡ []
    → r.reservation_id ≡ uuid
    → r.reserved_cost_usd ≡ q.reserved_cost_usd
    → satisfies_checks (new_entry uuid q) ≡ true
    → (p : Provider) → Returns p
    → filter
        (is_open uuid)
        (settle_chat now r p (record l { entries = l.entries ++ new_entry uuid q ∷ [] })).0.entries
      ≡ []
settled_end now uuid q l r sound free its_id its_cost row (answered a) h =
    answered-IsClosed now uuid q l r sound free its_id its_cost row a
settled_end now uuid q l r sound free its_id its_cost row (raised name) h =
    unfold settle_chat in
    fail_chat-IsClosed now uuid q l r sound free its_id its_cost row name provider_failed h
settled_end now uuid q l r sound free its_id its_cost row interrupted h = absurd h

-- A chat call that comes to an end in the process leaves no reservation of its own open, whatever the
-- provider answers, and whether the parsing, the price or the settlement fails: what it reserved is settled
-- as a success or as a failure. (The rows of the ledger satisfy their constraints, and none with the drawn
-- id is open before.)
pub chat_settles :
    (hard_stop : ℤ) (uuid now : ℕ) (c : ChatCall) (p : Provider) (l : Ledger)
    → All (λ e. satisfies_checks e ≡ true) l.entries
    → filter (is_open uuid) l.entries ≡ []
    → Returns p
    → filter (is_open uuid) (complete_json hard_stop uuid now c p l).0.entries ≡ []
unfolding complete_json
chat_settles hard_stop uuid now c p l sound free returns =
    let q = chat_request c in
    elim (Outcome-cases (reserve hard_stop uuid q l)) [
      | inr (x, n) ↦ ground (arith, n, free)
      | inl ((l', r), e) ↦
          let (left, its_id, its_cost, row) = reserve-row hard_stop uuid q l l' r e in
          let closed : filter (is_open uuid) (settle_chat now r p l').0.entries ≡ [] =
            rw left (settled_end now uuid q l r sound free its_id its_cost row p returns) in
          ground (arith, e, free, closed)
    ]
