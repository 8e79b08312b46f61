-- ===== src/Cost/Unique.antt =====
-- backend/app/ai_control.py: a request has one open or successful entry at a time, so it is paid for
-- once.
use esafe.Prelude.{
  ℕ, true, false, ◌≡◌, subst, sym, List, [], ◌∷◌, ◌++◌, arith, inl, inr, Bool-cases, exists,
  exists-append, update, ok, commit-keeps, str_eq, str_eq_iff, String, refl, fun_ext,
}
use esafe.Prelude.Int.{ℤ}
use esafe.Cost.Entry.{CostEntry, Profile, same_profile, same_request, is_active}
use esafe.Cost.Ledger.{Ledger, blocks, reserve, new_entry}
use esafe.Cost.Settling.{
  is_open, update_open, settled, embedding_settled, settle, settle_embedding_success,
  get_embedding_cache, Settlement, EmbeddingSettlement,
}
use esafe.Cost.Calls.{
  Call, call_reserve, call_settle, call_settle_embedding, call_get_cache, step, run,
}
use esafe.Cost.Rows.{
  settle-entries, settle_embedding_success-entries, get_embedding_cache-entries, reserve-entries,
}

-- No active entry is followed by an active one for the same request.
abbrev pub PaidOnce : List CostEntry → Type 0
PaidOnce [] = Unit
PaidOnce (e ∷ es) = (is_active e.status ≡ true → exists (blocks e) es ≡ false) × PaidOnce es

str_eq_sym : (s t : String) → str_eq s t ≡ str_eq t s
str_eq_sym s t = ground (arith, str_eq_iff s t, str_eq_iff t s)

same_profile_sym : (p q : Profile) → same_profile p q ≡ same_profile q p
same_profile_sym p q = ground arith

same_request_sym : (a b : CostEntry) → same_request a b ≡ same_request b a
unfolding same_request
same_request_sym a b = ground (
  arith,
  same_profile_sym a.profile b.profile,
  str_eq_sym a.feature_name b.feature_name,
  str_eq_sym a.model b.model,
  str_eq_sym a.request_sha256 b.request_sha256,
)

blocks_turned :
    (e new : CostEntry) → is_active e.status ≡ true → blocks new e ≡ false → blocks e new ≡ false
unfolding blocks
blocks_turned e new h n = ground (arith, same_request_sym e new)

PaidOnce-append :
    (es : List CostEntry) (new : CostEntry)
    → PaidOnce es
    → exists (blocks new) es ≡ false
    → PaidOnce (es ++ new ∷ [])
unfolding exists
PaidOnce-append [] new h free = ((λ a. refl), tt)
PaidOnce-append (e ∷ es) new h free = (
  (λ a. rw exists-append (ground (arith, h.0 a, blocks_turned e new a))),
  PaidOnce-append es new h.1 (ground arith),
)

open-active : (id : ℕ) (e : CostEntry) → is_open id e ≡ true → is_active e.status ≡ true
unfolding is_open
open-active id e h = ground arith

module _ (id : ℕ) (assign : CostEntry → CostEntry)
    (same_key : (n x : CostEntry) → blocks (assign n) x ≡ blocks n x)
    (still_free : (n x : CostEntry)
      → is_open id x ≡ true
      → blocks n x ≡ false
      → blocks n (assign x) ≡ false) where
  free-update :
      (n : CostEntry) (es : List CostEntry)
      → exists (blocks n) es ≡ false
      → exists (blocks n) (update (is_open id) assign es) ≡ false
  unfolding exists update
  free-update n [] h = refl
  free-update n (x ∷ es) h = elim (Bool-cases (is_open id x)) [
    | inl y ↦ rw y (ground (arith, still_free n x y, free-update n es))
    | inr k ↦ rw k (ground (arith, free-update n es))
  ]

  PaidOnce-update : (es : List CostEntry) → PaidOnce es → PaidOnce (update (is_open id) assign es)
  unfolding update
  PaidOnce-update [] h = tt
  PaidOnce-update (e ∷ es) h = elim (Bool-cases (is_open id e)) [
    | inl y ↦ rw y (
      (λ a. rw (fun_ext (same_key e)) (free-update e es (h.0 (open-active id e y)))),
      PaidOnce-update es h.1,
    )
    | inr k ↦ rw k ((λ a. free-update e es (h.0 a)), PaidOnce-update es h.1)
  ]

  PaidOnce-update_open :
      (es fs : List CostEntry) → PaidOnce es → update_open id assign es ≡ ok fs → PaidOnce fs
  unfolding update_open
  PaidOnce-update_open es fs h e = subst PaidOnce (ground arith) (PaidOnce-update es h)

PaidOnce-settled :
    (now id : ℕ) (s : Settlement) (es fs : List CostEntry)
    → PaidOnce es
    → update_open id (settled now s) es ≡ ok fs
    → PaidOnce fs
unfolding blocks settled same_request is_open
PaidOnce-settled now id s es fs =
    PaidOnce-update_open id (settled now s) (λ n x. refl) (λ n x o b. ground arith) es fs

PaidOnce-embedding_settled :
    (now id : ℕ) (s : EmbeddingSettlement) (es fs : List CostEntry)
    → PaidOnce es
    → update_open id (embedding_settled now s) es ≡ ok fs
    → PaidOnce fs
unfolding blocks embedding_settled same_request is_open
PaidOnce-embedding_settled now id s es fs =
    PaidOnce-update_open id (embedding_settled now s) (λ n x. refl) (λ n x o b. ground arith) es fs

step-PaidOnce :
    (hard_stop : ℤ) (c : Call) (l : Ledger)
    → PaidOnce l.entries
    → PaidOnce (step hard_stop c l).entries
unfolding step
step-PaidOnce hard_stop (call_reserve uuid r) l h =
    commit-keeps (λ l. PaidOnce l.entries) l (reserve hard_stop uuid r l) h
      λ l' out e.
        let (rows, free) = reserve-entries hard_stop uuid r l l' out e in
        subst PaidOnce (sym rows) (PaidOnce-append l.entries (new_entry uuid r) h free)
step-PaidOnce hard_stop (call_settle now r s) l h =
    commit-keeps (λ l. PaidOnce l.entries) l (settle now r s l) h
      λ l' out e.
        PaidOnce-settled now r.reservation_id s l.entries l'.entries h
          (settle-entries now r s l l' out e)
step-PaidOnce hard_stop (call_settle_embedding now r s) l h =
    commit-keeps (λ l. PaidOnce l.entries) l (settle_embedding_success now r s l) h
      λ l' out e.
        PaidOnce-embedding_settled now r.reservation_id s l.entries l'.entries h
          (settle_embedding_success-entries now r s l l' out e)
step-PaidOnce hard_stop (call_get_cache now model sha) l h =
    commit-keeps (λ l. PaidOnce l.entries) l (get_embedding_cache now model sha l) h
      λ l' out e. subst PaidOnce (sym (get_embedding_cache-entries now model sha l l' out e)) h

-- Whatever calls are made in any order, no two entries for the same profile, feature, model and
-- request digest are ever open or successful together, if that is so at the start.
pub run-PaidOnce :
    (hard_stop : ℤ) (calls : List Call) (l : Ledger)
    → PaidOnce l.entries
    → PaidOnce (run hard_stop calls l).entries
unfolding run
run-PaidOnce hard_stop [] l h = h
run-PaidOnce hard_stop (c ∷ cs) l h =
    run-PaidOnce hard_stop cs (step hard_stop c l) (step-PaidOnce hard_stop c l h)
