-- ===== src/Workflow/Repeated.antt =====
-- backend/app/workflow.py: a transition that is repeated with its key after other calls.
use esafe.Prelude.{
  ℕ, String, Bool, true, false, ◌≡◌, refl, subst, sym, some, List, [], ◌∷◌, arith, ok, inl, inr,
  Bool-cases, Option-cases, select, filter, exists, exists-append, update, commit-keeps, is_empty,
  strip, ◌==◌, ◌++◌,
}
use esafe.Workflow.Rows.{WorkItem, WorkStatus, Db, Env, Actor}
use esafe.Workflow.Queries.{
  WorkDetail, work_item_detail, validate_idempotency_key, parse_work_status, audit_key, has_work_id,
  has_audit_key, belongs_to,
}
use esafe.Workflow.Creation.{create_case_work_item}
use esafe.Workflow.Transition.{TransitionRequest, transition_work_item, moved}
use esafe.Workflow.Checklist.{update_checklist_item, checklist_progress, rescored}
use esafe.Workflow.Closure.{close_case}
use esafe.Workflow.Effects.{transition_work_item-effect, TransitionEffect}
use esafe.Workflow.Effects.Creation.{create_case_work_item-effect, CreateEffect}
use esafe.Workflow.Effects.Checking.{update_checklist_item-effect, CheckEffect}
use esafe.Workflow.Effects.Closing.{close_case-effect, CloseEffect}
use esafe.Workflow.Replay.{first_key, first_version, used_keeps}
use esafe.Workflow.Requests.{
  Request, create, transition, check, close, signal, handle, serve, serve_induction,
}

-- An audit event has this key, and there is a row of this work item.
abbrev pub IsKnown : String → ℕ → Db → Type 0
IsKnown key id db =
    (exists (has_audit_key key) db.audits ≡ true) × (exists (has_work_id id) db.works ≡ true)

exists-select {ℓ} :
    {A : Type ℓ} (p : A → Bool) (xs : List A)
    → exists p xs ≡ true
    → (x : A) × (select p xs ≡ some x)
unfolding exists select
exists-select p [] h = absurd cc
exists-select p (x ∷ xs) h = elim (Bool-cases (p x)) [
  | inl y ↦ (x, rw y refl)
  | inr n ↦ let (a, e) = exists-select p xs (ground arith) in (a, rw n e)
]

select-exists {ℓ} :
    {A : Type ℓ} (p : A → Bool) (xs : List A) (x : A) → select p xs ≡ some x → exists p xs ≡ true
unfolding exists select
select-exists p [] x h = absurd cc
select-exists p (a ∷ xs) x h = elim (Bool-cases (p a)) [
  | inl y ↦ rw y refl
  | inr n ↦ rw n (select-exists p xs x (ground arith))
]

still_there :
    (id k : ℕ) (assign : WorkItem → WorkItem) (works : List WorkItem)
    → ((w : WorkItem) → (assign w).work_item_id ≡ w.work_item_id)
    → exists (has_work_id id) (update (has_work_id k) assign works) ≡ exists (has_work_id id) works
unfolding exists update
still_there id k assign [] keeps = refl
still_there id k assign (w ∷ works) keeps = elim (Bool-cases (w.work_item_id == k)) [
  | inl y ↦ rw (y, keeps w, still_there id k assign works keeps) refl
  | inr n ↦ rw (n, still_there id k assign works keeps) refl
]

appended {ℓ} :
    {A : Type ℓ} (p : A → Bool) (xs : List A) (x : A)
    → exists p xs ≡ true
    → exists p (xs ++ x ∷ []) ≡ true
appended p xs x h = rw (exists-append p xs (x ∷ []), h) refl

handle-IsKnown :
    (env : Env) (key : String) (id : ℕ) (q : Request) (db : Db)
    → IsKnown key id db
    → IsKnown key id (handle env q db)
unfolding handle
handle-IsKnown env k id (create who now new uuids r) db h =
    commit-keeps (IsKnown k id) db (create_case_work_item env who now new uuids r db) h λ db' d e.
      elim (create_case_work_item-effect env who now new uuids r db db' d e) [
        | CreateEffect.found same ↦ subst (IsKnown k id) (sym same) h
        | CreateEffect.created key priority ready fresh works audits cases ↦
            (rw audits (appended _ db.audits _ h.0), rw works (appended _ db.works _ h.1))
      ]
handle-IsKnown env k id (transition who now r) db h =
    commit-keeps (IsKnown k id) db (transition_work_item env who now r db) h λ db' d e.
      elim (transition_work_item-effect env who now r db db' d e) [
        | TransitionEffect.replayed same ↦ subst (IsKnown k id) (sym same) h
        | TransitionEffect.applied key target v found et same move reason works audits cases ↦ (
          rw audits (appended _ db.audits _ h.0),
          rw
              (
                works,
                still_there id r.work_item_id (moved now target) db.works
                    (unfold moved in λ u. refl),
              )
              h.1,
        )
      ]
handle-IsKnown env k id (check who now r) db h =
    commit-keeps (IsKnown k id) db (update_checklist_item env who now r db) h λ db' d e.
      elim (update_checklist_item-effect env who now r db db' d e) [
        | CheckEffect.replayed same ↦ subst (IsKnown k id) (sym same) h
        | CheckEffect.applied key before after v items found same live works audits cases ↦ (
          rw audits (appended _ db.audits _ h.0),
          rw
              (
                works,
                still_there id r.work_item_id (rescored now (checklist_progress items)) db.works
                    (unfold rescored in λ u. refl),
              )
              h.1,
        )
      ]
handle-IsKnown env k id (close who now new r) db h =
    commit-keeps (IsKnown k id) db (close_case env who now new r db) h λ db' d e.
      elim (close_case-effect env who now new r db db' d e) [
        | CloseEffect.found same ↦ subst (IsKnown k id) (sym same) h
        | CloseEffect.finished key summary reason c found guards works audits cases ↦
            (rw audits (appended _ db.audits _ h.0), rw works h.1)
      ]
handle-IsKnown env k id (signal case s) db h = h

-- What an accepted request has been checked for.
record Passed (r : TransitionRequest) (db : Db) : Type 0 where
  target : WorkStatus
  w : WorkItem
  reason : is_empty (strip r.reason) ≡ false
  parsed : parse_work_status r.target_status ≡ some target
  found : select (has_work_id r.work_item_id) db.works ≡ some w

module _ (env : Env) (who : Actor) (now : ℕ) (r : TransitionRequest) (db db' : Db) (d : WorkDetail)
    (key : String) (ek : validate_idempotency_key r.idempotency_key ≡ ok key)
    (h : transition_work_item env who now r db ≡ ok (db', d)) where
  request_checks : Passed r db
  unfolding transition_work_item
  request_checks = elim (Option-cases (parse_work_status r.target_status)) [
    | inl e ↦ ground arith
    | inr (target, et) ↦ elim (Option-cases (select (has_work_id r.work_item_id) db.works)) [
      | inl e ↦ ground arith
      | inr (w, ew) ↦ record {
        target = target;
        w = w;
        reason = ground arith;
        parsed = et;
        found = ew;
      }
    ]
  ]

  accepted-IsKnown : IsKnown (audit_key env key) r.work_item_id db'
  accepted-IsKnown = elim (Bool-cases (exists (has_audit_key (audit_key env key)) db.audits)) [
    | inr fresh ↦
        let (v, found, newer) = first_version env who now r db db' d key ek h fresh in
        (first_key env who now r db db' d key ek h fresh, select-exists _ db'.works v found)
    | inl used ↦
        subst (IsKnown (audit_key env key) r.work_item_id)
          (sym (used_keeps env who now r db key ek used db' d h))
          (used, select-exists _ db.works request_checks.w request_checks.found)
  ]

repeated :
    (env : Env) (who : Actor) (now : ℕ) (r : TransitionRequest) (db : Db) (key : String)
    (target : WorkStatus) (w : WorkItem)
    → validate_idempotency_key r.idempotency_key ≡ ok key
    → is_empty (strip r.reason) ≡ false
    → parse_work_status r.target_status ≡ some target
    → select (has_work_id r.work_item_id) db.works ≡ some w
    → exists (has_audit_key (audit_key env key)) db.audits ≡ true
    → (d : WorkDetail) × (work_item_detail db r.work_item_id ≡ ok d)
      × (transition_work_item env who now r db ≡ ok (db, d))
unfolding transition_work_item work_item_detail
repeated env who now r db key target w ek er et ew used = (
  record { item = w; checklist = filter (belongs_to r.work_item_id) db.checklists },
  rw ew refl,
  rw (ek, er, et, ew, used) refl,
)

-- A transition that was accepted, repeated with its key by anyone after any calls and signals, is
-- accepted again and changes nothing; its reply is the work item as it then stands.
pub transition_replay :
    (env : Env) (who who' : Actor) (now later : ℕ) (r : TransitionRequest) (db db' : Db)
    (d : WorkDetail) (key : String) (qs : List Request)
    → validate_idempotency_key r.idempotency_key ≡ ok key
    → transition_work_item env who now r db ≡ ok (db', d)
    → (d' : WorkDetail) × (work_item_detail (serve env qs db') r.work_item_id ≡ ok d')
      × (transition_work_item env who' later r (serve env qs db') ≡ ok (serve env qs db', d'))
transition_replay env who who' now later r db db' d key qs ek h =
    let (used, there) =
      serve_induction env (IsKnown (audit_key env key) r.work_item_id)
        (handle-IsKnown env (audit_key env key) r.work_item_id) qs db'
        (accepted-IsKnown env who now r db db' d key ek h) in
    let (w, found) = exists-select _ (serve env qs db').works there in
    let p = request_checks env who now r db db' d key ek h in
    repeated env who' later r (serve env qs db') key p.target w ek p.reason p.parsed found used
