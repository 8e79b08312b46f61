-- ===== src/Workflow/Replay.antt =====
-- backend/app/workflow.py: idempotency keys and versions of `transition_work_item`.
use esafe.Prelude.{
  ℕ, ◌+◌, String, true, false, ◌≡◌, refl, sym, subst, some, List, arith, ok, inl, inr, Option-cases,
  Outcome-cases, select, select-update, select_sound, commit-keeps, ◌≢◌, exists, exists-append,
  update, is_empty, strip, commit, str_eq_iff,
}
use esafe.Workflow.Rows.{WorkItem, WorkStatus, Db, Env, Actor}
use esafe.Workflow.Queries.{
  WorkDetail, work_item_detail, validate_idempotency_key, parse_work_status, audit_key, has_work_id,
  has_audit_key,
}
use esafe.Workflow.Transition.{
  TransitionRequest, transition_work_item, transition_new, transition_audit, moved,
}
use esafe.Workflow.Effects.{transition_work_item-effect, transition_new-effect, TransitionEffect}

transition_audit-key :
    (who : Actor) (key : String) (r : TransitionRequest) (a b : WorkStatus)
    → has_audit_key key (transition_audit who key r a b) ≡ true
unfolding transition_audit
transition_audit-key who key r a b = ground (arith, str_eq_iff key key)

moved_found :
    (now id : ℕ) (target : WorkStatus) (works : List WorkItem) (w : WorkItem)
    → select (has_work_id id) works ≡ some w
    → select (has_work_id id) (update (has_work_id id) (moved now target) works)
      ≡ some (moved now target w)
unfolding moved
moved_found now id target works w found =
    rw (select-update (has_work_id id) (has_work_id id) (moved now target) works (λ v. refl))
      (rw found (ground (arith, select_sound (has_work_id id) works w found)))

-- What a first, accepted request leaves behind.
module _ (env : Env) (who : Actor) (now : ℕ) (r : TransitionRequest) (db db' : Db) (d : WorkDetail)
    (key : String) (ek : validate_idempotency_key r.idempotency_key ≡ ok key)
    (h : transition_work_item env who now r db ≡ ok (db', d))
    (fresh : exists (has_audit_key (audit_key env key)) db.audits ≡ false) where
  record FirstMove : Type 0 where
    target : WorkStatus
    w : WorkItem
    reason : is_empty (strip r.reason) ≡ false
    parsed : parse_work_status r.target_status ≡ some target
    found : select (has_work_id r.work_item_id) db.works ≡ some w
    done : transition_new who now (audit_key env key) target r w db ≡ ok (db', d)

  first_move : FirstMove
  unfolding transition_work_item
  first_move = elim (Option-cases (parse_work_status r.target_status)) [
    | inl e ↦ ground arith
    | inr (target, et) ↦ elim (Option-cases (select (has_work_id r.work_item_id) db.works)) [
      | inl e ↦ ground arith
      | inr (w, ew) ↦ record {
        target = target;
        w = w;
        reason = ground arith;
        parsed = et;
        found = ew;
        done = ground arith;
      }
    ]
  ]

  pub first_key : exists (has_audit_key (audit_key env key)) db'.audits ≡ true
  unfolding exists
  first_key =
      let m = first_move in
      let (same, move, works, audits, cases) =
        transition_new-effect who now (audit_key env key) m.target r m.w db db' d m.done in
      subst (λ as'. exists (has_audit_key (audit_key env key)) as' ≡ true) (sym audits)
        (rw exists-append
          (ground (arith, transition_audit-key who (audit_key env key) r m.w.status m.target)))

  pub first_version :
      (v : WorkItem) × (select (has_work_id r.work_item_id) db'.works ≡ some v)
      × (v.version ≡ r.expected_version + 1)
  unfolding moved
  first_version =
      let m = first_move in
      let (same, move, works, audits, cases) =
        transition_new-effect who now (audit_key env key) m.target r m.w db db' d m.done in
      (
        moved now m.target m.w,
        subst (λ ws. select (has_work_id r.work_item_id) ws ≡ some (moved now m.target m.w))
            (sym works) (moved_found now r.work_item_id m.target db.works m.w m.found),
        omega arith,
      )

module _ (env : Env) (who : Actor) (now : ℕ) (r : TransitionRequest) (db : Db) (key : String)
    (ek : validate_idempotency_key r.idempotency_key ≡ ok key)
    (used : exists (has_audit_key (audit_key env key)) db.audits ≡ true) where
  pub used_keeps :
      (db' : Db) (d : WorkDetail) → transition_work_item env who now r db ≡ ok (db', d) → db' ≡ db
  unfolding transition_work_item
  used_keeps db' d h = elim (Outcome-cases (work_item_detail db r.work_item_id)) [
    | inl (detail, e) ↦ ground arith
    | inr (x, e) ↦ ground arith
  ]

stale :
    (env : Env) (who : Actor) (now : ℕ) (r : TransitionRequest) (db : Db) (v : WorkItem)
    → select (has_work_id r.work_item_id) db.works ≡ some v
    → v.version ≢ r.expected_version
    → commit db (transition_work_item env who now r db) ≡ db
stale env who now r db v found newer =
    commit-keeps (λ s. s ≡ db) db (transition_work_item env who now r db) refl
      λ db' d e. elim (transition_work_item-effect env who now r db db' d e) [
        | TransitionEffect.replayed same ↦ same
        | TransitionEffect.applied key target w there et same move reason works audits cases ↦
            absurd (newer (ground arith))
      ]

-- Of two transitions of one work item that were made from the same version, the first having been
-- accepted with a key that no audit event had, the second changes nothing, whatever it asks for.
pub transition_stale :
    (env : Env) (who who' : Actor) (now later : ℕ) (r r' : TransitionRequest) (db db' : Db)
    (d : WorkDetail) (key : String)
    → validate_idempotency_key r.idempotency_key ≡ ok key
    → exists (has_audit_key (audit_key env key)) db.audits ≡ false
    → transition_work_item env who now r db ≡ ok (db', d)
    → r'.work_item_id ≡ r.work_item_id
    → r'.expected_version ≡ r.expected_version
    → commit db' (transition_work_item env who' later r' db') ≡ db'
transition_stale env who who' now later r r' db db' d key ek fresh h same_item same_version =
    let (v, found, newer) = first_version env who now r db db' d key ek h fresh in
    stale env who' later r' db' v (rw same_item found) (λ e. absurd (omega arith))
