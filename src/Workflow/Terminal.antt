-- ===== src/Workflow/Terminal.antt =====
-- backend/app/workflow.py: completed and discarded are final.
use esafe.Prelude.{
  ℕ, true, false, ◌≡◌, refl, subst, sym, some, arith, inl, inr, Bool-cases, select, select-append,
  select_sound, select-update, update, commit-keeps, ◌==◌, List,
}
use esafe.Workflow.Rows.{WorkItem, WorkStatus, Db, Env}
use esafe.Workflow.Queries.{has_work_id, allowed, is_terminal}
use esafe.Workflow.Creation.{create_case_work_item}
use esafe.Workflow.Transition.{transition_work_item, moved}
use esafe.Workflow.Checklist.{update_checklist_item, checklist_progress, rescored}
use esafe.Workflow.Closure.{close_case}
use esafe.Workflow.Effects.{transition_work_item-effect, TransitionEffect}
use esafe.Workflow.Effects.Creation.{create_case_work_item-effect, CreateEffect}
use esafe.Workflow.Effects.Checking.{update_checklist_item-effect, CheckEffect}
use esafe.Workflow.Effects.Closing.{close_case-effect, CloseEffect}
use esafe.Workflow.Requests.{
  Request, create, transition, check, close, signal, handle, serve, serve_induction,
}

-- The row under this key.
abbrev pub Holds : ℕ → WorkItem → Db → Type 0
Holds id w db = select (has_work_id id) db.works ≡ some w

-- An assignment to a live row misses a terminal one.
missed :
    (id k : ℕ) (assign : WorkItem → WorkItem) (works : List WorkItem) (w v : WorkItem)
    → ((u : WorkItem) → (assign u).work_item_id ≡ u.work_item_id)
    → select (has_work_id id) works ≡ some w
    → is_terminal w.status ≡ true
    → select (has_work_id k) works ≡ some v
    → is_terminal v.status ≡ false
    → select (has_work_id id) (update (has_work_id k) assign works) ≡ some w
missed id k assign works w v keeps found final there live =
    rw (select-update (has_work_id id) (has_work_id k) assign works (λ u. rw (keeps u))) (
      rw found (elim (Bool-cases (w.work_item_id == k)) [
        | inr n ↦ rw n
        | inl y ↦
            let same : id ≡ k = ground (arith, select_sound (has_work_id id) works w found) in
            let again : select (has_work_id k) works ≡ some w =
              subst (λ j. select (has_work_id j) works ≡ some w) same found in
            absurd (ground arith)
      ]))

live_of_allowed : (a b : WorkStatus) → allowed a b ≡ true → is_terminal a ≡ false
live_of_allowed a b h = ground arith

handle-Holds :
    (env : Env) (id : ℕ) (w : WorkItem)
    → is_terminal w.status ≡ true
    → (q : Request) (db : Db) → Holds id w db
    → Holds id w (handle env q db)
unfolding handle
handle-Holds env id w final (create who now new uuids r) db h =
    commit-keeps (Holds id w) db (create_case_work_item env who now new uuids r db) h λ db' d e.
      elim (create_case_work_item-effect env who now new uuids r db db' d e) [
        | CreateEffect.found same ↦ subst (Holds id w) (sym same) h
        | CreateEffect.created key priority ready fresh works audits cases ↦
            rw works (select-append (has_work_id id) db.works _ w h)
      ]
handle-Holds env id w final (transition who now r) db h =
    commit-keeps (Holds id w) db (transition_work_item env who now r db) h λ db' d e.
      elim (transition_work_item-effect env who now r db db' d e) [
        | TransitionEffect.replayed same ↦ subst (Holds id w) (sym same) h
        | TransitionEffect.applied key target v found et same move reason works audits cases ↦
            rw works (
              missed id r.work_item_id (moved now target) db.works w v (unfold moved in λ u. refl) h
                final found (live_of_allowed v.status target move))
      ]
handle-Holds env id w final (check who now r) db h =
    commit-keeps (Holds id w) db (update_checklist_item env who now r db) h λ db' d e.
      elim (update_checklist_item-effect env who now r db db' d e) [
        | CheckEffect.replayed same ↦ subst (Holds id w) (sym same) h
        | CheckEffect.applied key before after v items found same live works audits cases ↦
            rw works (
              missed id r.work_item_id (rescored now (checklist_progress items)) db.works w v
                (unfold rescored in λ u. refl) h final found live)
      ]
handle-Holds env id w final (close who now new r) db h =
    commit-keeps (Holds id w) db (close_case env who now new r db) h λ db' d e.
      elim (close_case-effect env who now new r db db' d e) [
        | CloseEffect.found same ↦ subst (Holds id w) (sym same) h
        | CloseEffect.finished key summary reason c found guards works audits cases ↦ rw works h
      ]
handle-Holds env id w final (signal case s) db h = h

-- The row of a work item that is completed or discarded never changes again, whatever calls are made
-- and signals arrive: not its status, its progress, its version nor its times.
pub serve-Holds :
    (env : Env) (id : ℕ) (w : WorkItem) (qs : List Request) (db : Db)
    → is_terminal w.status ≡ true
    → Holds id w db
    → Holds id w (serve env qs db)
serve-Holds env id w qs db final =
    serve_induction env (Holds id w) (handle-Holds env id w final) qs db
