-- ===== src/Workflow/Settled.antt =====
-- backend/app/workflow.py with backend/app/automation/case_rules.py: every call keeps the work of
-- closed cases finished and its discarded work explained.
use esafe.Prelude.{
  ℕ, ◌+◌, true, ◌≡◌, refl, subst, sym, List, [], ◌∷◌, ◌++◌, arith, All, All-append, All-map,
  All-both, All-update_found, Unique, select_sound, update, commit-keeps, Unique-append,
  Unique-update,
}
use esafe.Workflow.Rows.{WorkItem, AuditEvent, CaseRecord, CloseReason, Db, Env, Actor}
use esafe.Workflow.Queries.{has_work_id, is_terminal}
use esafe.Workflow.Creation.{CreateRequest, create_case_work_item, new_work_item}
use esafe.Workflow.Transition.{transition_work_item, moved, TransitionRequest}
use esafe.Workflow.Checklist.{ChecklistRequest, update_checklist_item, checklist_progress, rescored}
use esafe.Workflow.Requests.{Request, create, transition, check, close, signal, handle}
use esafe.Workflow.Closure.{
  CloseRequest, close_case, has_case_id, works_of, closing, discard_reasoned,
}
use esafe.Workflow.Effects.{transition_work_item-effect, TransitionEffect}
use esafe.Workflow.Effects.Creation.{create_case_work_item-effect, CreateEffect}
use esafe.Workflow.Effects.Checking.{update_checklist_item-effect, CheckEffect}
use esafe.Workflow.Effects.Closing.{close_case-effect, CloseEffect}
use esafe.Workflow.CaseWork.{
  IsSettled, discard_reasoned-append, check_case_open, moved-IsSettled, closing_keeps, signal_keeps,
  guarded, check_closable-incomplete,
}

pub record Settled (db : Db) : Type 0 where
  pub keys : Unique (λ w. w.work_item_id) db.works
  pub works : All (IsSettled db.cases db.audits) db.works

-- Tables with the same cases, more audit events, and rows that are settled over them.
settle_works :
    (db db' : Db) (ws : List WorkItem) (log : List AuditEvent)
    → db'.works ≡ ws
    → db'.audits ≡ log
    → db'.cases ≡ db.cases
    → Unique (λ w. w.work_item_id) ws
    → All (IsSettled db.cases log) ws
    → Settled db'
settle_works db db' ws log works audits cases keys h = record {
  keys = subst (Unique (λ w. w.work_item_id)) (sym works) keys;
  works = rw (works, audits, cases) h;
}

IsSettled-append :
    (cases : List CaseRecord) (audits : List AuditEvent) (a : AuditEvent) (w : WorkItem)
    → IsSettled cases audits w
    → IsSettled cases (audits ++ a ∷ []) w
IsSettled-append cases audits a w s = (s.0, discard_reasoned-append audits a w s.1)

handle-create :
    (env : Env) (who : Actor) (now id : ℕ) (uuids : ℕ → ℕ) (r : CreateRequest) (db db' : Db)
    → CreateEffect env who now id r db db'
    → Settled db
    → Settled db'
unfolding new_work_item discard_reasoned
handle-create env who now id uuids r db db' (CreateEffect.found same) h = subst Settled (sym same) h
handle-create env who now id uuids r db db'
      (CreateEffect.created key priority ready fresh works audits cases) h =
    settle_works db db' _ _ works audits cases
      (Unique-append (λ w. w.work_item_id) db.works (new_work_item env now id key priority r) h.keys
        fresh)
      (All-append (IsSettled db.cases _) db.works _
        (All-map (IsSettled db.cases db.audits) (IsSettled db.cases _) db.works
          (IsSettled-append db.cases db.audits _) h.works)
        (((λ live. check_case_open r.case_id db.cases ready), refl), tt))

handle-transition :
    (env : Env) (who : Actor) (now : ℕ) (r : TransitionRequest) (db db' : Db)
    → TransitionEffect env who now r db db'
    → Settled db
    → Settled db'
handle-transition env who now r db db' (TransitionEffect.replayed same) h =
    subst Settled (sym same) h
handle-transition env who now r db db'
      (TransitionEffect.applied key target w found et same move reason works audits cases) h =
    settle_works db db' _ _ works audits cases
      (unfold moved in
        Unique-update (λ w. w.work_item_id) (has_work_id r.work_item_id) (moved now target) db.works
          (λ v. refl) h.keys)
      (All-update_found (λ w. w.work_item_id) (IsSettled db.cases db.audits) (IsSettled db.cases _)
        r.work_item_id (moved now target) db.works w h.keys found
        (moved-IsSettled who now _ r target db.cases db.audits w reason
          (select_sound (has_work_id r.work_item_id) db.works w found) move)
        (IsSettled-append db.cases db.audits _) h.works)

handle-check :
    (env : Env) (who : Actor) (now : ℕ) (r : ChecklistRequest) (db db' : Db)
    → CheckEffect env who now r db db'
    → Settled db
    → Settled db'
unfolding rescored discard_reasoned
handle-check env who now r db db' (CheckEffect.replayed same) h = subst Settled (sym same) h
handle-check env who now r db db'
      (CheckEffect.applied key before after w items found same live works audits cases) h =
    settle_works db db' _ _ works audits cases
      (Unique-update (λ w. w.work_item_id) (has_work_id r.work_item_id)
        (rescored now (checklist_progress items)) db.works (λ v. refl) h.keys)
      (All-update_found (λ w. w.work_item_id) (IsSettled db.cases db.audits) (IsSettled db.cases _)
        r.work_item_id (rescored now (checklist_progress items)) db.works w h.keys found
        (IsSettled-append db.cases db.audits _ w) (IsSettled-append db.cases db.audits _) h.works)

closed_rest :
    (now : ℕ) (reason : CloseReason) (version id : ℕ) (cases : List CaseRecord)
    (audits : List AuditEvent) (a : AuditEvent) (w : WorkItem)
    → IsSettled cases audits w × (works_of id w ≡ true → is_terminal w.status ≡ true)
    → IsSettled (update (has_case_id id) (closing now reason version) cases) (audits ++ a ∷ []) w
closed_rest now reason version id cases audits a w s = (
  (λ live. closing_keeps now reason version id cases w.case_id (ground (arith, s.1)) (s.0.0 live)),
  discard_reasoned-append audits a w s.0.1,
)

handle-close :
    (env : Env) (who : Actor) (now id : ℕ) (r : CloseRequest) (db db' : Db)
    → CloseEffect env who now id r db db'
    → Settled db
    → Settled db'
handle-close env who now id r db db' (CloseEffect.found same) h = subst Settled (sym same) h
handle-close env who now id r db db'
      (CloseEffect.finished key summary reason c found guards works audits cases) h =
    record {
      keys = subst (Unique (λ w. w.work_item_id)) (sym works) h.keys;
      works =
          rw (works, audits, cases)
            (All-map
              (λ w.
                IsSettled db.cases db.audits w
                × (works_of r.case_id w ≡ true → is_terminal w.status ≡ true))
              (IsSettled _ _) db.works
              (closed_rest now reason (c.version + 1) r.case_id db.cases db.audits _)
              (All-both (IsSettled db.cases db.audits) _ db.works h.works (
                guarded (works_of r.case_id) db.works
                  (check_closable-incomplete reason _ r c _ db.audits guards))));
    }

pub handle-Settled : (env : Env) (q : Request) (db : Db) → Settled db → Settled (handle env q db)
unfolding handle
handle-Settled env (create who now id uuids r) db h =
    commit-keeps Settled db (create_case_work_item env who now id uuids r db) h λ db' d e.
      handle-create env who now id uuids r db db'
        (create_case_work_item-effect env who now id uuids r db db' d e) h
handle-Settled env (transition who now r) db h =
    commit-keeps Settled db (transition_work_item env who now r db) h λ db' d e.
      handle-transition env who now r db db' (transition_work_item-effect env who now r db db' d e)
        h
handle-Settled env (check who now r) db h =
    commit-keeps Settled db (update_checklist_item env who now r db) h λ db' d e.
      handle-check env who now r db db' (update_checklist_item-effect env who now r db db' d e) h
handle-Settled env (close who now id r) db h =
    commit-keeps Settled db (close_case env who now id r db) h λ db' d e.
      handle-close env who now id r db db' (close_case-effect env who now id r db db' d e) h
handle-Settled env (signal id s) db h = record {
  keys = h.keys;
  works =
      All-map (IsSettled db.cases db.audits) (IsSettled _ db.audits) db.works
        (λ w x. ((λ live. signal_keeps s id db.cases w.case_id (x.0 live)), x.1)) h.works;
}
