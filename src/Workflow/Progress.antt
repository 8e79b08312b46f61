-- ===== src/Workflow/Progress.antt =====
-- backend/app/workflow.py: the progress of a work item agrees with its status.
use esafe.Prelude.{
  ℕ, ◌≤◌, ◌≡◌, refl, Bool, true, false, subst, sym, List, [], ◌∷◌, arith, inl, inr, Bool-cases, All,
  All-append, All-update_found, Unique, Unique-append, Unique-update, select, some, is_some, filter,
  length, update, commit-keeps, round_half_even-le,
}
use esafe.Workflow.Rows.{WorkItem, WorkStatus, ChecklistItem, Db, Env}
use esafe.Workflow.Queries.{has_work_id, allowed, is_terminal}
use esafe.Workflow.Creation.{create_case_work_item, new_work_item}
use esafe.Workflow.Transition.{transition_work_item, moved}
use esafe.Workflow.Checklist.{update_checklist_item, checklist_progress, rescored}
use esafe.Workflow.Closure.{close_case, is_completed}
use esafe.Workflow.Effects.{transition_work_item-effect, TransitionEffect}
use esafe.Workflow.Effects.Creation.{create_case_work_item-effect, CreateEffect}
use esafe.Workflow.Effects.Checking.{update_checklist_item-effect, CheckEffect}
use esafe.Workflow.Effects.Closing.{close_case-effect, CloseEffect}
use esafe.Workflow.Requests.{
  Request, create, transition, check, close, signal, handle, serve, serve_induction,
}

-- 100 with a completion time when completed, and at most 90 otherwise.
abbrev pub IsScored : WorkItem → Type 0
IsScored w =
    (is_completed w.status ≡ true → (w.progress ≡ 100) × (is_some w.completed_at ≡ true))
    × (is_completed w.status ≡ false → w.progress ≤ 90)

length-filter {ℓ} : {A : Type ℓ} (p : A → Bool) (xs : List A) → length (filter p xs) ≤ length xs
unfolding filter
length-filter p [] = omega arith
length-filter p (x ∷ xs) = elim (Bool-cases (p x)) [
  | inl y ↦ rw y (omega (arith, length-filter p xs))
  | inr n ↦ rw n (omega (arith, length-filter p xs))
]

-- The progress that a checklist gives stays below that of a work item that waits for approval.
pub checklist_progress-le : (items : List ChecklistItem) → checklist_progress items ≤ 85
unfolding checklist_progress
checklist_progress-le [] = omega arith
checklist_progress-le (c ∷ cs) =
    round_half_even-le _ (length (c ∷ cs)) 85 (omega arith) (omega (arith, length-filter {0}))

moved-IsScored :
    (now : ℕ) (target : WorkStatus) (w : WorkItem)
    → allowed w.status target ≡ true
    → IsScored w
    → IsScored (moved now target w)
unfolding moved
moved-IsScored now target w h s = ground arith

rescored-IsScored :
    (now : ℕ) (items : List ChecklistItem) (w : WorkItem)
    → is_terminal w.status ≡ false
    → IsScored (rescored now (checklist_progress items) w)
unfolding rescored
rescored-IsScored now items w live = ground (arith, checklist_progress-le items)

pub record Scored (db : Db) : Type 0 where
  pub keys : Unique (λ w. w.work_item_id) db.works
  pub scores : All IsScored db.works

-- An assignment to the one row that a key finds.
module _ (id : ℕ) (assign : WorkItem → WorkItem) (db db' : Db) (w : WorkItem)
    (found : select (has_work_id id) db.works ≡ some w)
    (same_key : (v : WorkItem) → (assign v).work_item_id ≡ v.work_item_id)
    (scored : IsScored w → IsScored (assign w))
    (works : db'.works ≡ update (has_work_id id) assign db.works) where
  assign-Scored : Scored db → Scored db'
  assign-Scored h = record {
    keys =
        subst (Unique (λ w. w.work_item_id)) (sym works)
          (Unique-update (λ w. w.work_item_id) (has_work_id id) assign db.works same_key h.keys);
    scores = subst (All IsScored) (sym works) (
        All-update_found (λ w. w.work_item_id) IsScored IsScored id assign db.works w h.keys found
          scored (λ v s. s) h.scores);
  }

handle-Scored : (env : Env) (q : Request) (db : Db) → Scored db → Scored (handle env q db)
unfolding handle
handle-Scored env (create who now id uuids r) db h =
    commit-keeps Scored db (create_case_work_item env who now id uuids r db) h λ db' d e.
      elim (create_case_work_item-effect env who now id uuids r db db' d e) [
        | CreateEffect.found same ↦ subst Scored (sym same) h
        | CreateEffect.created key priority ready fresh works audits cases ↦ record {
          keys = subst (Unique (λ w. w.work_item_id)) (sym works) (
              Unique-append (λ w. w.work_item_id) db.works (new_work_item env now id key priority r)
                h.keys (unfold new_work_item in fresh));
          scores = subst (All IsScored) (sym works) (
              All-append IsScored db.works _ h.scores (unfold new_work_item in (ground arith, tt)));
        }
      ]
handle-Scored env (transition who now r) db h =
    commit-keeps Scored db (transition_work_item env who now r db) h λ db' d e.
      elim (transition_work_item-effect env who now r db db' d e) [
        | TransitionEffect.replayed same ↦ subst Scored (sym same) h
        | TransitionEffect.applied key target w found et same move reason works audits cases ↦
            assign-Scored r.work_item_id (moved now target) db db' w found
              (unfold moved in λ v. refl) (moved-IsScored now target w move) works h
      ]
handle-Scored env (check who now r) db h =
    commit-keeps Scored db (update_checklist_item env who now r db) h λ db' d e.
      elim (update_checklist_item-effect env who now r db db' d e) [
        | CheckEffect.replayed same ↦ subst Scored (sym same) h
        | CheckEffect.applied key before after w items found same live works audits cases ↦
            assign-Scored r.work_item_id (rescored now (checklist_progress items)) db db' w found
              (unfold rescored in λ v. refl) (λ s. rescored-IsScored now items w live) works h
      ]
handle-Scored env (close who now id r) db h =
    commit-keeps Scored db (close_case env who now id r db) h λ db' d e.
      elim (close_case-effect env who now id r db db' d e) [
        | CloseEffect.found same ↦ subst Scored (sym same) h
        | CloseEffect.finished key summary reason c found guards works audits cases ↦ record {
          keys = subst (Unique (λ w. w.work_item_id)) (sym works) h.keys;
          scores = subst (All IsScored) (sym works) h.scores;
        }
      ]
handle-Scored env (signal id s) db h = record { keys = h.keys; scores = h.scores }

-- From tables whose work items have unique keys and are scored, after any calls of the workflow:
-- every completed item has progress 100 and a completion time, and every other has at most 90.
pub serve-Scored : (env : Env) (qs : List Request) (db : Db) → Scored db → Scored (serve env qs db)
serve-Scored env = serve_induction env Scored (handle-Scored env)
