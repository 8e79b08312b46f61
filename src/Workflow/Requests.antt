-- ===== src/Workflow/Requests.antt =====
-- backend/app/workflow.py: the calls that users make, one transaction after another, between the
-- status updates that signals bring (`_refresh_case` of backend/app/automation/case_lifecycle.py).
use esafe.Prelude.{ℕ, ◌+◌, List, [], ◌∷◌, update, commit}
use esafe.Automation.Rules.{SourceStatus, next_case_status}
use esafe.Workflow.Rows.{CaseRecord, Db, Env, Actor}
use esafe.Workflow.Creation.{CreateRequest, create_case_work_item}
use esafe.Workflow.Transition.{TransitionRequest, transition_work_item}
use esafe.Workflow.Checklist.{ChecklistRequest, update_checklist_item}
use esafe.Workflow.Closure.{CloseRequest, close_case, has_case_id}

-- The times and fresh keys of a call come with it.
pub data Request : Type 0 where
  create : Actor → ℕ → ℕ → (ℕ → ℕ) → CreateRequest → Request
  transition : Actor → ℕ → TransitionRequest → Request
  check : Actor → ℕ → ChecklistRequest → Request
  close : Actor → ℕ → ℕ → CloseRequest → Request
  signal : ℕ → SourceStatus → Request

-- What `_refresh_case` does to the columns that the workflow reads.
unfoldable pub refreshed : SourceStatus → CaseRecord → CaseRecord
refreshed s c = record c {
  status = next_case_status c.status s;
  source_status = s;
  version = c.version + 1;
}

unfoldable pub handle : Env → Request → Db → Db
handle env (create who now id uuids r) db =
    commit db (create_case_work_item env who now id uuids r db)
handle env (transition who now r) db = commit db (transition_work_item env who now r db)
handle env (check who now r) db = commit db (update_checklist_item env who now r db)
handle env (close who now id r) db = commit db (close_case env who now id r db)
handle env (signal id s) db = record db { cases = update (has_case_id id) (refreshed s) db.cases }

unfoldable pub serve : Env → List Request → Db → Db
serve env [] db = db
serve env (q ∷ qs) db = serve env qs (handle env q db)

-- A property of the tables that every call keeps is kept by all calls.
pub serve_induction {ℓ} :
    (env : Env) (P : Db → Type ℓ)
    → ((q : Request) (db : Db) → P db → P (handle env q db))
    → (qs : List Request) (db : Db) → P db
    → P (serve env qs db)
unfolding serve
serve_induction env P step [] db h = h
serve_induction env P step (q ∷ qs) db h =
    serve_induction env P step qs (handle env q db) (step q db h)
