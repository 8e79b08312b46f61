-- ===== src/Lib.antt =====
-- ESafe, the situation room: the backend. The files that are named below stand under backend/app,
-- and the migrations under backend/alembic/versions. Signals of fires, weather warnings and
-- disaster messages become cases; users work on them through work items and close them; a shared
-- ledger limits what the AI calls of all processes cost.
--
-- Prelude: library names, Boolean tests, tables as lists of rows (`select`, `exists`, `filter`,
-- `update` are the WHERE clauses of the SQL), the primary keys of tables, Python's `str.strip` and
-- SQL's `trim`, `Outcome` for exceptions, rounding half to even, and integers over native numbers.
--
-- Cost (ai_control.py, upstage.py): Entry has the rows of the ledger and the CHECK constraints of
-- its tables, Ledger `AiCostGate.reserve` and `check_cost_headroom`, Settling `settle`,
-- `settle_embedding_success` and `get_embedding_cache`, Calls a sequence of such calls by any
-- process, Price `chat_cost` and `embedding_cost`, Chat `UpstageChatClient.complete_json` over the
-- gate, for which the answer of the provider is an argument, and Vectors `pack_embedding_vectors`
-- and `unpack_embedding_vectors`, where a single is the number of its 32 bits and the rounding to
-- it an argument. Each method is one transaction, a function of the two tables that returns an
-- error or the new tables; an advisory lock and row locks make the order of transactions total.
-- Money is an integer number of 10⁻⁸ USD, which is the scale of the columns; the arguments are
-- taken to be of that scale, as `quantize` makes them. Rows, Budget, Unique, Closed, Settlement,
-- Refund, Price/Bounds, ChatSettled and RoundTrip are about these.
--
-- Automation (automation/case_rules.py, signals/contracts.py): Rules has `case_type_for`,
-- `initial_case_status`, `next_case_status` and `select_impact_scope`; Status is about the first
-- two.
--
-- Workflow (workflow.py, and the constraints of migrations 0004 and 0009): Rows has the tables,
-- Queries the shared helpers, Creation `create_case_work_item`, Transition `transition_work_item`,
-- Checklist `update_checklist_item`, Closure `close_case`, Review `case_closure_review`, and
-- Requests a sequence of these calls between the updates of `_refresh_case`
-- (automation/case_lifecycle.py), for which the source status that it computes is any. A call is
-- one transaction under the row locks that it takes; its time, its fresh UUIDs, SHA-256 and
-- upper-casing are arguments. Effects lists what a call that returned did to the tables. `round`
-- of a quotient is half-to-even on exact fractions, which agrees with the floating point of the
-- program: a quotient at a half has an exact double, and any other is far from a half for lists
-- shorter than 10¹².
--
-- Demo (demo/playback.py, and the constraints of migration 0013): the playback of a demo scenario.
-- Rows has its tables and helpers, Commands `start_scenario` and `pause_scenario`, Resetting
-- `reset_scenario`, Stepping `next_scenario_step` in its two transactions, and Calls the commands
-- of several users with the steps that are under way. The profile is DEMO. What a step does and
-- what a reset deletes in other tables is seen in whether simulated signals are left and, for its
-- counts of rows, files and Redis keys, in its reply; the deletion of files and keys is taken not
-- to fail. Sound, Effects, Rewinding, Counting, Serving, Replay, Repeated, Exhausted and Stuck are
-- about these.
--
-- Auth (auth.py, security.py, api/auth.py, and migration 0003): Rows has users, sessions, audit
-- events and the counters of failed logins in Redis, Sessions `create_session_with_audit`,
-- `load_session` and `revoke_session`, Login the counters and `login`, Calls `require_session`,
-- `require_csrf`, `logout` and the requests of all users one after another. The digests,
-- `str.casefold` and the Argon2 verification are parameters; the clocks of the database, the
-- process and Redis are arguments. A login is one step, so that logins that overlap in time, which
-- can read the counter before either raises it, are left out. Dead, Ended, LoggedOut, Counters,
-- Locked, Counted and Guessing are about these.
--
-- Inspections (inspection_engine.py, inspection_views.py, and migration 0015): Rows has the
-- tables, Candidates `_create_candidates` and the orders of `_ranked_sql`, Targets
-- `_insert_scenario_targets`, Runs `_calculate` and `run_inspection_simulation` in its three
-- transactions with the runs that are under way, Selection `select_scenario`. A double that is not
-- negative is the number of its bit pattern, since it is only compared; the rank within a group is
-- the number of equal rows before. The rows of the snapshot come joined with building and region.
-- Counts, Checked, Teams, Order, Calculated, Choice, Completes, Steps, Selectable and Stuck are
-- about these. The creation of simulations and their approval are not modelled.
--
-- Rag (rag_search.py, and migration 0009): Rows has the candidates and their weights, Fusing
-- `fuse_candidates`, Selecting `select_context`, Bundles what `run_case_retrieval` stores. The
-- floats are a parameter. The two searches are queries of the database, and their rows are
-- arguments. Of what the transaction stores, the foreign keys and the JSON columns are left out.
-- Passes, Bounds, Complete, Evidence, Distinct, Items and Storing are about these.
--
-- Every function is structurally recursive: there is no fuel. Not modelled: HTTP, SQL locks and
-- time outs, the texts of messages, JSON snapshots of replies, geometry, the parsing of feeds,
-- documents, recommendations, approvals, the creation of simulations, similarity and the searches
-- of the database.
pub mod Prelude
pub mod Cost
pub mod Automation
pub mod Workflow
pub mod Demo
pub mod Auth
pub mod Inspections
pub mod Rag
