-- ===== src/Lib.antt =====
-- Verification of bugalizer, a service that takes bug reports, lets language models triage and locate
-- them and propose fixes, opens pull requests, and keeps in step with a second system, sonicgrid, from
-- which it imports reports and takes requests. Its state is one SQLite database.
--
-- Parts and files. A table is the list of its rows in order of insertion; a statement is a function on
-- the table, which also gives its row count where the code reads that; a transaction is a function on
-- the record Db. The statements of one process run one after another, so two requests that race are
-- two calls in some order, and what each saw before is an argument.
-- - Prelude: tests, tables with a primary key, conditional updates on one row, ORDER BY, membership.
-- - Workflow: the statuses and the transition table of src/bugalizer/models.py (`BugStatus`,
--   `VALID_TRANSITIONS`, `CURRENT_PHASE_TARGETS`, `validate_transition`).
-- - Store: the rows and the conditional updates of bug_reports in src/bugalizer/db.py; Store/Races is
--   about two requests for one report; Store/Transactions about the recording and the settlement of a
--   pull request (`record_pull_request`, `pr_settle`, `prs_to_check`).
-- - Ledger: the table triage_actions of src/bugalizer/db.py. Ledger/Once has the step relation of its
--   statements, Ledger/Reopen the transaction `reopen_for_action`.
-- - Schedule: which report the worker may give to which stage (`triage_eligible_reports`,
--   `localization_eligible_reports`, `reports_eligible_for_fix`), the retry gate `_retry_blocked`, its
--   reset and `report_failure_info`, all of src/bugalizer/db.py.
-- - Startup: `release_orphaned_claims` of src/bugalizer/db.py, which runs before any worker.
-- - Ingest: `ingest_commit` and `project_update` of src/bugalizer/db.py; Ingest/Sonicgrid the mapping of
--   src/bugalizer/ingest/sonicgrid.py; Ingest/Source, Ingest/Poller and Ingest/Loop the answers of a
--   source, the walks with their bookkeeping, and the tick of src/bugalizer/ingest/poller.py.
-- - Sync: Sync/Stage the lane of a report (src/bugalizer/sync/stage.py); Sync/Actions the decision on
--   an action (`authorize` of src/bugalizer/sync/actions.py, with the checks of
--   src/bugalizer/api/reports.py and the model choice of src/bugalizer/llm/client.py); Sync/Slots and
--   Sync/Expiry the executor's slots and its time bound (src/bugalizer/sync/triage_sync.py);
--   Sync/Outcomes what a run comes to and the evidence of recovery (src/bugalizer/sync/actions.py);
--   Sync/Executor the handlers of the executor (`_handle`, `_claim_and_start`, `_recover`, `_dispatch`,
--   `_run_task`, `_run_pr`, `_drain`), cut at their awaits. Sync/Executor/Traced is the relation of
--   its writes, Sync/Executor/Runs that of its runs; Sync/Results the payload of a report
--   (src/bugalizer/sync/results.py) and Sync/Push its push with the table triage_results (`_push`).
-- - PullRequests: one call of open-pr (`open_pull_request` of src/bugalizer/git_ops/pull_request.py), on
--   what git, GitHub and other requests do at each of its awaits.
-- - Pipeline: one run of the fix stage (`propose_fix` of src/bugalizer/pipeline/fix_proposer.py);
--   Pipeline/Local the stages before it and the manual local analysis
--   (src/bugalizer/pipeline/orchestrator.py, with the writes of pipeline/triage.py and
--   pipeline/localizer.py beside it).
-- - Worker: what one turn of the worker's loop dispatches (`_poll_loop` of
--   src/bugalizer/queue/worker.py).
-- - Tests: runs on small databases, and an instance of each theorem that has hypotheses.
--
-- How they interact. Schedule reads the rows that the pipeline writes and that Startup and Ingest
-- leave; Sync/Stage shows the same rows, and is compared with Schedule; Sync/Expiry and Ledger/Reopen
-- act on the ledger by the steps of Ledger/Once, so that what holds of every step holds of them. Each
-- handler of Sync/Executor is a chain of those steps too, beside the LLM tasks that it creates; what
-- the stages and GitHub answer is an argument of the handler that awaits it.
--
-- Representation. `_now()` is an argument, an instant in microseconds; a text column that is a key is a
-- String, and a free text that code takes apart is a list of code points. `_new_id()` is an argument.
-- Columns that no modelled code reads are left out. `analyses.result` is the record of the keys that
-- the code reads of its JSON. Sonicgrid, GitHub, pydantic's validation, the credentials and what other
-- requests do between two commits of a poll are the arguments of a World (Ingest/Source).
--
-- Bounds and fuel. No function runs on fuel of the model's own: the walks of a poll count down
-- ingest_max_pages and ingest_rewalk_pages, as their loops do, and everything else is by recursion on
-- a list. Subtraction of instants stops at 0; the source clamps the elapsed time of the retry gate
-- there too.
--
-- Not modelled: the connection layer with its retries and migrations, the content of a validation, a
-- triage and a localization, the git commands and the GitHub requests, the repository map, the
-- language model client, the token usage, the HTTP routes and the application shell. They are input
-- and output around the parts above, or follow in a later extension.
mod Prelude
pub mod Workflow
pub mod Store
pub mod Ledger
pub mod Schedule
pub mod Startup
pub mod Ingest
pub mod Sync
pub mod PullRequests
pub mod Pipeline
pub mod Worker
mod Tests
