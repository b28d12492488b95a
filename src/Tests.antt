-- ===== src/Tests.antt =====
-- Runs on concrete rows, and an instance of each theorem that has hypotheses.
mod Data
mod Workflow
mod Races
mod Ledger
mod Schedule
mod Transactions
mod Ingest
mod Sync
mod Executor
mod Runs
mod Push
mod PullRequests
mod Pipeline
