-- ===== src/Sync.antt =====
-- The triage sync with sonicgrid: the lane of a report (sync/stage.py) and the decision on an action
-- (sync/actions.py).
pub mod Stage
pub mod Actions
pub mod Slots
pub mod Expiry
pub mod Outcomes
pub mod Executor
pub mod Results
pub mod Push
