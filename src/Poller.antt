-- ===== src/Poller.antt =====
-- saas/jobs/pipeline.py and saas/jobs/status.py: the poll loop that watches a pod until it is done.
pub mod Logs
pub mod Rounds
pub mod State
pub mod Turn
pub mod Outage
pub mod Rules
pub mod Finish
pub mod Watchdog
mod Tests
