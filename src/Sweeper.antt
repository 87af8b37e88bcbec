-- ===== src/Sweeper.antt =====
-- saas/jobs/cleanup.py and saas/jobs/stale_detector.py: the two sweeps that reap orphaned pods and
-- stale jobs beside the workflow.
pub mod Cleanup
pub mod Orphans
pub mod Stale
pub mod Reaping
pub mod Reports
mod Tests
