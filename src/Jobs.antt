-- ===== src/Jobs.antt =====
-- The table `simulation_jobs` (saas/jobs/models.py) and the helpers that write to it
-- (saas/jobs/persistence_sync.py, persistence_sync_progress.py, persistence_sync_idempotency.py and
-- persistence_async.py).
pub mod Row
pub mod Store
pub mod Sync
pub mod Progress
pub mod Async
pub mod Writer
pub mod Lifecycle
pub mod Races
mod Tests
