-- ===== src/Worker.antt =====
-- infra/docker/worker_api.py: the worker on a pod that runs one job at a time.
pub mod State
pub mod Uploads
pub mod Phases
mod Tests
