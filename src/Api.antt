-- ===== src/Api.antt =====
-- saas/jobs/api.py, api_retry.py, api_share.py and api_draft.py: the requests of a signed-in user.
pub mod Service
pub mod Create
pub mod Access
pub mod Drafts
pub mod Requests
pub mod Rows
pub mod Frames
pub mod Isolation
pub mod Histories
pub mod Listing
pub mod Limits
mod Tests
