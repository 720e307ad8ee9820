-- ===== src/Api/Activation.antt =====
-- backend/api/app.py: activating and deactivating graphs, and the pass over the stored graphs at a start.
pub mod State
pub mod Register
pub mod Sync
pub mod Change
pub mod Serving
pub mod Kept
pub mod Vouched
pub mod Elsewhere
pub mod Hooks
pub mod Wired
pub mod Removal
pub mod Outcome
pub mod Startup
pub mod Firing
