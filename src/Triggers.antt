-- ===== src/Triggers.antt =====
-- backend/triggers: active graphs, scheduled jobs and webhook routes, and the external webhooks.
pub mod Registry
pub mod Sync
