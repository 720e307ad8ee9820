-- ===== src/Api/Connections.antt =====
-- backend/api/app.py: what a caller is shown of connections, and the routes that change them.
pub mod State
pub mod Change
pub mod Discovery
pub mod Create
pub mod Manage
pub mod Scope
pub mod Routes
