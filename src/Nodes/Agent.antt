-- ===== src/Nodes/Agent.antt =====
-- backend/nodes/agent.py.
pub mod State
pub mod Loop
pub mod Setup
pub mod Activity
pub mod Found
pub mod Confined
pub mod Window
