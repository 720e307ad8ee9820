-- ===== src/Execution.antt =====
-- backend/execution: traces, node results, the round scheduler, and the approval gate.
pub mod Trace
pub mod Engine
pub mod Approvals
pub mod RunGraph
