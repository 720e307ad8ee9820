-- ===== src/Execution/Engine.antt =====
-- backend/execution/engine.py: `Gather`, `Round` and `Loop` are the scheduler `_run_graph_async`,
-- the other modules its theorems.
pub mod Gather
pub mod Round
pub mod Loop
mod Scans
mod Launches
mod Rules
pub mod Pending
pub mod Once
mod Gathering
mod WasReady
pub mod Supply
mod Tracing
pub mod Flow
pub mod Events
