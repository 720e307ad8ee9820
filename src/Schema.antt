-- ===== src/Schema.antt =====
-- backend/schema: the graph data model, slot types, and the topological order.
pub mod Value
pub mod Types
pub mod Models
pub mod Topo
