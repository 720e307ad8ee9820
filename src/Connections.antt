-- ===== src/Connections.antt =====
-- backend/connections: the store of connection profiles and the resolution of the names in a graph.
pub mod Store
pub mod Resolver
