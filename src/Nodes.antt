-- ===== src/Nodes.antt =====
-- backend/nodes: the node types whose behaviour is the program's own. `Nodes.Agent` is agent.py.
pub mod Agent
