-- ===== src/Triggers/Sync.antt =====
-- backend/triggers/webhook_sync.py: which adapters of a graph have a webhook handler.
use agent_graph_studio.Prelude.{
  if◌then◌else◌, ◌==◌, string_eq, String, Bool, ◌&&◌, Option, none, some, List, [], ◌∷◌, ◌++◌, map,
  nat_eq, pair_eq, option_eq,
}
use agent_graph_studio.Prelude.Dict.{Dict, get}
use agent_graph_studio.Schema.Models.{NodeSpec, EdgeSpec, GraphSpec, is_sub_node, index_nodes}

-- `node_type in _handlers`, for the source of an edge
abbrev handled_source : (String → Bool) → Option NodeSpec → List NodeSpec
handled_source is_handled none = []
handled_source is_handled (some source) = if is_handled source.type then source ∷ [] else []

abbrev is_adapter_edge : NodeSpec → EdgeSpec → Bool
is_adapter_edge node e =
    is_sub_node e.kind && (e.slot == some "trigger_adapter" && e.to.node == node.id)

-- The inner loop, over the edges.
unfoldable pub adapters_of :
    (String → Bool) → Dict String NodeSpec → NodeSpec → List EdgeSpec → List (NodeSpec × NodeSpec)
adapters_of is_handled nodes_by_id node [] = []
adapters_of is_handled nodes_by_id node (e ∷ es) =
    (if is_adapter_edge node e
      then map (λ source. (node, source)) (handled_source is_handled (get nodes_by_id e.from_.node))
      else [])
    ++ adapters_of is_handled nodes_by_id node es

-- The outer loop, over the nodes.
unfoldable pub pairs_of :
    (String → Bool)
    → Dict String NodeSpec
    → List EdgeSpec
    → List NodeSpec
    → List (NodeSpec × NodeSpec)
unfolding adapters_of
pairs_of is_handled nodes_by_id edges [] = []
pairs_of is_handled nodes_by_id edges (node ∷ nodes) =
    (if node.type == "webhook_trigger" then adapters_of is_handled nodes_by_id node edges else [])
    ++ pairs_of is_handled nodes_by_id edges nodes

unfoldable pub adapter_pairs_for_graph : (String → Bool) → GraphSpec → List (NodeSpec × NodeSpec)
unfolding pairs_of
adapter_pairs_for_graph is_handled g = pairs_of is_handled (index_nodes [] g.nodes) g.edges g.nodes
