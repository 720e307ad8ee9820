-- ===== src/Validation/Flow.antt =====
-- backend/validation/rules.py: slot types along the data edges, and cycles.
use agent_graph_studio.Prelude.{
  if◌then◌else◌, ◌==◌, string_eq, find, contains, String, ◌&&◌, ◌||◌, Option, none, some, List, [],
  ◌∷◌, ◌++◌,
}
use agent_graph_studio.Prelude.{option_eq}
use agent_graph_studio.Prelude.Dict.{Dict, get}
use agent_graph_studio.Schema.Types.{is_compatible_with}
use agent_graph_studio.Schema.Models.{
  EdgeSpec, NodeSpec, GraphSpec, is_sub_node, node_ids, index_nodes,
}
use agent_graph_studio.Schema.Topo.{kahn_order}
use agent_graph_studio.Registry.{
  NodeDefinition, NodeRegistry, InputSlotSpec, OutputSlotSpec, effective_inputs, effective_outputs,
  get_type,
}
use agent_graph_studio.Validation.Issue.{
  ValidationIssue, issue, type_mismatch, cycle, no_output_slot, no_input_slot, mismatched,
  cycle_involving,
}

-- the outputs of the node that fills the mirrored slot
unfoldable pub mirrored_outputs :
    GraphSpec → NodeRegistry → Option EdgeSpec → Option (List OutputSlotSpec)
mirrored_outputs g registry none = some []
mirrored_outputs g registry (some sub_edge) =
    elim (find (λ (n : NodeSpec). n.id == sub_edge.from_.node) g.nodes) [
      | none ↦ some []
      | some sub_node ↦ elim (get_type registry sub_node.type) [
        | none ↦ some []
        | some sub_definition ↦ effective_outputs sub_definition sub_node
      ]
    ]

-- `_effective_outputs_for_root`
unfoldable pub effective_outputs_for_root :
    NodeDefinition → NodeSpec → GraphSpec → NodeRegistry → Option (List OutputSlotSpec)
unfolding mirrored_outputs
effective_outputs_for_root definition node g registry =
    elim (definition.resolve_slots_from_sub_node) [
      | none ↦ effective_outputs definition node
      | some slot ↦ mirrored_outputs g registry (
          find (λ (e : EdgeSpec). is_sub_node e.kind && e.to.node == node.id && e.slot == some slot)
            g.edges)
    ]

-- The tests on the two slots of an edge, in the order of the code.
unfoldable pub slot_mismatch :
    EdgeSpec
    → NodeSpec
    → NodeSpec
    → Option OutputSlotSpec
    → Option InputSlotSpec
    → List ValidationIssue
slot_mismatch edge src dst none dst_slot =
    issue type_mismatch (some src.id) (no_output_slot edge.from_.slot) ∷ []
slot_mismatch edge src dst (some s) none =
    issue type_mismatch (some dst.id) (no_input_slot edge.to.slot) ∷ []
slot_mismatch edge src dst (some s) (some d) =
    if is_compatible_with s.type d.type
    then []
    else issue type_mismatch (some dst.id) (mismatched src.id edge.from_.slot dst.id edge.to.slot)
      ∷ []

-- `None` on one end is skipped.
unfoldable pub resolved_mismatch :
    EdgeSpec
    → NodeSpec
    → NodeSpec
    → Option (List OutputSlotSpec)
    → Option (List InputSlotSpec)
    → List ValidationIssue
unfolding slot_mismatch
resolved_mismatch edge src dst none inputs = []
resolved_mismatch edge src dst (some outputs) none = []
resolved_mismatch edge src dst (some outputs) (some inputs) =
    slot_mismatch edge src dst
      (find (λ (s : OutputSlotSpec). some s.name == edge.from_.slot) outputs)
      (find (λ (s : InputSlotSpec). some s.name == edge.to.slot) inputs)

unfoldable pub defined_mismatch :
    GraphSpec
    → NodeRegistry
    → EdgeSpec
    → NodeSpec
    → NodeSpec
    → Option NodeDefinition
    → Option NodeDefinition
    → List ValidationIssue
unfolding resolved_mismatch
defined_mismatch g registry edge src dst (some src_def) (some dst_def) =
    resolved_mismatch edge src dst (effective_outputs_for_root src_def src g registry)
      (effective_inputs dst_def dst)
defined_mismatch g registry edge src dst none dst_def = []
defined_mismatch g registry edge src dst (some src_def) none = []

-- The ends of a valid edge are nodes of the graph, and a node that passes the test is registered, so
-- the cases with `none` are not reached.
unfoldable pub edge_mismatch :
    GraphSpec
    → NodeRegistry
    → List String
    → EdgeSpec
    → Option NodeSpec
    → Option NodeSpec
    → List ValidationIssue
unfolding defined_mismatch
edge_mismatch g registry unregistered_ids edge (some src) (some dst) =
    if contains unregistered_ids src.id || contains unregistered_ids dst.id
    then []
    else defined_mismatch g registry edge src dst (get_type registry src.type)
        (get_type registry dst.type)
edge_mismatch g registry unregistered_ids edge none dst = []
edge_mismatch g registry unregistered_ids edge (some src) none = []

unfoldable pub edge_mismatches :
    GraphSpec
    → NodeRegistry
    → List String
    → Dict String NodeSpec
    → List EdgeSpec
    → List ValidationIssue
unfolding edge_mismatch
edge_mismatches g registry unregistered_ids nodes_by_id [] = []
edge_mismatches g registry unregistered_ids nodes_by_id (edge ∷ edges) =
    edge_mismatch g registry unregistered_ids edge (get nodes_by_id edge.from_.node)
      (get nodes_by_id edge.to.node)
    ++ edge_mismatches g registry unregistered_ids nodes_by_id edges

unfoldable pub check_type_mismatches :
    GraphSpec → NodeRegistry → List EdgeSpec → List String → List ValidationIssue
unfolding edge_mismatches
check_type_mismatches g registry valid_edges unregistered_ids =
    edge_mismatches g registry unregistered_ids (index_nodes [] g.nodes) valid_edges

abbrev pub cycle_issue : List String → List ValidationIssue
cycle_issue [] = []
cycle_issue (n ∷ ns) = issue cycle none (cycle_involving (n ∷ ns)) ∷ []

unfoldable pub check_cycles : GraphSpec → List EdgeSpec → List ValidationIssue
check_cycles g valid_edges = cycle_issue (kahn_order (node_ids g) valid_edges).1
