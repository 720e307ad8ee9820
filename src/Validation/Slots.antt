-- ===== src/Validation/Slots.antt =====
-- backend/validation/rules.py: the structural check, registration of types, and required inputs.
use agent_graph_studio.Prelude.{
  if◌then◌else◌, is_some, string_eq, filter_list, contains, String, Bool, not, ◌&&◌, ◌||◌, Option,
  none, some, List, [], ◌∷◌, ◌++◌, map,
}
use agent_graph_studio.Prelude.{pair_eq, option_eq}
use agent_graph_studio.Prelude.Dict.{has}
use agent_graph_studio.Schema.Models.{EdgeSpec, NodeSpec, GraphSpec, is_data, is_sub_node, node_ids}
use agent_graph_studio.Registry.{
  NodeDefinition, NodeRegistry, InputSlotSpec, effective_inputs, get_type,
}
use agent_graph_studio.Validation.Issue.{
  ValidationIssue, issue, IssueMessage, structural, unregistered_type, missing_required_input,
  unknown_source, unknown_destination, not_registered, no_incoming_edge, invalid_config,
  config_error,
}

-- `problems`, the messages about one edge
unfoldable pub edge_problems : List String → EdgeSpec → List IssueMessage
edge_problems ids edge =
    (if contains ids edge.from_.node then [] else unknown_source edge.from_.node ∷ [])
    ++ (if contains ids edge.to.node then [] else unknown_destination edge.to.node ∷ [])

-- An edge without problems is valid if it carries data.
unfoldable pub keep_edge : List IssueMessage → EdgeSpec → List EdgeSpec → List EdgeSpec
keep_edge [] edge edges = if is_data edge.kind then edge ∷ edges else edges
keep_edge (p ∷ ps) edge edges = edges

unfoldable pub structural_edges : List String → List EdgeSpec → List ValidationIssue × List EdgeSpec
structural_edges ids [] = ([], [])
structural_edges ids (edge ∷ edges) =
    let (issues, valid_edges) = structural_edges ids edges in
    let problems = edge_problems ids edge in
    (map (λ p. issue structural none p) problems ++ issues, keep_edge problems edge valid_edges)

-- `(issues, valid_edges)`
unfoldable pub check_structural : GraphSpec → List ValidationIssue × List EdgeSpec
unfolding structural_edges edge_problems keep_edge
check_structural g = structural_edges (node_ids g) g.edges

unfoldable pub unregistered_nodes :
    NodeRegistry → List NodeSpec → List ValidationIssue × List String
unregistered_nodes registry [] = ([], [])
unregistered_nodes registry (node ∷ nodes) =
    let (issues, ids) = unregistered_nodes registry nodes in
    if is_some (get_type registry node.type)
    then (issues, ids)
    else (issue unregistered_type (some node.id) (not_registered node.type) ∷ issues, node.id ∷ ids)

-- `(issues, unregistered_ids)`
unfoldable pub check_unregistered_types :
    GraphSpec → NodeRegistry → List ValidationIssue × List String
unfolding unregistered_nodes
check_unregistered_types g registry = unregistered_nodes registry g.nodes

unfoldable pub sub_node_referenced_ids : GraphSpec → List String
sub_node_referenced_ids g =
    map (λ e. e.from_.node) (filter_list (λ (e : EdgeSpec). is_sub_node e.kind) g.edges)

-- `(e.to.node, e.to.slot) for e in valid_edges`
abbrev pub covered_slots : List EdgeSpec → List (String × Option String)
covered_slots edges = map (λ e. (e.to.node, e.to.slot)) edges

module _ (covered : List (String × Option String)) where
  -- the test on one slot
  unfoldable pub is_missing : NodeSpec → InputSlotSpec → Bool
  is_missing node slot =
      slot.required
      && not (contains covered (node.id, some slot.name))
      && not (has node.input_values slot.name)

  unfoldable pub missing_inputs : NodeSpec → List InputSlotSpec → List ValidationIssue
  unfolding is_missing
  missing_inputs node [] = []
  missing_inputs node (slot ∷ slots) =
      let rest = missing_inputs node slots in
      if is_missing node slot
      then issue missing_required_input (some node.id) (no_incoming_edge slot.name) ∷ rest
      else rest

  -- `None` inputs are skipped. A node that is reached here has a registered type.
  unfoldable pub missing_of : NodeSpec → Option NodeDefinition → List ValidationIssue
  unfolding missing_inputs
  missing_of node none = []
  missing_of node (some definition) = elim (effective_inputs definition node) [
    | none ↦ []
    | some slots ↦ missing_inputs node slots
  ]

  unfoldable pub required_inputs :
      NodeRegistry → List String → List String → List NodeSpec → List ValidationIssue
  unfolding missing_of
  required_inputs registry unregistered_ids sub_node_ids [] = []
  required_inputs registry unregistered_ids sub_node_ids (node ∷ nodes) =
      (if contains unregistered_ids node.id || contains sub_node_ids node.id
        then []
        else missing_of node (get_type registry node.type))
      ++ required_inputs registry unregistered_ids sub_node_ids nodes

unfoldable pub check_required_inputs :
    GraphSpec → NodeRegistry → List EdgeSpec → List String → List String → List ValidationIssue
unfolding required_inputs
check_required_inputs g registry valid_edges unregistered_ids sub_node_ids =
    required_inputs (covered_slots valid_edges) registry unregistered_ids sub_node_ids g.nodes

unfoldable pub config_issue : NodeSpec → Option NodeDefinition → List ValidationIssue
config_issue node none = []
config_issue node (some definition) = elim (definition.config_model node.config) [
  | none ↦ []
  | some e ↦ issue invalid_config (some node.id) (config_error e) ∷ []
]

unfoldable pub config_issues : NodeRegistry → List String → List NodeSpec → List ValidationIssue
unfolding config_issue
config_issues registry unregistered_ids [] = []
config_issues registry unregistered_ids (node ∷ nodes) =
    (if contains unregistered_ids node.id
      then []
      else config_issue node (get_type registry node.type))
    ++ config_issues registry unregistered_ids nodes

unfoldable pub check_config_schema : GraphSpec → NodeRegistry → List String → List ValidationIssue
unfolding config_issues
check_config_schema g registry unregistered_ids = config_issues registry unregistered_ids g.nodes
