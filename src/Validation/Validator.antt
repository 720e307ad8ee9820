-- ===== src/Validation/Validator.antt =====
-- backend/validation/validator.py: all rules in order. The result is the list of issues; the code
-- raises `GraphValidationError` with it, unless it is empty.
use agent_graph_studio.Prelude.{string_eq, String, Option, List, ◌++◌}
use agent_graph_studio.Prelude.Dict.{Dict}
use agent_graph_studio.Schema.Models.{GraphSpec}
use agent_graph_studio.Registry.{NodeRegistry}
use agent_graph_studio.Connections.Store.{ConnectionProfile}
use agent_graph_studio.Validation.Issue.{ValidationIssue}
use agent_graph_studio.Validation.Slots.{
  check_structural, check_unregistered_types, sub_node_referenced_ids, check_required_inputs,
  check_config_schema,
}
use agent_graph_studio.Validation.Flow.{check_type_mismatches, check_cycles}
use agent_graph_studio.Validation.Names.{check_missing_connections}
use agent_graph_studio.Validation.SubNodes.{check_sub_node_edges}

unfoldable pub validate_graph :
    GraphSpec
    → NodeRegistry
    → List ConnectionProfile
    → Option String
    → Option (Dict String String)
    → List ValidationIssue
validate_graph g registry store user_id mappings =
    let (structural_issues, valid_edges) = check_structural g in
    let (unregistered_issues, unregistered_ids) = check_unregistered_types g registry in
    let sub_node_ids = sub_node_referenced_ids g in
    structural_issues
    ++ (unregistered_issues
        ++ (check_required_inputs g registry valid_edges unregistered_ids sub_node_ids
            ++ (check_type_mismatches g registry valid_edges unregistered_ids
                ++ (check_cycles g valid_edges
                    ++ (check_config_schema g registry unregistered_ids
                        ++ (check_missing_connections user_id mappings store g
                            ++ check_sub_node_edges g registry unregistered_ids))))))
