-- ===== src/Examples/Checks.antt =====
-- The checks' theorems at concrete graphs.
use agent_graph_studio.Prelude.{string_eq, String, ◌≡◌, refl, ◌≢◌, ◌↔◌, none, some, [], ◌∷◌}
use agent_graph_studio.Prelude.{pair_eq, option_eq}
use agent_graph_studio.Prelude.Dict.{Dict, get, put}
use agent_graph_studio.Schema.Value.{text}
use agent_graph_studio.Schema.Types.{is_compatible_with}
use agent_graph_studio.Schema.Models.{GraphSpec, index_nodes}
use agent_graph_studio.Schema.Topo.{kahn_order}
use agent_graph_studio.Registry.{
  NodeRegistry, effective_inputs, effective_outputs, get_type, register, registered,
}
use agent_graph_studio.Connections.Store.{ConnectionProfile, resolve_connection_for_user}
use agent_graph_studio.Connections.Resolver.{
  connection_reference_names, referenced_connection_names, resolve_slot_aware, resolved,
  resolve_connection_profiles,
}
use agent_graph_studio.Execution.Engine.Loop.{run_graph_async}
use agent_graph_studio.Execution.RunGraph.{user_of, run_graph, run_resources, ran}
use agent_graph_studio.Execution.RunGraph.Laws.{run_graph-ran}
use agent_graph_studio.Validation.Slots.{
  check_structural, check_unregistered_types, sub_node_referenced_ids, check_required_inputs,
  check_config_schema,
}
use agent_graph_studio.Validation.Flow.{
  check_type_mismatches, check_cycles, effective_outputs_for_root,
}
use agent_graph_studio.Validation.SubNodes.{check_sub_node_edges}
use agent_graph_studio.Validation.Names.{check_missing_connections}
use agent_graph_studio.Validation.Resolvable.{check_missing_connections-resolved}
use agent_graph_studio.Validation.Inputs.{AllFed, check_required_inputs_lem}
use agent_graph_studio.Validation.Validator.{validate_graph}
use agent_graph_studio.Validation.Verdict.{IsSound, validate_graph-IsSound}
use agent_graph_studio.Examples.Graphs.{chain, starved, types, no_times, graph, src_definition}

-- The graph in which `b` can never run passes every check.
starved_valid : validate_graph starved types [] none none ≡ []
unfolding validate_graph check_structural check_unregistered_types sub_node_referenced_ids
    check_required_inputs check_type_mismatches check_cycles check_config_schema
    check_missing_connections check_sub_node_edges kahn_order get_type effective_inputs
    effective_outputs effective_outputs_for_root is_compatible_with connection_reference_names get
    put index_nodes
starved_valid = refl

validate_graph-IsSound_example : IsSound starved types [] none none
validate_graph-IsSound_example = validate_graph-IsSound starved types [] none none starved_valid

chain_ran :
    run_graph chain types [] [] "run" no_times
    ≡ ran (run_graph_async chain types (run_resources chain []) "run" no_times)
unfolding run_graph validate_graph check_structural check_unregistered_types sub_node_referenced_ids
    check_required_inputs check_type_mismatches check_cycles check_config_schema
    check_missing_connections check_sub_node_edges kahn_order get_type effective_inputs
    effective_outputs effective_outputs_for_root is_compatible_with connection_reference_names get
    put index_nodes
chain_ran = refl

run_graph-ran_example :
    IsSound chain types [] none none
    × (run_graph_async chain types (run_resources chain []) "run" no_times ≢ none)
unfolding user_of get
run_graph-ran_example =
    run_graph-ran chain types [] [] "run" no_times
      (run_graph_async chain types (run_resources chain []) "run" no_times) (refl, (refl, tt))
      chain_ran

check_required_inputs_lem_example :
    (check_required_inputs chain types chain.edges [] [] ≡ [])
    ↔ AllFed types chain.edges [] [] chain.nodes
check_required_inputs_lem_example = check_required_inputs_lem chain types chain.edges [] []

-- A node that refers to the connection `db`, and a store that has it for everyone.
abbrev queries : GraphSpec
queries =
    graph
      (record { id = "q"; type = "src"; config = ("connection", text "db") ∷ []; input_values = [] }
        ∷ [])
      []

abbrev db : ConnectionProfile
db = record { name = "db"; type = "postgres"; config = []; user_id = none }

queries_valid : check_missing_connections (some "u") none (db ∷ []) queries ≡ []
unfolding check_missing_connections connection_reference_names get put resolve_slot_aware
    resolve_connection_for_user
queries_valid = refl

check_missing_connections-resolved_example :
    (d : Dict String ConnectionProfile) × (resolve_connection_profiles
        (some "u")
        none
        (db ∷ [])
        queries
      ≡ resolved d)
check_missing_connections-resolved_example =
    check_missing_connections-resolved (some "u") none (db ∷ []) queries queries_valid

abbrev profiles : Dict String ConnectionProfile
profiles = ("db", db) ∷ []

queries_resolved : resolve_connection_profiles (some "u") none (db ∷ []) queries ≡ resolved profiles
unfolding resolve_connection_profiles referenced_connection_names connection_reference_names get put
    resolve_slot_aware resolve_connection_for_user
queries_resolved = refl

abbrev one_type : NodeRegistry
one_type = ("src", src_definition) ∷ []

src_registered : register [] src_definition ≡ registered one_type
unfolding register get put
src_registered = refl
