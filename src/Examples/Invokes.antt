-- ===== src/Examples/Invokes.antt =====
-- Invoked runs: a graph that asks for one text, and the timeout of a new key.
use agent_graph_studio.Prelude.{
  string_eq, All, ◌≤◌, String, ◌≡◌, refl, true, Option, none, some, [], ◌∷◌, nat_eq, pair_eq,
  option_eq,
}
use agent_graph_studio.Prelude.Dict.{get, put}
use agent_graph_studio.Prelude.Int.{pos}
use agent_graph_studio.Schema.Value.{Value, text}
use agent_graph_studio.Schema.Models.{NodeSpec, GraphSpec, index_nodes}
use agent_graph_studio.Schema.Topo.{kahn_order}
use agent_graph_studio.Registry.{NodeRegistry, get_type, effective_inputs}
use agent_graph_studio.Connections.Resolver.{
  connection_reference_names, referenced_connection_names, resolve_connections,
  resolve_connection_profiles,
}
use agent_graph_studio.Validation.Slots.{
  check_structural, check_unregistered_types, check_required_inputs, sub_node_referenced_ids,
  check_config_schema,
}
use agent_graph_studio.Validation.Flow.{check_type_mismatches, check_cycles}
use agent_graph_studio.Validation.Names.{check_missing_connections}
use agent_graph_studio.Validation.SubNodes.{check_sub_node_edges}
use agent_graph_studio.Validation.Validator.{validate_graph}
use agent_graph_studio.Storage.Table.{select}
use agent_graph_studio.Storage.Graphs.{get_graph}
use agent_graph_studio.Storage.InvokeKeys.{validate_invoke_key}
use agent_graph_studio.Api.Submit.{RunTask}
use agent_graph_studio.Api.Contract.{
  Contract, build_contract, contract_nodes, contract_node, apply_inputs, set_value,
}
use agent_graph_studio.Api.Invoke.{
  invoked, timeout_of, invoke_resolved, invoke_valid, invoke_supplied, invoke_contract,
  invoke_parsed, invoke_row, invoke_graph,
}
use agent_graph_studio.Api.Invoke.Sound.{IsInvoked, invoke_graph-IsInvoked}
use agent_graph_studio.Api.Invoke.Keys.{InRange, create_invoke_key, create_invoke_key-timeout_of}
use agent_graph_studio.Examples.Graphs.{graph, node, plain_definition, is_silent}
use agent_graph_studio.Examples.Submits.{row, client_types}

create_invoke_key-timeout_of_example :
    let t' = (create_invoke_key (λ s. s) "secret" "k" "1" (row ∷ []) [] "g" "" (pos 300) none).0 in
    let waits = timeout_of (validate_invoke_key (λ s. s) t' "g" "secret" none).1 in
    All InRange t' × (1 ≤ waits) × (waits ≤ 300)
create_invoke_key-timeout_of_example =
    create_invoke_key-timeout_of (λ s. s) "secret" "k" "1" (row ∷ []) [] "g" "" (pos 300) none
      "secret" none tt

abbrev asking : NodeSpec
asking = node "question" "text_input"

-- The value that a caller sends.
abbrev asked : GraphSpec
asked = graph (record asking { config = ("value", text "hi") ∷ [] } ∷ []) []

abbrev truthy : Value → Option String
truthy v = none

abbrev parse : String → Option GraphSpec
parse s = some (graph (asking ∷ []) [])

abbrev question_contract : Contract
question_contract = record {
  input_ids = ("question", "question") ∷ [];
  output_ids = [];
  input_fields =
      record {
        name = "question";
        node_id = "question";
        direction = "input";
        required = true;
        default = none;
      }
      ∷ [];
  output_fields = [];
}

abbrev invoke_types : NodeRegistry
invoke_types = ("text_input", plain_definition "text_input" [] [] is_silent) ∷ []

abbrev invoke_task : RunTask String
invoke_task = record {
  run_id = "r";
  graph = asked;
  connections = [];
  connection_profiles = [];
  running_user_id = some "ann";
  slot_mappings = [];
}

asked_valid : validate_graph asked invoke_types [] (some "ann") none ≡ []
unfolding validate_graph check_structural check_unregistered_types sub_node_referenced_ids
    check_required_inputs check_type_mismatches check_cycles check_config_schema
    check_missing_connections check_sub_node_edges kahn_order get_type effective_inputs
    connection_reference_names get put index_nodes
asked_valid = refl

question_invoked :
    invoke_graph invoke_types client_types [] truthy parse "r"
      (row ∷ [])
      "g"
      none
      (("question", "hi") ∷ [])
    ≡ invoked invoke_task 60 question_contract
unfolding invoke_graph invoke_row invoke_parsed invoke_contract invoke_supplied invoke_valid
    invoke_resolved build_contract contract_nodes contract_node apply_inputs set_value get_graph
    select get put resolve_connections resolve_connection_profiles referenced_connection_names
    connection_reference_names
question_invoked = rw asked_valid refl

row_found : get_graph (row ∷ []) "g" ≡ some row
unfolding get_graph select
row_found = refl

invoke_graph-IsInvoked_example :
    IsInvoked invoke_types client_types [] truthy parse "r" none
      (("question", "hi") ∷ [])
      invoke_task
      60
      question_contract
      row
      (graph (asking ∷ []) [])
invoke_graph-IsInvoked_example =
    invoke_graph-IsInvoked invoke_types client_types [] truthy parse "r" none
      (("question", "hi") ∷ []) invoke_task 60 question_contract (row ∷ []) "g" row
      (graph (asking ∷ []) []) row_found refl (refl, tt) (refl, tt) question_invoked
