-- ===== src/Examples/Submits.antt =====
-- Submitted runs: a graph that `ann` shares, whose slot `db` stands for `mine` when `u` runs it,
-- and the options of a field that two callers ask for.
use agent_graph_studio.Prelude.{
  All, ap, ◌==◌, string_eq, contains, String, ◌≡◌, refl, ◌≢◌, true, false, none, some, List, [],
  ◌∷◌, arith, nat_eq, pair_eq, option_eq,
}
use agent_graph_studio.Prelude.Dict.{Dict, get, put, has}
use agent_graph_studio.Schema.Value.{text}
use agent_graph_studio.Schema.Models.{GraphSpec, index_nodes}
use agent_graph_studio.Schema.Topo.{kahn_order}
use agent_graph_studio.Registry.{get_type, effective_inputs}
use agent_graph_studio.Connections.Store.{ConnectionProfile, resolve_connection_for_user}
use agent_graph_studio.Connections.Resolver.{
  ConnectionType, resolved, connection_reference_names, referenced_connection_names,
  resolve_slot_aware, resolve_connections, resolve_connection_profiles,
}
use agent_graph_studio.Validation.Slots.{
  check_structural, check_unregistered_types, check_required_inputs, sub_node_referenced_ids,
  check_config_schema,
}
use agent_graph_studio.Validation.Flow.{check_type_mismatches, check_cycles}
use agent_graph_studio.Validation.Names.{check_missing_connections}
use agent_graph_studio.Validation.SubNodes.{check_sub_node_edges}
use agent_graph_studio.Validation.Validator.{validate_graph}
use agent_graph_studio.Validation.Verdict.{IsSound}
use agent_graph_studio.Execution.Trace.{Resource, given}
use agent_graph_studio.Execution.RunGraph.{ran, user_of, run_graph}
use agent_graph_studio.Storage.Table.{select}
use agent_graph_studio.Storage.Graphs.{GraphRow, get_graph}
use agent_graph_studio.Storage.Sharing.{SharingTables, SlotRow, list_slots, get_mappings_for_user}
use agent_graph_studio.Api.Runs.Worker.{Server, create_run}
use agent_graph_studio.Api.Submit.{
  RunTask, accepted, needs_mappings, row_mappings, slot_mappings_of, resolved_run, validated_run,
  mapped_run, submit_run,
}
use agent_graph_studio.Api.Submit.Accepted.{submit_run-IsSound}
use agent_graph_studio.Api.Runs.{RunRecord, get_run_snapshot}
use agent_graph_studio.Api.Submit.Unmapped.{run_graph-unmapped}
use agent_graph_studio.Api.Options.{
  OptionBinding, options, resolve_node_type_options, resolve_node_type_options-shared,
}
use agent_graph_studio.Examples.Graphs.{graph, types, no_times}

abbrev shared_graph : GraphSpec
shared_graph =
    graph
      (record { id = "s"; type = "src"; config = ("connection", text "db") ∷ []; input_values = [] }
        ∷ [])
      []

abbrev pub row : GraphRow
row = record {
  graph_id = "g";
  name = "G";
  spec_json = "{}";
  is_active = false;
  created_at = "1";
  updated_at = "1";
  created_by = some "ann";
  sharing = "shared";
}

abbrev tables : SharingTables
tables = record {
  slots = record { graph_id = "g"; slot_name = "db"; connection_type = "postgres" } ∷ [];
  mappings =
      record { user_id = "u"; graph_id = "g"; slot_name = "db"; connection_name = "mine" } ∷ [];
}

abbrev mine : ConnectionProfile
mine = record { name = "mine"; type = "postgres"; config = []; user_id = some "u" }

abbrev pub client_types : Dict String (ConnectionType String)
client_types =
    ("postgres", record { type_name = "postgres"; build_client = λ c. some "client" }) ∷ []

abbrev idle : Server
idle = record { runs = []; history = []; approvals = record { pending = []; remembered = [] } }

abbrev task : RunTask String
task = record {
  run_id = "r";
  graph = shared_graph;
  connections = ("db", "client") ∷ [];
  connection_profiles = ("db", mine) ∷ [];
  running_user_id = some "u";
  slot_mappings = ("db", "mine") ∷ [];
}

shared_valid :
    validate_graph shared_graph types (mine ∷ []) (some "u") (some (("db", "mine") ∷ [])) ≡ []
unfolding validate_graph check_structural check_unregistered_types sub_node_referenced_ids
    check_required_inputs check_type_mismatches check_cycles check_config_schema
    check_missing_connections check_sub_node_edges kahn_order get_type effective_inputs
    connection_reference_names resolve_slot_aware get put index_nodes resolve_connection_for_user
shared_valid = refl

shared_mappings :
    slot_mappings_of (row ∷ []) tables (some "u") (some "g") ≡ ([], ("db", "mine") ∷ [])
unfolding slot_mappings_of row_mappings needs_mappings get_graph select list_slots
    get_mappings_for_user get put
shared_mappings = refl

shared_accepted :
    submit_run types client_types
      (mine ∷ [])
      false
      "r"
      "1"
      idle
      (row ∷ [])
      tables
      shared_graph
      (some "g")
      (some "u")
    ≡ ((create_run false idle "r" (some "g") "manual" (some "u") "1").0, accepted task)
unfolding submit_run mapped_run validated_run resolved_run resolve_connections
    resolve_connection_profiles referenced_connection_names connection_reference_names
    resolve_slot_aware get put resolve_connection_for_user
shared_accepted = rw (shared_mappings, shared_valid) refl

abbrev recorded : Server
recorded = (create_run false idle "r" (some "g") "manual" (some "u") "1").0

g_found : get_graph (row ∷ []) "g" ≡ some row
unfolding get_graph select
g_found = refl

not_ann : some "u" ≢ row.created_by
not_ann h =
    let k : true ≡ (some "u" == row.created_by) = ap (λ o. some "u" == o) h in absurd (ground arith)

submit_run-IsSound_example :
    let mappings = get_mappings_for_user tables "u" "g" in
    All (λ (r : SlotRow). has mappings r.slot_name ≡ true) (list_slots tables "g")
    × IsSound shared_graph types (mine ∷ []) (some "u") (some mappings)
    × (task.graph ≡ shared_graph)
    × (task.running_user_id ≡ some "u")
    × (task.slot_mappings ≡ mappings)
    × (resolve_connections (some "u") (some mappings) (mine ∷ []) client_types shared_graph
        ≡ resolved task.connections)
    × (resolve_connection_profiles (some "u") (some mappings) (mine ∷ []) shared_graph
        ≡ resolved task.connection_profiles)
    × ((r : RunRecord) × (get_run_snapshot recorded.runs "r" ≡ some r)
        × (r.status ≡ "running")
        × (r.graph_id ≡ some "g")
        × (r.run_by ≡ some "u"))
submit_run-IsSound_example =
    submit_run-IsSound types client_types (mine ∷ []) false "r" "1" idle recorded shared_graph "g"
      "u" task (row ∷ []) tables row g_found refl not_ann shared_accepted

abbrev task_resources : Dict String Resource
task_resources = ("running_user_id", given (text "u")) ∷ []

refers : contains (referenced_connection_names shared_graph) "db" ≡ true
unfolding referenced_connection_names connection_reference_names
refers = refl

not_visible :
    resolve_connection_for_user "db" (user_of (get task_resources "running_user_id")) (mine ∷ [])
    ≡ none
unfolding user_of get resolve_connection_for_user
not_visible = refl

run_graph-unmapped_example :
    run_graph shared_graph types (mine ∷ []) task_resources "r" no_times ≢ ran none
run_graph-unmapped_example =
    run_graph-unmapped shared_graph types (mine ∷ []) task_resources "r" no_times "db" none refers
      not_visible

abbrev server_of : String → ConnectionProfile
server_of user = record { name = "mail"; type = "mcp_server"; config = []; user_id = some user }

-- The options are the folders of the account whose token is used.
abbrev binding : OptionBinding Unit String
binding = record {
  arguments = λ c. "";
  fetch = λ config name user arguments. elim user [ none ↦ none | some u ↦ some (some u) ];
}

abbrev bindings : Dict (String × String) (OptionBinding Unit String)
bindings = (("gmail", "folder"), binding) ∷ []

abbrev servers : List ConnectionProfile
servers = server_of "ann" ∷ server_of "u" ∷ []

ann_asks :
    resolve_node_type_options bindings
      (λ c. some tt)
      servers
      []
      "gmail"
      "folder"
      "mail"
      []
      (some "ann")
      5
    ≡ ((("mail", ("folder", "")), (5, "ann")) ∷ [], options "ann")
unfolding resolve_node_type_options get put resolve_connection_for_user
ann_asks = refl

-- `u` is shown the folders of `ann`.
resolve_node_type_options-shared_example :
    (resolve_node_type_options bindings
      (λ c. some tt)
      servers
      ((("mail", ("folder", "")), (5, "ann")) ∷ [])
      "gmail"
      "folder"
      "mail"
      []
      (some "u")
      20).1
    ≡ options "ann"
unfolding get resolve_connection_for_user
resolve_node_type_options-shared_example =
    resolve_node_type_options-shared bindings (λ c. some tt) servers []
      ((("mail", ("folder", "")), (5, "ann")) ∷ []) "gmail" "folder" "mail" [] (some "ann")
      (some "u") 5 20 binding (server_of "u") tt "ann" refl refl ann_asks refl refl refl
      (ground arith)
