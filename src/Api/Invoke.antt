-- ===== src/Api/Invoke.antt =====
-- backend/api/app.py: `invoke_graph` up to the start of its run. `truthy` is the text of a config value that is
-- true in Python, and `parse` is `GraphSpec.model_validate_json`.
pub mod Sound
pub mod Keys
use agent_graph_studio.Prelude.{
  string_eq, ℕ, String, ◌⊎◌, inl, inr, Option, none, some, List, [], ◌∷◌, nat_eq, pair_eq,
  option_eq,
}
use agent_graph_studio.Prelude.Dict.{Dict}
use agent_graph_studio.Schema.Value.{Value}
use agent_graph_studio.Schema.Models.{GraphSpec}
use agent_graph_studio.Registry.{NodeRegistry}
use agent_graph_studio.Connections.Store.{ConnectionProfile}
use agent_graph_studio.Connections.Resolver.{
  ConnectionType, ResolveError, not_found, unknown_type, invalid_config, Resolved, resolved, failed,
  resolve_connections, resolve_connection_profiles,
}
use agent_graph_studio.Validation.Issue.{ValidationIssue}
use agent_graph_studio.Validation.Validator.{validate_graph}
use agent_graph_studio.Storage.Graphs.{GraphRow, get_graph}
use agent_graph_studio.Storage.InvokeKeys.{InvokeKeyRow}
use agent_graph_studio.Api.Submit.{RunTask}
use agent_graph_studio.Api.Contract.{
  Contract, build_contract, apply_inputs, unknown_inputs, omitted_inputs,
}

-- The answers 404, 422 and 500 before a run is started, or the run with its timeout. Names are in the
-- request's order, which the source sorts.
pub data Invocation (Client : Type 0) : Type 0 where
  no_graph : Invocation Client
  contract_error : String → Invocation Client
  unrecognized missing : List String → Invocation Client
  invalid_graph : List ValidationIssue → Invocation Client
  missing_connection : String → Invocation Client
  crashed : Invocation Client
  invoked : RunTask Client → ℕ → Contract → Invocation Client

abbrev pub default_invoke_timeout_seconds : ℕ
default_invoke_timeout_seconds = 60

abbrev pub timeout_of : Option InvokeKeyRow → ℕ
timeout_of none = default_invoke_timeout_seconds
timeout_of (some k) = k.timeout_seconds

module _ {Client : Type 0} (registry : NodeRegistry) (types : Dict String (ConnectionType Client))
    (store : List ConnectionProfile) (truthy : Value → Option String)
    (parse : String → Option GraphSpec) (run_id : String) where
  abbrev not_resolved : ResolveError → Invocation Client
  not_resolved (not_found name) = missing_connection name
  not_resolved (unknown_type name) = crashed
  not_resolved (invalid_config name) = crashed

  unfoldable pub invoke_resolved :
      GraphSpec
      → Option String
      → Option InvokeKeyRow
      → Contract
      → Resolved Client
      → Resolved ConnectionProfile
      → Invocation Client
  invoke_resolved g run_by key c (failed e) profiles = not_resolved e
  invoke_resolved g run_by key c (resolved clients) (failed e) = not_resolved e
  invoke_resolved g run_by key c (resolved clients) (resolved profiles) =
      invoked
        (record {
          run_id = run_id;
          graph = g;
          connections = clients;
          connection_profiles = profiles;
          running_user_id = run_by;
          slot_mappings = [];
        })
        (timeout_of key) c

  unfoldable pub invoke_valid :
      GraphSpec
      → Option String
      → Option InvokeKeyRow
      → Contract
      → List ValidationIssue
      → Invocation Client
  unfolding invoke_resolved
  invoke_valid g run_by key c (i ∷ issues) = invalid_graph (i ∷ issues)
  invoke_valid g run_by key c [] =
      invoke_resolved g run_by key c (resolve_connections run_by none store types g)
        (resolve_connection_profiles run_by none store g)

  unfoldable pub invoke_supplied :
      GraphSpec
      → Option String
      → Option InvokeKeyRow
      → Contract
      → Dict String String
      → List String
      → List String
      → Invocation Client
  unfolding invoke_valid apply_inputs
  invoke_supplied g run_by key c supplied (u ∷ us) ms = unrecognized (u ∷ us)
  invoke_supplied g run_by key c supplied [] (m ∷ ms) = missing (m ∷ ms)
  invoke_supplied g run_by key c supplied [] [] =
      let filled = record g { nodes = apply_inputs g.nodes c.input_ids supplied } in
      invoke_valid filled run_by key c (validate_graph filled registry store run_by none)

  unfoldable pub invoke_contract :
      GraphSpec
      → Option String
      → Option InvokeKeyRow
      → Dict String String
      → Contract ⊎ String
      → Invocation Client
  unfolding invoke_supplied
  invoke_contract g run_by key supplied (inr name) = contract_error name
  invoke_contract g run_by key supplied (inl c) =
      invoke_supplied g run_by key c supplied (unknown_inputs c.input_ids supplied)
        (omitted_inputs c.input_fields supplied)

  unfoldable pub invoke_parsed :
      Option String
      → Option InvokeKeyRow
      → Dict String String
      → Option GraphSpec
      → Invocation Client
  unfolding invoke_contract build_contract
  invoke_parsed run_by key supplied none = crashed
  invoke_parsed run_by key supplied (some g) =
      invoke_contract g run_by key supplied (build_contract truthy g)

  unfoldable pub invoke_row :
      Option InvokeKeyRow → Dict String String → Option GraphRow → Invocation Client
  unfolding invoke_parsed
  invoke_row key supplied none = no_graph
  invoke_row key supplied (some row) =
      invoke_parsed row.created_by key supplied (parse row.spec_json)

  unfoldable pub invoke_graph :
      List GraphRow → String → Option InvokeKeyRow → Dict String String → Invocation Client
  unfolding invoke_row
  invoke_graph graphs graph_id key supplied = invoke_row key supplied (get_graph graphs graph_id)
