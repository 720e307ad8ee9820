-- ===== src/Mcp/Generated.antt =====
-- backend/mcp/generated_nodes.py: one node type for each tool of a server. The reading of a connection's
-- config, the calls of a server, the coercion of arguments and the approval prompt are parameters.

use Prim.Native.String.{◌++◌ as str_append}
pub mod Registering
pub mod Settled
pub mod Execute
pub mod Startup
use agent_graph_studio.Prelude.{
  if◌then◌else◌, ◌==◌, string_eq, any, filter_list, contains, ◌+◌, ◌-◌, String, ◌⊎◌, inl, inr, Bool,
  not, ◌&&◌, Option, none, some, List, [], ◌∷◌, ◌++◌, map, nat_eq, pair_eq, option_eq,
}
use agent_graph_studio.Prelude.Dict.{Dict, get, put, pop}
use agent_graph_studio.Schema.Value.{Value}
use agent_graph_studio.Schema.Types.{text_slot}
use agent_graph_studio.Execution.Trace.{ExecutionContext, Execution}
use agent_graph_studio.Registry.{
  InputSlotSpec, NodeDefinition, NodeRegistry, Registration, registered, duplicate_type,
  no_such_result_slot, register, unregister,
}
use agent_graph_studio.Connections.Store.{ConnectionProfile, get_connection}
use agent_graph_studio.Mcp.Server.{
  McpServerConnectionConfig, McpServerConfig, CredentialError, Credentials, Configured,
}

pub record McpToolInfo : Type 0 where
  pub name : String
  pub param_names : List String
  pub param_json_types : Dict String String
  pub required_names : List String

-- `f"{a}__{b}"`
abbrev pub joined : String → String → String
joined a b = str_append a (str_append "__" b)

unfoldable pub type_name_for : String → String → Option String → String
type_name_for connection_name tool_name none = joined "mcp" (joined connection_name tool_name)
type_name_for connection_name tool_name (some owner) =
    joined "mcp" (str_append "u_" (joined owner (joined connection_name tool_name)))

-- `_generated_types_by_connection`, and what else the generation of types changes: the node registry and the
-- option bindings, which are given by their node type and field.
pub record NodeTypes : Type 0 where
  pub registry : NodeRegistry
  pub generated : Dict (Option String × String) (List String)
  pub bindings : List (String × String)

abbrev pub or_no_types : Option (List String) → List String
or_no_types none = []
or_no_types (some ts) = ts

-- `registry.unregister` and `option_bindings.unregister_for_node_type` for each name
unfoldable pub unregister_types : NodeTypes → List String → NodeTypes
unregister_types s [] = s
unregister_types s (t ∷ ts) =
    unregister_types
      (record s {
        registry = unregister s.registry t;
        bindings = filter_list (λ (b : String × String). not (b.0 == t)) s.bindings;
      })
      ts

unfoldable pub unregister_for_connection : NodeTypes → String → Option String → NodeTypes
unfolding unregister_types
unregister_for_connection s name owner =
    unregister_types (record s { generated = pop s.generated (owner, name) })
      (or_no_types (get s.generated (owner, name)))

-- What a generation raises.
pub data GenerationError : Type 0 where
  no_connection not_mcp_server bad_config no_tools : GenerationError
  no_credential : CredentialError → GenerationError
  type_taken : String → GenerationError

abbrev pub input_of : McpToolInfo → String → InputSlotSpec
input_of tool name = record {
  name = name;
  type = text_slot;
  required = contains tool.required_names name;
}

-- `execute` stands for the closure of `_make_execute`.
abbrev pub definition_for :
    (String → McpToolInfo → Option String → ExecutionContext → Execution)
    → String
    → Option String
    → McpToolInfo
    → NodeDefinition
definition_for execute name owner tool = record {
  type_name = type_name_for name tool.name owner;
  inputs = map (input_of tool) tool.param_names;
  outputs = record { name = "result"; type = text_slot } ∷ [];
  config_model = λ c. none;
  execute = execute name tool owner;
  category = "apps";
  result_slot = none;
  resolve_slots = none;
  sub_node_slots = none;
  sub_node_role = none;
  resolve_slots_from_sub_node = none;
  integration = some name;
  capability_group = none;
}

-- `{"resolve-library-id", "query-docs"}.issubset(tool_names)`
abbrev pub is_context7_shaped : List McpToolInfo → Bool
is_context7_shaped tools =
    any (λ (t : McpToolInfo). t.name == "resolve-library-id") tools
    && any (λ (t : McpToolInfo). t.name == "query-docs") tools

-- `_bindings[(type_name, "libraryId")] = …` for the one tool that has such a field
abbrev pub bind_option :
    Bool → McpToolInfo → String → List (String × String) → List (String × String)
bind_option shaped tool type_name bindings =
    if shaped && tool.name == "query-docs"
    then (if contains bindings (type_name, "libraryId")
        then bindings
        else bindings ++ (type_name, "libraryId") ∷ [])
    else bindings

abbrev pub Generated : Type 0
Generated = NodeTypes × (List String ⊎ GenerationError)

abbrev pub named_too : String → Generated → Generated
named_too t (s, inl ts) = (s, inl (t ∷ ts))
named_too t (s, inr e) = (s, inr e)

module _ (execute : String → McpToolInfo → Option String → ExecutionContext → Execution)
    (name : String) (owner : Option String) where
  abbrev pub after_registration :
      NodeTypes → Bool → McpToolInfo → (NodeTypes → Generated) → Registration → Generated
  after_registration s shaped tool rest (registered defs) =
      let type_name = type_name_for name tool.name owner in
      named_too type_name (
        rest
          (record s { registry = defs; bindings = bind_option shaped tool type_name s.bindings }))
  after_registration s shaped tool rest (duplicate_type t) = (s, inr (type_taken t))
  after_registration s shaped tool rest (no_such_result_slot t slot) = (s, inr (type_taken t))

  -- The loop over the tools; an error leaves what was registered before it.
  unfoldable pub register_tools : NodeTypes → Bool → List McpToolInfo → Generated
  register_tools s shaped [] = (s, inl [])
  register_tools s shaped (tool ∷ tools) =
      after_registration s shaped tool (λ s'. register_tools s' shaped tools)
        (register s.registry (definition_for execute name owner tool))

  -- `_generated_types_by_connection[(owner_user_id, connection_name)] = created`
  abbrev pub track : Generated → Generated
  track (s, inl ts) = (record s { generated = put s.generated (owner, name) ts }, inl ts)
  track (s, inr e) = (s, inr e)

  unfoldable pub replace_types : NodeTypes → List McpToolInfo → Generated
  unfolding register_tools
  replace_types s tools =
      track
        (register_tools (unregister_for_connection s name owner) (is_context7_shaped tools) tools)

  -- `list_tools` raises where it is none.
  module _ (list_tools : McpServerConfig → Option (List McpToolInfo)) where
    abbrev pub listed_types : NodeTypes → Option (List McpToolInfo) → Generated
    listed_types s none = (s, inr no_tools)
    listed_types s (some tools) = replace_types s tools

    abbrev pub discovered : Credentials → NodeTypes → Configured → Credentials × Generated
    discovered c s (c', inr e) = (c', (s, inr (no_credential e)))
    discovered c s (c', inl server) = (c', listed_types s (list_tools server))

    module _ (config_of : Dict String Value → Option McpServerConnectionConfig)
        (server_config : Credentials
          → McpServerConnectionConfig
          → String
          → Option String
          → Configured)
        (store : List ConnectionProfile) where
      -- `owner_user_id if discovery_user_id is None else discovery_user_id`
      abbrev pub discovering : Option String → Option String
      discovering none = owner
      discovering (some u) = some u

      abbrev pub with_server_config :
          Credentials
          → NodeTypes
          → Option String
          → Option McpServerConnectionConfig
          → Credentials × Generated
      with_server_config c s user none = (c, (s, inr bad_config))
      with_server_config c s user (some config) =
          discovered c s (server_config c config name (discovering user))

      abbrev pub with_server_profile :
          Credentials
          → NodeTypes
          → Option String
          → Option ConnectionProfile
          → Credentials × Generated
      with_server_profile c s user none = (c, (s, inr no_connection))
      with_server_profile c s user (some p) =
          if p.type == "mcp_server"
          then with_server_config c s user (config_of p.config)
          else (c, (s, inr not_mcp_server))

      unfoldable pub generate_node_types_for_connection :
          Credentials → NodeTypes → Option String → Credentials × Generated
      unfolding replace_types
      generate_node_types_for_connection c s user =
          with_server_profile c s user (get_connection name owner store)
