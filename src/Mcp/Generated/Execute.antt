-- ===== src/Mcp/Generated/Execute.antt =====
-- backend/mcp/generated_nodes.py: `_make_execute`, the body of the node of a tool, with the stores as they
-- are at the call. Changes of the stored tokens in a refresh are not part of the node's result.
use agent_graph_studio.Prelude.{
  if◌then◌else◌, ◌==◌, string_eq, String, Bool, true, not, ◌&&◌, Option, none, some, List, [], ◌∷◌,
  nat_eq, pair_eq, option_eq,
}
use agent_graph_studio.Prelude.Dict.{Dict, get}
use agent_graph_studio.Schema.Value.{Value, text, object, Fields, end, field}
use agent_graph_studio.Execution.Trace.{
  ExecutionContext, Execution, returned, raised, Resource, given, no_cost, no_children,
}
use agent_graph_studio.Execution.RunGraph.{user_of}
use agent_graph_studio.Connections.Store.{ConnectionProfile, get_connection}
use agent_graph_studio.Mcp.Server.{McpServerConnectionConfig, McpServerConfig}
use agent_graph_studio.Mcp.Generated.{McpToolInfo}

abbrev field_of : Fields → String → Option Value
field_of end name = none
field_of (field k v fs) name = if k == name then some v else field_of fs name

abbrev text_of : Option Value → Option String
text_of none = none
text_of (some (text t)) = some t
text_of (some v) = none

-- `(ctx.resources.get("slot_mappings") or {}).get(name)`
unfoldable pub mapping_in : Option Resource → String → Option String
mapping_in (some (given (object fs))) name = text_of (field_of fs name)
mapping_in _ name = none

-- The name and the owner of the connection that a call uses.
abbrev pub or_mapped : String → Option String → String → Option String → String × Option String
or_mapped name owner user none = (name, owner)
or_mapped name owner user (some mapped) = (mapped, some user)

unfoldable pub connection_for :
    Dict String Resource → String → Option String → Option String → String × Option String
unfolding mapping_in
connection_for resources name owner none = (name, owner)
connection_for resources name owner (some user) =
    if some user == owner
    then (name, owner)
    else or_mapped name owner user (mapping_in (get resources "slot_mappings") name)

-- `running_user_id if profile.user_id is None else resolve_owner`
abbrev pub token_user_of : Option String → Option String → Option String → Option String
token_user_of running owner none = running
token_user_of running owner (some u) = owner

module _ (config_of : Dict String Value → Option McpServerConnectionConfig)
    (server_config : McpServerConnectionConfig → String → Option String → Option McpServerConfig)
    (arguments_of : McpToolInfo → Dict String Value → Option (Dict String Value))
    (approve : Dict String Resource → String → Dict String Value → Bool)
    (call_tool : McpServerConfig → String → Dict String Value → Option String)
    (say : String → String → String) (store : List ConnectionProfile) where
  abbrev pub call_result : String → McpToolInfo → Option String → Execution
  call_result name tool none = raised (say name tool.name)
  call_result name tool (some result) = returned (record {
    outputs = ("result", text result) ∷ [];
    token_cost = no_cost;
    side_effect = true;
    child_traces = no_children;
  })

  -- The approval gate, unless the connection is trusted, and the call.
  abbrev pub gated :
      McpServerConnectionConfig
      → ExecutionContext
      → String
      → McpToolInfo
      → McpServerConfig
      → Option (Dict String Value)
      → Execution
  gated config ctx name tool server none = raised (say name tool.name)
  gated config ctx name tool server (some arguments) =
      if not config.trusted && not (approve ctx.resources tool.name arguments)
      then raised (say name tool.name)
      else call_result name tool (call_tool server tool.name arguments)

  abbrev pub with_server :
      McpServerConnectionConfig
      → ExecutionContext
      → String
      → McpToolInfo
      → Option McpServerConfig
      → Execution
  with_server config ctx name tool none = raised (say name tool.name)
  with_server config ctx name tool (some server) =
      gated config ctx name tool server (arguments_of tool ctx.inputs)

  abbrev pub configured :
      ExecutionContext
      → String
      → McpToolInfo
      → Option String
      → Option McpServerConnectionConfig
      → Execution
  configured ctx name tool user none = raised (say name tool.name)
  configured ctx name tool user (some config) =
      with_server config ctx name tool (server_config config name user)

  abbrev pub on_profile :
      ExecutionContext → String → Option String → McpToolInfo → Option ConnectionProfile → Execution
  on_profile ctx name owner tool none = raised (say name tool.name)
  on_profile ctx name owner tool (some p) =
      configured ctx name tool
        (token_user_of (user_of (get ctx.resources "running_user_id")) owner p.user_id)
        (config_of p.config)

  abbrev pub on_connection : ExecutionContext → McpToolInfo → String × Option String → Execution
  on_connection ctx tool (name, owner) =
      on_profile ctx name owner tool (get_connection name owner store)

  unfoldable pub make_execute : String → McpToolInfo → Option String → ExecutionContext → Execution
  unfolding connection_for
  make_execute name tool owner ctx =
      on_connection ctx tool
        (connection_for ctx.resources name owner (user_of (get ctx.resources "running_user_id")))
