-- ===== src/Examples/Tools.antt =====
-- Nodes of a tool server: `ann` has a private connection `mail` with her key, and `bob` is another user.
use agent_graph_studio.Prelude.{
  is_some, string_eq, String, ◌≡◌, ap, inl, inr, false, Option, none, some, List, [], ◌∷◌, nat_eq,
  pair_eq, option_eq,
}
use agent_graph_studio.Prelude.Dict.{Dict, get}
use agent_graph_studio.Schema.Value.{Value, text}
use agent_graph_studio.Execution.Trace.{ExecutionContext, Execution, given, raised}
use agent_graph_studio.Connections.Store.{ConnectionProfile}
use agent_graph_studio.Mcp.Server.{McpServerConnectionConfig, McpServerConfig, Configured}
use agent_graph_studio.Mcp.Generated.{McpToolInfo, NodeTypes, generate_node_types_for_connection}
use agent_graph_studio.Mcp.Generated.Startup.{
  regenerate_all_on_startup, regenerate_all_on_startup-is_some,
}
use agent_graph_studio.Mcp.Generated.Settled.{
  IsSettled, generate_node_types_for_connection-IsSettled,
}
use agent_graph_studio.Examples.Graphs.{node}
use agent_graph_studio.Examples.Servers.{config, credentials, server, configure, ann_configured}

abbrev send : McpToolInfo
send = record { name = "send"; param_names = []; param_json_types = []; required_names = [] }

abbrev mail : ConnectionProfile
mail = record { name = "mail"; type = "mcp_server"; config = []; user_id = some "ann" }

abbrev pub shared_mail : ConnectionProfile
shared_mail = record mail { user_id = none }

abbrev pub no_types : NodeTypes
no_types = record { registry = []; generated = []; bindings = [] }

abbrev pub body : String → McpToolInfo → Option String → ExecutionContext → Execution
body name tool owner ctx = raised name

abbrev pub list_tools : McpServerConfig → Option (List McpToolInfo)
list_tools s = some (send ∷ [])

abbrev pub config_of : Dict String Value → Option McpServerConnectionConfig
config_of c = some config

generate_node_types_for_connection-IsSettled_example :
    IsSettled body "mail"
      (some "ann")
      list_tools
      no_types
      (generate_node_types_for_connection body "mail"
        (some "ann")
        list_tools
        config_of
        configure
        (mail ∷ [])
        credentials
        no_types
        none).1
generate_node_types_for_connection-IsSettled_example =
    generate_node_types_for_connection-IsSettled body "mail" (some "ann") list_tools no_types
      config_of configure (mail ∷ []) credentials none

-- A start in which the config of a global connection is not read.
regenerate_all_on_startup-is_some_example :
    is_some (
      regenerate_all_on_startup body list_tools
        (λ c. none)
        configure
        (shared_mail ∷ [])
        (mail ∷ shared_mail ∷ [])
        (credentials, no_types))
    ≡ false
regenerate_all_on_startup-is_some_example =
    regenerate_all_on_startup-is_some body list_tools (λ c. none) configure (shared_mail ∷ [])
      (mail ∷ shared_mail ∷ []) (credentials, no_types)

-- `bob` runs the node of the tool.
abbrev bobs_run : ExecutionContext
bobs_run = record {
  node = node "n" "mcp__u_ann__mail__send";
  inputs = [];
  resources = ("running_user_id", given (text "bob")) ∷ [];
}

abbrev server_in : Configured → Option McpServerConfig
server_in (c, inl s) = some s
server_in (c, inr e) = none

abbrev configured_for : McpServerConnectionConfig → String → Option String → Option McpServerConfig
configured_for c name user = server_in (configure credentials c name user)

abbrev echo_tool : McpServerConfig → String → Dict String Value → Option String
echo_tool s name arguments = get s.headers "Authorization"

-- `ann` runs it herself.
abbrev anns_run : ExecutionContext
anns_run = record bobs_run { resources = ("running_user_id", given (text "ann")) ∷ [] }

-- A test: the call carries the key of `ann`.
key_of_ann : configured_for config "mail" (some "ann") ≡ some server
key_of_ann = ap server_in ann_configured
