-- ===== src/Api/Connections/Create.antt =====
-- backend/api/app.py: `create_connection`, with the probe of a remote server. The discovery of its
-- authorization server, the registration of a client and the public address are parameters.
pub mod Scope
use agent_graph_studio.Prelude.{
  if◌then◌else◌, ◌==◌, string_eq, String, inl, inr, Bool, true, false, not, ◌&&◌, Option, none,
  some, List, nat_eq, pair_eq, option_eq,
}
use agent_graph_studio.Prelude.Dict.{Dict, get, put}
use agent_graph_studio.Schema.Value.{Value, bool, text, null}
use agent_graph_studio.Connections.Store.{
  ConnectionProfile, Change, keep, write, duplicate, after, add_connection, delete_connection,
  update_connection_config,
}
use agent_graph_studio.Mcp.Server.{
  McpServerConnectionConfig, transport_config, Transport, stdio, remote, is_oauth2,
}
use agent_graph_studio.Mcp.Generated.{McpToolInfo}
use agent_graph_studio.Api.Connections.State.{
  ConnectionServices, Caller, id_of, may_administer, ConnectionState, ConnectionReply, forbidden,
  conflict, unprocessable, bad_gateway, crashed, Served, Made, show, generate,
}
use agent_graph_studio.Api.Connections.Change.{show_updated}

pub record CreateConnectionRequest : Type 0 where
  pub name : String
  pub type : String
  pub config : Dict String Value
  -- `scope == "global"`
  pub is_global : Bool

abbrev pub is_remote : Transport → Bool
is_remote stdio = false
is_remote remote = true

abbrev text_or_null : Option String → Value
text_or_null none = null
text_or_null (some s) = text s

-- The config with the client that was registered for it.
abbrev pub with_client : Dict String Value → String → Option String → Dict String Value
with_client config client_id client_secret =
    put (put (put config "requires_oauth" (bool true)) "oauth_client_id" (text client_id))
      "oauth_client_secret" (text_or_null client_secret)

module _ (w : ConnectionServices) where
  open w use {models, config_of, list_tools, discover, register_client, public_base_url}

  -- The connection that was added is deleted again.
  abbrev pub undone : ConnectionState → String → Option String → ConnectionReply → Served
  undone s name owner reply =
      (record s { store = after s.store (delete_connection name owner s.store) }, reply)

  abbrev pub client_kept :
      ConnectionState → Caller → Option String → ConnectionProfile → String → Option String → Served
  client_kept s caller owner p client_id client_secret =
      show_updated w s caller (
        update_connection_config p.name owner (with_client p.config client_id client_secret)
          s.store)

  abbrev pub client_registered :
      ConnectionState
      → Caller
      → Option String
      → ConnectionProfile
      → Option (String × Option String)
      → Served
  client_registered s caller owner p none = undone s p.name owner bad_gateway
  client_registered s caller owner p (some (client_id, secret)) =
      client_kept s caller owner p client_id secret

  abbrev pub registering :
      ConnectionState
      → Caller
      → Option String
      → ConnectionProfile
      → McpServerConnectionConfig
      → Option String
      → Option String
      → Served
  registering s caller owner p config none base = undone s p.name owner unprocessable
  registering s caller owner p config (some endpoint) none = undone s p.name owner unprocessable
  registering s caller owner p config (some endpoint) (some base) =
      client_registered s caller owner p (register_client endpoint base config.oauth_scope)

  -- The server requires OAuth, and may register clients at an endpoint.
  abbrev pub with_oauth :
      ConnectionState
      → Caller
      → Option String
      → ConnectionProfile
      → McpServerConnectionConfig
      → Option String
      → Option String
      → Served
  with_oauth s caller owner p config endpoint (some client_id) =
      client_kept s caller owner p client_id config.oauth_client_secret
  with_oauth s caller owner p config endpoint none =
      registering s caller owner p config endpoint public_base_url

  abbrev pub show_made : Caller → Option String → ConnectionProfile → Made → Served
  show_made caller owner p (s, inl ts) = show w s caller p
  show_made caller owner p (s, inr e) = undone s p.name owner bad_gateway

  abbrev pub listing : ConnectionState → Caller → Option String → ConnectionProfile → Served
  listing s caller owner p = show_made caller owner p (generate w s p.name owner none)

  abbrev pub after_discovery :
      ConnectionState
      → Caller
      → Option String
      → ConnectionProfile
      → McpServerConnectionConfig
      → Option (Option String)
      → Served
  after_discovery s caller owner p config none = listing s caller owner p
  after_discovery s caller owner p config (some endpoint) =
      with_oauth s caller owner p config endpoint config.oauth_client_id

  -- An unauthenticated listing of the tools comes before any discovery.
  abbrev pub probed :
      ConnectionState
      → Caller
      → Option String
      → ConnectionProfile
      → McpServerConnectionConfig
      → Option (List McpToolInfo)
      → Served
  probed s caller owner p config (some tools) = listing s caller owner p
  probed s caller owner p config none =
      after_discovery s caller owner p config (discover config.url)

  abbrev pub server_added :
      ConnectionState
      → Caller
      → Option String
      → ConnectionProfile
      → Option McpServerConnectionConfig
      → Served
  server_added s caller owner p none = (s, crashed)
  server_added s caller owner p (some config) =
      if not (is_oauth2 config.auth_type)
      then show w s caller p
      else if is_remote config.transport && not config.requires_oauth
      then probed s caller owner p config (list_tools (transport_config config))
      else listing s caller owner p

  abbrev pub added : ConnectionState → Caller → Option String → Change ConnectionProfile → Served
  added s caller owner (keep p) = (s, crashed)
  added s caller owner (duplicate name) = (s, conflict)
  added s caller owner (write ps p) =
      let s' = record s { store = ps } in
      if p.type == "mcp_server"
      then server_added s' caller owner p (config_of p.config)
      else show w s' caller p

  abbrev pub scope_of : Bool → Caller → Option String
  scope_of true caller = none
  scope_of false caller = id_of caller

  abbrev pub create_checked :
      ConnectionState
      → Caller
      → CreateConnectionRequest
      → Option (Dict String Value → Bool)
      → Served
  create_checked s caller r none = (s, unprocessable)
  create_checked s caller r (some accepts) =
      if not (accepts r.config)
      then (s, unprocessable)
      else if r.is_global && not (may_administer caller)
      then (s, forbidden)
      else added s caller (scope_of r.is_global caller)
          (add_connection r.name r.type r.config (scope_of r.is_global caller) s.store)

  unfoldable pub create_connection : ConnectionState → Caller → CreateConnectionRequest → Served
  create_connection s caller r = create_checked s caller r (get models r.type)
