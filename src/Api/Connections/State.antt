-- ===== src/Api/Connections/State.antt =====
-- backend/api/app.py: what the routes on connections change and answer, and what a caller is shown of a
-- connection. What the process is configured with and what it calls are the record `ConnectionServices`.
use agent_graph_studio.Prelude.{
  if◌then◌else◌, is_some, ◌==◌, string_eq, String, ◌⊎◌, Bool, true, false, not, ◌&&◌, ◌||◌, Option,
  none, some, List, nat_eq, pair_eq, option_eq,
}
use agent_graph_studio.Prelude.Dict.{Dict}
use agent_graph_studio.Schema.Value.{Value}
use agent_graph_studio.Execution.Trace.{ExecutionContext, Execution}
use agent_graph_studio.Connections.Store.{ConnectionProfile}
use agent_graph_studio.Mcp.Secrets.{Cipher, Stored, missing, undecryptable, stored}
use agent_graph_studio.Mcp.ApiKeys.{has_api_key}
use agent_graph_studio.Mcp.Tokens.{get_token}
use agent_graph_studio.Mcp.Server.{
  McpServerConnectionConfig, McpServerConfig, is_oauth2, AuthType, oauth2, Credentials, Configured,
}
use agent_graph_studio.Mcp.Generated.{
  McpToolInfo, NodeTypes, GenerationError, generate_node_types_for_connection,
}

-- The models of the connection types, the reading of a server's config, the body of a generated node, the
-- listing of a server's tools, its configuration with a user's credential, the discovery of its
-- authorization server, the registration of a client there, and the public address.
pub record ConnectionServices : Type 0 where
  pub cipher : Cipher
  pub models : Dict String (Dict String Value → Bool)
  pub config_of : Dict String Value → Option McpServerConnectionConfig
  pub now : String
  pub execute : String → McpToolInfo → Option String → ExecutionContext → Execution
  pub list_tools : McpServerConfig → Option (List McpToolInfo)
  pub server_config : Credentials → McpServerConnectionConfig → String → Option String → Configured
  pub discover : String → Option (Option String)
  pub register_client : String → String → Option String → Option (String × Option String)
  pub public_base_url : Option String

-- A signed-in user; a caller with the shared key is none.
pub record User : Type 0 where
  pub user_id : String
  pub role : String

abbrev pub Caller : Type 0
Caller = Option User

abbrev pub id_of : Caller → Option String
id_of none = none
id_of (some u) = some u.user_id

-- `_require_admin`; false is the 403.
abbrev pub may_administer : Caller → Bool
may_administer none = true
may_administer (some u) = u.role == "admin"

-- `caller_role == "admin"`
abbrev pub is_admin : Caller → Bool
is_admin none = false
is_admin (some u) = u.role == "admin"

pub record ConnectionInfo : Type 0 where
  pub name : String
  pub type : String
  pub requires_oauth : Bool
  pub oauth_connected : Bool
  pub is_global : Bool
  pub can_manage : Bool
  pub credential_type : Option String
  pub auth_type : AuthType
  pub api_key_connected : Bool

-- What the routes change.
pub record ConnectionState : Type 0 where
  pub store : List ConnectionProfile
  pub credentials : Credentials
  pub types : NodeTypes

-- The statuses 401, 403, 404, 409, 422, 502 and 500, and the answers.
pub data ConnectionReply : Type 0 where
  unauthenticated forbidden unknown conflict unprocessable bad_gateway crashed deleted :
      ConnectionReply
  shown : ConnectionInfo → ConnectionReply
  refreshed_types : List String → ConnectionReply

abbrev pub Served : Type 0
Served = ConnectionState × ConnectionReply

abbrev pub Made : Type 0
Made = ConnectionState × (List String ⊎ GenerationError)

unfoldable pub can_manage_by : Caller → Option String → Bool
can_manage_by caller owner = owner == id_of caller || not (is_some owner) && is_admin caller

abbrev pub or_crashed : Option ConnectionInfo → ConnectionReply
or_crashed none = crashed
or_crashed (some i) = shown i

-- `is not None` of a stored token; `none` is the error of a secret that is not decrypted
abbrev pub is_stored {ℓ} : {A : Type ℓ} → Stored A → Option Bool
is_stored missing = some false
is_stored undecryptable = none
is_stored (stored a) = some true

module _ (w : ConnectionServices) where
  open w use {cipher, config_of, execute, list_tools, server_config}

  -- `requires_oauth and caller_user_id is not None and …`; `none` is the error
  abbrev pub has_token : Credentials → Caller → String → Bool → Option Bool
  has_token c none name needed = some false
  has_token c (some u) name needed =
      if needed then is_stored (get_token cipher c.tokens u.user_id name) else some false

  abbrev pub has_key : Credentials → Caller → String → AuthType → Bool
  has_key c none name auth = false
  has_key c (some u) name auth = not (is_oauth2 auth) && has_api_key c.api_keys u.user_id name

  abbrev pub plain_info : Caller → ConnectionProfile → ConnectionInfo
  plain_info caller p = record {
    name = p.name;
    type = p.type;
    requires_oauth = false;
    oauth_connected = false;
    is_global = not (is_some p.user_id);
    can_manage = can_manage_by caller p.user_id;
    credential_type = none;
    auth_type = oauth2;
    api_key_connected = false;
  }

  abbrev pub server_info :
      Credentials
      → Caller
      → ConnectionProfile
      → McpServerConnectionConfig
      → Option Bool
      → Option ConnectionInfo
  server_info c caller p config none = none
  server_info c caller p config (some connected) = some (record (plain_info caller p) {
    requires_oauth = config.requires_oauth;
    oauth_connected = connected;
    credential_type = config.credential_type;
    auth_type = config.auth_type;
    api_key_connected = has_key c caller p.name config.auth_type;
  })

  abbrev pub info_with :
      Credentials
      → Caller
      → ConnectionProfile
      → Option McpServerConnectionConfig
      → Option ConnectionInfo
  info_with c caller p none = none
  info_with c caller p (some config) =
      server_info c caller p config (has_token c caller p.name config.requires_oauth)

  -- `none` is an exception that is raised in it.
  unfoldable pub connection_info : Credentials → Caller → ConnectionProfile → Option ConnectionInfo
  connection_info c caller p =
      if p.type == "mcp_server"
      then info_with c caller p (config_of p.config)
      else some (plain_info caller p)

  abbrev pub show : ConnectionState → Caller → ConnectionProfile → Served
  show s caller p = (s, or_crashed (connection_info s.credentials caller p))

  -- A call of `generate_node_types_for_connection` on the state.
  unfoldable pub generate : ConnectionState → String → Option String → Option String → Made
  generate s name owner user =
      let (c, (types, result)) =
        generate_node_types_for_connection execute name owner list_tools config_of server_config
          s.store s.credentials s.types user in
      (record s { credentials = c; types = types }, result)
