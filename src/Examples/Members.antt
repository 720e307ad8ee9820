-- ===== src/Examples/Members.antt =====
-- A member at the routes on connections: `bob` and a connection `mail` that is everyone's.
use agent_graph_studio.Prelude.{
  ◌⊎◌, string_eq, String, ◌≡◌, refl, ◌≢◌, true, false, Option, none, some, [], ◌∷◌, arith, nat_eq,
  pair_eq, option_eq,
}
use agent_graph_studio.Connections.Store.{get_connection, resolve_connection_for_user}
use agent_graph_studio.Storage.Table.{select}
use agent_graph_studio.Mcp.ApiKeys.{has_api_key}
use agent_graph_studio.Mcp.Server.{api_key}
use agent_graph_studio.Api.Connections.State.{
  ConnectionServices, User, ConnectionInfo, ConnectionState, deleted, connection_info,
  can_manage_by,
}
use agent_graph_studio.Api.Connections.Change.{delete_connection_endpoint}
use agent_graph_studio.Api.Connections.Manage.{delete_connection_endpoint-can_manage}
use agent_graph_studio.Api.Connections.Routes.{deletes, serve, resolve-serve}
use agent_graph_studio.Examples.Servers.{cipher, configure, credentials}
use agent_graph_studio.Examples.Tools.{config_of, body, list_tools, no_types, shared_mail}

services : ConnectionServices
services = record {
  cipher = cipher;
  models = [];
  config_of = config_of;
  now = "2";
  execute = body;
  list_tools = list_tools;
  server_config = configure;
  discover = λ u. none;
  register_client = λ e b s. none;
  public_base_url = none;
}

abbrev bob : User
bob = record { user_id = "bob"; role = "member" }

abbrev state : ConnectionState
state = record { store = shared_mail ∷ []; credentials = credentials; types = no_types }

abbrev adas_info : ConnectionInfo
adas_info = record {
  name = "mail";
  type = "mcp_server";
  requires_oauth = false;
  oauth_connected = false;
  is_global = true;
  can_manage = true;
  credential_type = none;
  auth_type = api_key;
  api_key_connected = false;
}

abbrev ada : User
ada = record { user_id = "ada"; role = "admin" }

ada_sees : resolve_connection_for_user "mail" (some "ada") (shared_mail ∷ []) ≡ some shared_mail
unfolding resolve_connection_for_user get_connection
ada_sees = refl

ada_informed : connection_info services credentials (some ada) shared_mail ≡ some adas_info
unfolding services connection_info can_manage_by has_api_key select
ada_informed = refl

delete_connection_endpoint-can_manage_example :
    ((delete_connection_endpoint services state (some ada) "mail").1 ≡ deleted)
    × (get_connection "mail" none
          (delete_connection_endpoint services state (some ada) "mail").0.store
        ≡ none)
    × (((delete_connection_endpoint services state (some ada) "mail").0 ≡ state)
        ⊎ (adas_info.can_manage ≡ true))
delete_connection_endpoint-can_manage_example =
    delete_connection_endpoint-can_manage services state (some ada) "mail" shared_mail adas_info
      ada_sees ada_informed "mail" none

abbrev at_large : Option String
at_large = none

bob_other : some "bob" ≢ at_large
bob_other h = absurd (ground arith)

resolve-serve_example :
    resolve_connection_for_user "mail" at_large
      (serve services state (some bob) (deletes "mail")).0.store
    ≡ resolve_connection_for_user "mail" at_large (shared_mail ∷ [])
resolve-serve_example =
    resolve-serve services bob at_large state (deletes "mail") "mail" refl bob_other
