-- ===== src/Api/Connections/Discovery.antt =====
-- backend/api/app.py: the routes after which a server's tools are listed anew.
use agent_graph_studio.Prelude.{
  if◌then◌else◌, ◌==◌, string_eq, String, inl, inr, Bool, true, false, Option, none, some, nat_eq,
  pair_eq, option_eq,
}
use agent_graph_studio.Connections.Store.{
  ConnectionProfile, get_connection, resolve_connection_for_user,
}
use agent_graph_studio.Mcp.ApiKeys.{save_api_key, has_api_key, delete_api_key}
use agent_graph_studio.Mcp.Tokens.{get_token}
use agent_graph_studio.Mcp.Server.{McpServerConnectionConfig, is_oauth2, Credentials}
use agent_graph_studio.Api.Connections.State.{
  Caller, ConnectionServices, ConnectionState, Made, Served, User, bad_gateway, conflict, crashed,
  forbidden, generate, id_of, is_stored, may_administer, refreshed_types, show, unauthenticated,
  unknown, unprocessable,
}

module _ (w : ConnectionServices) where
  open w use {cipher, config_of, now}

  abbrev pub after_refresh : Made → Served
  after_refresh (s, inl ts) = (s, refreshed_types ts)
  after_refresh (s, inr e) = (s, bad_gateway)

  abbrev pub refresh_found : ConnectionState → Caller → String → Option ConnectionProfile → Served
  refresh_found s caller name none = (s, unknown)
  refresh_found s caller name (some p) =
      if p.type == "mcp_server"
      then after_refresh (generate w s name p.user_id (id_of caller))
      else (s, unprocessable)

  unfoldable pub refresh_capabilities : ConnectionState → Caller → String → Served
  unfolding generate
  refresh_capabilities s caller name =
      refresh_found s caller name (resolve_connection_for_user name (id_of caller) s.store)

  -- A key whose tools cannot be listed is deleted again.
  abbrev pub after_key : User → ConnectionProfile → String → Made → Served
  after_key u p name (s, inl ts) = show w s (some u) p
  after_key u p name (s, inr e) = (
    record s {
      credentials = record s.credentials {
        api_keys = (delete_api_key s.credentials.api_keys u.user_id name).0;
      };
    },
    bad_gateway,
  )

  abbrev pub save_key : ConnectionState → User → String → String → ConnectionState
  save_key s u name key = record s {
    credentials = record s.credentials {
      api_keys = save_api_key cipher s.credentials.api_keys u.user_id name key now;
    };
  }

  abbrev pub key_configured :
      ConnectionState
      → User
      → String
      → String
      → ConnectionProfile
      → Option McpServerConnectionConfig
      → Served
  key_configured s u name key p none = (s, crashed)
  key_configured s u name key p (some config) =
      if is_oauth2 config.auth_type
      then (s, unprocessable)
      else after_key u p name (generate w (save_key s u name key) name p.user_id (some u.user_id))

  abbrev pub key_found :
      ConnectionState → User → String → String → Option ConnectionProfile → Served
  key_found s u name key none = (s, unknown)
  key_found s u name key (some p) =
      if p.type == "mcp_server"
      then key_configured s u name key p (config_of p.config)
      else (s, unprocessable)

  unfoldable pub set_connection_api_key : ConnectionState → Caller → String → String → Served
  unfolding generate
  set_connection_api_key s none name key = (s, unauthenticated)
  set_connection_api_key s (some u) name key =
      key_found s u name key (resolve_connection_for_user name (some u.user_id) s.store)

  -- Whether the administrator has a credential where the server needs one; `none` is an error.
  abbrev pub has_credential : Credentials → User → String → McpServerConnectionConfig → Option Bool
  has_credential c u name config =
      if is_oauth2 config.auth_type
      then (if config.requires_oauth
          then is_stored (get_token cipher c.tokens u.user_id name)
          else some true)
      else some (has_api_key c.api_keys u.user_id name)

  abbrev pub bootstrap_with :
      ConnectionState → User → String → ConnectionProfile → Option Bool → Served
  bootstrap_with s u name p none = (s, crashed)
  bootstrap_with s u name p (some false) = (s, conflict)
  bootstrap_with s u name p (some true) =
      after_refresh (generate w s name p.user_id (some u.user_id))

  abbrev pub bootstrap_configured :
      ConnectionState
      → User
      → String
      → ConnectionProfile
      → Option McpServerConnectionConfig
      → Served
  bootstrap_configured s u name p none = (s, crashed)
  bootstrap_configured s u name p (some config) =
      bootstrap_with s u name p (has_credential s.credentials u name config)

  abbrev pub bootstrap_found : ConnectionState → User → String → Option ConnectionProfile → Served
  bootstrap_found s u name none = (s, unknown)
  bootstrap_found s u name (some p) =
      if p.type == "mcp_server"
      then bootstrap_configured s u name p (config_of p.config)
      else (s, unprocessable)

  unfoldable pub bootstrap_catalog_connection : ConnectionState → Caller → String → Served
  unfolding generate
  bootstrap_catalog_connection s none name = (s, unauthenticated)
  bootstrap_catalog_connection s (some u) name =
      if may_administer (some u)
      then bootstrap_found s u name (get_connection name none s.store)
      else (s, forbidden)
