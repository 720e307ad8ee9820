-- ===== src/Api/Connections/Change.antt =====
-- backend/api/app.py: the routes that delete, update and promote a connection.
use agent_graph_studio.Prelude.{
  if◌then◌else◌, is_some, ◌==◌, string_eq, String, inl, inr, Bool, not, ◌&&◌, Option, none, some,
  nat_eq, pair_eq, option_eq,
}
use agent_graph_studio.Prelude.Dict.{Dict, get}
use agent_graph_studio.Schema.Value.{Value}
use agent_graph_studio.Connections.Store.{
  ConnectionProfile, Change, keep, write, duplicate, after, get_connection, own_or,
  resolve_connection_for_user, delete_connection, update_connection_config, set_connection_owner,
}
use agent_graph_studio.Mcp.Tokens.{delete_token}
use agent_graph_studio.Mcp.Server.{Credentials}
use agent_graph_studio.Mcp.Generated.{unregister_for_connection}
use agent_graph_studio.Api.Connections.State.{
  Caller, ConnectionServices, ConnectionState, Made, Served, bad_gateway, conflict, crashed,
  deleted, forbidden, generate, id_of, may_administer, show, unknown, unprocessable,
}

module _ (w : ConnectionServices) where
  open w use {models}

  -- The connection is deleted in the scope that it was found in, with its node types and, if it is private,
  -- the owner's token.
  abbrev pub forget_token : Credentials → ConnectionProfile → String → Option String → Credentials
  forget_token c p name none = c
  forget_token c p name (some owner) =
      if p.type == "mcp_server"
      then record c { tokens = (delete_token c.tokens owner name).0 }
      else c

  abbrev pub delete_found : ConnectionState → Caller → String → Option ConnectionProfile → Served
  delete_found s caller name none = (s, unknown)
  delete_found s caller name (some p) =
      if not (is_some p.user_id) && not (may_administer caller) then (s, forbidden) else (
        record {
          store = after s.store (delete_connection name p.user_id s.store);
          credentials = forget_token s.credentials p name p.user_id;
          types = unregister_for_connection s.types name p.user_id;
        },
        deleted,
      )

  unfoldable pub delete_connection_endpoint : ConnectionState → Caller → String → Served
  delete_connection_endpoint s caller name =
      delete_found s caller name (resolve_connection_for_user name (id_of caller) s.store)

  abbrev pub show_updated : ConnectionState → Caller → Change (Option ConnectionProfile) → Served
  show_updated s caller (keep o) = (s, crashed)
  show_updated s caller (write ps none) = (record s { store = ps }, crashed)
  show_updated s caller (write ps (some p)) = show w (record s { store = ps }) caller p
  show_updated s caller (duplicate name) = (s, crashed)

  abbrev pub update_checked :
      ConnectionState
      → Caller
      → String
      → Dict String Value
      → ConnectionProfile
      → Option (Dict String Value → Bool)
      → Served
  update_checked s caller name config p none = (s, unprocessable)
  update_checked s caller name config p (some accepts) =
      if accepts config
      then show_updated s caller (update_connection_config name p.user_id config s.store)
      else (s, unprocessable)

  abbrev pub update_allowed :
      ConnectionState → Caller → String → Dict String Value → Option ConnectionProfile → Served
  update_allowed s caller name config none = (s, unknown)
  update_allowed s caller name config (some p) =
      if not (is_some p.user_id) && not (may_administer caller)
      then (s, forbidden)
      else update_checked s caller name config p (get models p.type)

  unfoldable pub update_connection_endpoint :
      ConnectionState → Caller → String → Dict String Value → Served
  update_connection_endpoint s caller name config =
      update_allowed s caller name config
        (own_or (get_connection name (id_of caller) s.store) (get_connection name none s.store))

  abbrev pub show_promoted : Caller → ConnectionProfile → Made → Served
  show_promoted caller p (s, inl ts) = show w s caller p
  show_promoted caller p (s, inr e) = (s, bad_gateway)

  abbrev pub promoted :
      ConnectionState → Caller → String → Change (Option ConnectionProfile) → Served
  promoted s caller name (keep o) = (s, conflict)
  promoted s caller name (duplicate n) = (s, conflict)
  promoted s caller name (write ps none) = (record s { store = ps }, conflict)
  promoted s caller name (write ps (some p)) =
      let s' = record s { store = ps } in
      if p.type == "mcp_server"
      then show_promoted caller p (generate w s' name none (id_of caller))
      else show w s' caller p

  abbrev pub promote_found : ConnectionState → Caller → String → Option ConnectionProfile → Served
  promote_found s caller name none = (s, unknown)
  promote_found s caller name (some p) =
      promoted s caller name (set_connection_owner name (id_of caller) none s.store)

  unfoldable pub promote_connection_to_global : ConnectionState → Caller → String → Served
  unfolding generate
  promote_connection_to_global s caller name =
      if may_administer caller
      then promote_found s caller name (get_connection name (id_of caller) s.store)
      else (s, forbidden)
