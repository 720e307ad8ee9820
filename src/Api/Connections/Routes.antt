-- ===== src/Api/Connections/Routes.antt =====
-- backend/api/app.py: the routes on connections together, and whom they reach.
use agent_graph_studio.Prelude.{
  ◌==◌, string_eq, String, ◌≡◌, refl, ◌≢◌, false, Option, some, List, nat_eq, pair_eq, option_eq,
}
use agent_graph_studio.Prelude.Dict.{Dict, get}
use agent_graph_studio.Schema.Value.{Value}
use agent_graph_studio.Connections.Store.{ConnectionProfile, resolve_connection_for_user}
use agent_graph_studio.Api.Connections.State.{
  ConnectionServices, User, Caller, ConnectionState, Served,
}
use agent_graph_studio.Api.Connections.Change.{
  delete_connection_endpoint, update_connection_endpoint, promote_connection_to_global,
}
use agent_graph_studio.Api.Connections.Discovery.{
  refresh_capabilities, set_connection_api_key, bootstrap_catalog_connection,
}
use agent_graph_studio.Api.Connections.Create.{CreateConnectionRequest, create_connection}
use agent_graph_studio.Api.Connections.Scope.{
  Same, delete_found-Same, update_allowed-Same, refresh_found-Same, key_found-Same,
}
use agent_graph_studio.Api.Connections.Create.Scope.{create_checked-Same}

-- The routes that change a connection or what belongs to it.
pub data Route : Type 0 where
  creates : CreateConnectionRequest → Route
  deletes promotes refreshes bootstraps : String → Route
  updates : String → Dict String Value → Route
  sets_key : String → String → Route

module _ (w : ConnectionServices) where
  open w use {models}

  unfoldable pub serve : ConnectionState → Caller → Route → Served
  serve s caller (creates r) = create_connection w s caller r
  serve s caller (deletes name) = delete_connection_endpoint w s caller name
  serve s caller (promotes name) = promote_connection_to_global w s caller name
  serve s caller (refreshes name) = refresh_capabilities w s caller name
  serve s caller (bootstraps name) = bootstrap_catalog_connection w s caller name
  serve s caller (updates name config) = update_connection_endpoint w s caller name config
  serve s caller (sets_key name key) = set_connection_api_key w s caller name key

  module _ (u : User) (member : (u.role == "admin") ≡ false) (v : Option String)
      (other : some u.user_id ≢ v) (base : List ConnectionProfile) where
    serve-Same :
        (s : ConnectionState) (route : Route)
        → Same w u member v other base s.store
        → Same w u member v other base (serve s (some u) route).0.store
    unfolding serve create_connection delete_connection_endpoint update_connection_endpoint
        promote_connection_to_global refresh_capabilities set_connection_api_key
        bootstrap_catalog_connection resolve_connection_for_user
    serve-Same s (creates r) h =
        create_checked-Same w u member v other base s r (get models r.type) h
    serve-Same s (deletes name) h = delete_found-Same w u member v other base s name _ refl h
    serve-Same s (promotes name) h = rw member h
    serve-Same s (refreshes name) h =
        refresh_found-Same w u member v other base s name
          (resolve_connection_for_user name (some u.user_id) s.store) h
    serve-Same s (bootstraps name) h = rw member h
    serve-Same s (updates name config) h =
        update_allowed-Same w u member v other base s name config _ refl h
    serve-Same s (sets_key name key) h =
        key_found-Same w u member v other base s name key
          (resolve_connection_for_user name (some u.user_id) s.store) h

  -- Whatever a signed-in user who is no administrator asks of the routes, every name stands for the same
  -- connection as before to every other user and to a caller with the shared key.
  pub resolve-serve :
      (u : User) (v : Option String) (s : ConnectionState) (route : Route) (n : String)
      → (u.role == "admin") ≡ false
      → some u.user_id ≢ v
      → resolve_connection_for_user n v (serve s (some u) route).0.store
        ≡ resolve_connection_for_user n v s.store
  resolve-serve u v s route n member other =
      serve-Same u member v other s.store s route (λ m. refl) n
