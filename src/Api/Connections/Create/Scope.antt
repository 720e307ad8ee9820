-- ===== src/Api/Connections/Create/Scope.antt =====
-- backend/api/app.py: what the creation of a user's connection leaves of the connections of all others.
use agent_graph_studio.Prelude.{
  Bool-cases, ◌==◌, string_eq, String, ◌≡◌, refl, ◌≢◌, inl, inr, Bool, false, not, ◌&&◌, Option,
  none, some, List, nat_eq, pair_eq, option_eq,
}
use agent_graph_studio.Prelude.Dict.{Dict}
use agent_graph_studio.Schema.Value.{Value}
use agent_graph_studio.Connections.Store.{
  ConnectionProfile, Change, keep, write, duplicate, after, add_connection,
}
use agent_graph_studio.Connections.Store.Scope.{add, perform_own}
use agent_graph_studio.Mcp.Server.{McpServerConnectionConfig, transport_config, is_oauth2}
use agent_graph_studio.Mcp.Generated.{McpToolInfo}
use agent_graph_studio.Api.Connections.State.{
  ConnectionServices, User, ConnectionState, Made, generate,
}
use agent_graph_studio.Api.Connections.Create.{
  CreateConnectionRequest, is_remote, client_registered, registering, with_oauth, show_made,
  listing, after_discovery, probed, server_added, added, create_checked,
}
use agent_graph_studio.Api.Connections.Scope.{
  Same, Same-perform_own, delete-Same, update-Same, generate-Same,
}

module _ (w : ConnectionServices) where
  open w use {config_of, list_tools, discover, public_base_url}

  module _ (u : User) (member : (u.role == "admin") ≡ false) (v : Option String)
      (other : some u.user_id ≢ v) (base : List ConnectionProfile) where
    module _ (owner : Option String) (mine : owner ≡ some u.user_id) (p : ConnectionProfile) where
      client_registered-Same :
          (s : ConnectionState) (o : Option (String × Option String))
          → Same w u member v other base s.store
          → Same w u member v other base (client_registered w s (some u) owner p o).0.store
      client_registered-Same s none h =
          delete-Same w u member v other base p.name owner s.store mine h
      client_registered-Same s (some (client_id, secret)) h =
          update-Same w u member v other base s p.name owner _ mine h

      registering-Same :
          (s : ConnectionState) (config : McpServerConnectionConfig) (o b : Option String)
          → Same w u member v other base s.store
          → Same w u member v other base (registering w s (some u) owner p config o b).0.store
      registering-Same s config none b h =
          delete-Same w u member v other base p.name owner s.store mine h
      registering-Same s config (some endpoint) none h =
          delete-Same w u member v other base p.name owner s.store mine h
      registering-Same s config (some endpoint) (some b) h = client_registered-Same s _ h

      with_oauth-Same :
          (s : ConnectionState) (config : McpServerConnectionConfig) (endpoint o : Option String)
          → Same w u member v other base s.store
          → Same w u member v other base (with_oauth w s (some u) owner p config endpoint o).0.store
      with_oauth-Same s config endpoint none h =
          registering-Same s config endpoint public_base_url h
      with_oauth-Same s config endpoint (some client_id) h =
          update-Same w u member v other base s p.name owner _ mine h

      show_made-Same :
          (m : Made)
          → Same w u member v other base m.0.store
          → Same w u member v other base (show_made w (some u) owner p m).0.store
      show_made-Same (s, inl ts) h = h
      show_made-Same (s, inr e) h = delete-Same w u member v other base p.name owner s.store mine h

      listing-Same :
          (s : ConnectionState)
          → Same w u member v other base s.store
          → Same w u member v other base (listing w s (some u) owner p).0.store
      listing-Same s h =
          show_made-Same (generate w s p.name owner none)
            (generate-Same w u member v other base s p.name owner none h)

      after_discovery-Same :
          (s : ConnectionState) (config : McpServerConnectionConfig) (o : Option (Option String))
          → Same w u member v other base s.store
          → Same w u member v other base (after_discovery w s (some u) owner p config o).0.store
      after_discovery-Same s config none h = listing-Same s h
      after_discovery-Same s config (some endpoint) h = with_oauth-Same s config endpoint _ h

      probed-Same :
          (s : ConnectionState) (config : McpServerConnectionConfig) (o : Option (List McpToolInfo))
          → Same w u member v other base s.store
          → Same w u member v other base (probed w s (some u) owner p config o).0.store
      probed-Same s config none h = after_discovery-Same s config (discover config.url) h
      probed-Same s config (some tools) h = listing-Same s h

      server_added-Same :
          (s : ConnectionState) (o : Option McpServerConnectionConfig)
          → Same w u member v other base s.store
          → Same w u member v other base (server_added w s (some u) owner p o).0.store
      server_added-Same s none h = h
      server_added-Same s (some config) h = elim (Bool-cases (is_oauth2 config.auth_type)) [
        | inr e ↦ rw e h
        | inl e ↦ elim (Bool-cases (is_remote config.transport && not config.requires_oauth)) [
          | inl r ↦ rw (e, r) (probed-Same s config (list_tools (transport_config config)) h)
          | inr r ↦ rw (e, r) (listing-Same s h)
        ]
      ]

    added-Same :
        (s : ConnectionState) (c : Change ConnectionProfile)
        → Same w u member v other base s.store
        → Same w u member v other base (after s.store c)
        → Same w u member v other base (added w s (some u) (some u.user_id) c).0.store
    added-Same s (keep p) h k = h
    added-Same s (duplicate name) h k = h
    added-Same s (write ps p) h k = elim (Bool-cases (p.type == "mcp_server")) [
      | inl e ↦ rw e (
          server_added-Same (some u.user_id) refl p (record s { store = ps }) (config_of p.config)
            k)
      | inr e ↦ rw e k
    ]

    pub create_checked-Same :
        (s : ConnectionState) (r : CreateConnectionRequest) (o : Option (Dict String Value → Bool))
        → Same w u member v other base s.store
        → Same w u member v other base (create_checked w s (some u) r o).0.store
    create_checked-Same s r none h = h
    create_checked-Same s r (some accepts) h = elim (Bool-cases (accepts r.config)) [
      | inr a ↦ rw a h
      | inl a ↦ elim (Bool-cases r.is_global) [
        | inl g ↦ rw (a, g, member) h
        | inr g ↦
            rw (a, g)
              (added-Same s (add_connection r.name r.type r.config (some u.user_id) s.store) h (
                unfold perform_own in
                Same-perform_own w u member v other base (add r.name r.type r.config) s.store h))
      ]
    ]
