-- ===== src/Api/Connections/Manage.antt =====
-- backend/api/app.py: the flag that tells a client who may manage a connection, and the routes' own checks.
use agent_graph_studio.Prelude.{
  if◌then◌else◌, Bool-cases, is_some, ◌==◌, ==_iff, string_eq, String, ◌≡◌, refl, sym, ap, ◌∙◌, ◌⊎◌,
  inl, inr, Bool, true, not, ◌&&◌, Option, none, some, arith, nat_eq, pair_eq, option_eq,
}
use agent_graph_studio.Connections.Store.Deletion.{get_connection-delete_connection}
use agent_graph_studio.Connections.Store.{
  ConnectionProfile, get_connection, resolve_connection_for_user,
}
use agent_graph_studio.Connections.Store.Scope.{resolve_connection_for_user-owner}
use agent_graph_studio.Mcp.Server.{McpServerConnectionConfig, Credentials}
use agent_graph_studio.Api.Connections.State.{
  ConnectionServices, Caller, id_of, may_administer, ConnectionInfo, ConnectionState, forbidden,
  deleted, can_manage_by, server_info, info_with, connection_info,
}
use agent_graph_studio.Api.Connections.Change.{delete_connection_endpoint}

-- A caller's own profile or a global one is managed by the caller exactly if the check of the role passes.
can_manage_by-allowed :
    (caller : Caller) (owner : Option String)
    → (owner ≡ id_of caller) ⊎ (owner ≡ none)
    → (not (is_some owner) && not (may_administer caller)) ≡ not (can_manage_by caller owner)
unfolding can_manage_by
can_manage_by-allowed none none h = refl
can_manage_by-allowed none (some o) (inl h) = absurd (ground arith)
can_manage_by-allowed none (some o) (inr h) = absurd (ground arith)
can_manage_by-allowed (some u) none h = ground arith
can_manage_by-allowed (some u) (some o) (inr h) = absurd (ground arith)
can_manage_by-allowed (some u) (some o) (inl h) =
    ground (arith, (==_iff (some o) (some u.user_id)).1 h)

module _ (w : ConnectionServices) where
  open w use {config_of}

  server_info-can_manage :
      (c : Credentials) (caller : Caller) (p : ConnectionProfile)
      (config : McpServerConnectionConfig) (o : Option Bool) (i : ConnectionInfo)
      → server_info w c caller p config o ≡ some i
      → i.can_manage ≡ can_manage_by caller p.user_id
  server_info-can_manage c caller p config none i h = absurd (ground arith)
  server_info-can_manage c caller p config (some b) i h = ground arith

  info_with-can_manage :
      (c : Credentials) (caller : Caller) (p : ConnectionProfile)
      (o : Option McpServerConnectionConfig) (i : ConnectionInfo)
      → info_with w c caller p o ≡ some i
      → i.can_manage ≡ can_manage_by caller p.user_id
  info_with-can_manage c caller p none i h = absurd (ground arith)
  info_with-can_manage c caller p (some config) i h = server_info-can_manage c caller p config _ i h

  connection_info-can_manage_by :
      (c : Credentials) (caller : Caller) (p : ConnectionProfile) (i : ConnectionInfo)
      → connection_info w c caller p ≡ some i
      → i.can_manage ≡ can_manage_by caller p.user_id
  unfolding connection_info
  connection_info-can_manage_by c caller p i h = elim (Bool-cases (p.type == "mcp_server")) [
    | inl e ↦ info_with-can_manage c caller p (config_of p.config) i (rw e at h)
    | inr e ↦ let k = rw e at h in ground arith
  ]

  module _ (s : ConnectionState) (caller : Caller) (name : String) (p : ConnectionProfile)
      (i : ConnectionInfo)
      (found : resolve_connection_for_user name (id_of caller) s.store ≡ some p)
      (info : connection_info w s.credentials caller p ≡ some i) where
    refused : (not (is_some p.user_id) && not (may_administer caller)) ≡ not i.can_manage
    refused =
        can_manage_by-allowed caller p.user_id
          (resolve_connection_for_user-owner name (id_of caller) s.store p found).1
        ∙ ap not (sym (connection_info-can_manage_by s.credentials caller p i info))

    -- If the connection that a name stands for to a caller is shown as one that the caller may manage, its
    -- deletion is answered so, and takes that connection and no other out of the store; else it is refused,
    -- and changes nothing.
    pub delete_connection_endpoint-can_manage :
        (n : String) (u : Option String)
        → ((delete_connection_endpoint w s caller name).1
            ≡ (if i.can_manage then deleted else forbidden))
          × (get_connection n u (delete_connection_endpoint w s caller name).0.store ≡ (
              if i.can_manage && (n == name && u == p.user_id)
              then none
              else get_connection n u s.store))
          × (((delete_connection_endpoint w s caller name).0 ≡ s) ⊎ (i.can_manage ≡ true))
    unfolding delete_connection_endpoint
    delete_connection_endpoint-can_manage n u = elim (Bool-cases i.can_manage) [
      | inl e ↦
          rw (found, refused, e)
            (refl, get_connection-delete_connection name p.user_id s.store n u, inr refl)
      | inr e ↦ rw (found, refused, e) (refl, refl, inl refl)
    ]
