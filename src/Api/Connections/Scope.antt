-- ===== src/Api/Connections/Scope.antt =====
-- backend/api/app.py: what the routes of one user leave of the connections of all others.
use agent_graph_studio.Prelude.{
  Bool-cases, is_some, ◌==◌, string_eq, String, ◌≡◌, ◌∙◌, ◌≢◌, inl, inr, Bool, false, not, ◌&&◌,
  Option, none, some, List, arith, nat_eq, pair_eq, option_eq,
}
use agent_graph_studio.Prelude.Dict.{Dict, get}
use agent_graph_studio.Schema.Value.{Value}
use agent_graph_studio.Connections.Store.{
  ConnectionProfile, Change, keep, write, duplicate, after, resolve_connection_for_user,
  delete_connection, update_connection_config,
}
use agent_graph_studio.Connections.Store.Scope.{
  OwnOperation, delete, update_config, perform_own, resolve-perform_own,
  resolve_connection_for_user-owner,
}
use agent_graph_studio.Mcp.Server.{McpServerConnectionConfig, is_oauth2}
use agent_graph_studio.Api.Connections.State.{
  ConnectionServices, User, may_administer, ConnectionState, Made, generate,
}
use agent_graph_studio.Api.Connections.Change.{
  show_updated, delete_found, update_checked, update_allowed,
}
use agent_graph_studio.Api.Connections.Discovery.{
  after_refresh, refresh_found, after_key, save_key, key_configured, key_found,
}

module _ (w : ConnectionServices) where
  open w use {models, config_of}

  module _ (u : User) (member : (u.role == "admin") ≡ false) (v : Option String)
      (other : some u.user_id ≢ v) (base : List ConnectionProfile) where
    -- Every name stands for the same as at first.
    abbrev pub Same : List ConnectionProfile → Type 0
    Same cs =
        (n : String) → resolve_connection_for_user n v cs ≡ resolve_connection_for_user n v base

    pub Same-perform_own :
        (o : OwnOperation) (cs : List ConnectionProfile)
        → Same cs
        → Same (perform_own (some u.user_id) o cs)
    Same-perform_own o cs h n = resolve-perform_own u.user_id v cs o n other ∙ h n

    -- A profile that the member gets past the check of the role is the member's own.
    own_profile :
        (name : String) (cs : List ConnectionProfile) (p : ConnectionProfile)
        → resolve_connection_for_user name (some u.user_id) cs ≡ some p
        → (not (is_some p.user_id) && not (may_administer (some u))) ≡ false
        → p.user_id ≡ some u.user_id
    own_profile name cs p h k =
        elim (resolve_connection_for_user-owner name (some u.user_id) cs p h).1 [
          | inl own ↦ own
          | inr global ↦ absurd (ground arith)
        ]

    pub delete-Same :
        (name : String) (owner : Option String) (cs : List ConnectionProfile)
        → owner ≡ some u.user_id
        → Same cs
        → Same (after cs (delete_connection name owner cs))
    delete-Same name owner cs e h = rw e (unfold perform_own in Same-perform_own (delete name) cs h)

    pub delete_found-Same :
        (s : ConnectionState) (name : String) (o : Option ConnectionProfile)
        → resolve_connection_for_user name (some u.user_id) s.store ≡ o
        → Same s.store
        → Same (delete_found w s (some u) name o).0.store
    delete_found-Same s name none e h = h
    delete_found-Same s name (some p) e h =
        elim (Bool-cases (not (is_some p.user_id) && not (may_administer (some u)))) [
          | inl k ↦ rw k h
          | inr k ↦ rw k (delete-Same name p.user_id s.store (own_profile name s.store p e k) h)
        ]

    show_updated-Same :
        (s : ConnectionState) (c : Change (Option ConnectionProfile))
        → Same s.store
        → Same (after s.store c)
        → Same (show_updated w s (some u) c).0.store
    show_updated-Same s (keep o) h k = h
    show_updated-Same s (write ps none) h k = k
    show_updated-Same s (write ps (some p)) h k = k
    show_updated-Same s (duplicate name) h k = h

    pub update-Same :
        (s : ConnectionState) (name : String) (owner : Option String) (config : Dict String Value)
        → owner ≡ some u.user_id
        → Same s.store
        → Same
            (show_updated w s (some u) (update_connection_config name owner config s.store)).0.store
    update-Same s name owner config e h = rw e (
        show_updated-Same s (update_connection_config name (some u.user_id) config s.store) h
          (unfold perform_own in Same-perform_own (update_config name config) s.store h))

    update_checked-Same :
        (s : ConnectionState) (name : String) (config : Dict String Value) (p : ConnectionProfile)
        (o : Option (Dict String Value → Bool))
        → p.user_id ≡ some u.user_id
        → Same s.store
        → Same (update_checked w s (some u) name config p o).0.store
    update_checked-Same s name config p none e h = h
    update_checked-Same s name config p (some accepts) e h = elim (Bool-cases (accepts config)) [
      | inl k ↦ rw k (update-Same s name p.user_id config e h)
      | inr k ↦ rw k h
    ]

    pub update_allowed-Same :
        (s : ConnectionState) (name : String) (config : Dict String Value)
        (o : Option ConnectionProfile)
        → resolve_connection_for_user name (some u.user_id) s.store ≡ o
        → Same s.store
        → Same (update_allowed w s (some u) name config o).0.store
    update_allowed-Same s name config none e h = h
    update_allowed-Same s name config (some p) e h =
        elim (Bool-cases (not (is_some p.user_id) && not (may_administer (some u)))) [
          | inl k ↦ rw k h
          | inr k ↦ rw k (
              update_checked-Same s name config p (get models p.type)
                (own_profile name s.store p e k) h)
        ]

    pub generate-Same :
        (s : ConnectionState) (name : String) (owner user : Option String)
        → Same s.store
        → Same (generate w s name owner user).0.store
    unfolding generate
    generate-Same s name owner user h = h

    after_key-Same :
        (name : String) (p : ConnectionProfile) (m : Made)
        → Same m.0.store
        → Same (after_key w u p name m).0.store
    after_key-Same name p (s, inl ts) h = h
    after_key-Same name p (s, inr e) h = h

    key_configured-Same :
        (s : ConnectionState) (name key : String) (p : ConnectionProfile)
        (o : Option McpServerConnectionConfig)
        → Same s.store
        → Same (key_configured w s u name key p o).0.store
    key_configured-Same s name key p none h = h
    key_configured-Same s name key p (some config) h =
        elim (Bool-cases (is_oauth2 config.auth_type)) [
          | inl e ↦ rw e h
          | inr e ↦ rw e (
              after_key-Same name p
                (generate w (save_key w s u name key) name p.user_id (some u.user_id))
                (generate-Same (save_key w s u name key) name p.user_id (some u.user_id) h))
        ]

    pub key_found-Same :
        (s : ConnectionState) (name key : String) (o : Option ConnectionProfile)
        → Same s.store
        → Same (key_found w s u name key o).0.store
    key_found-Same s name key none h = h
    key_found-Same s name key (some p) h = elim (Bool-cases (p.type == "mcp_server")) [
      | inl e ↦ rw e (key_configured-Same s name key p (config_of p.config) h)
      | inr e ↦ rw e h
    ]

    after_refresh-Same : (m : Made) → Same m.0.store → Same (after_refresh w m).0.store
    after_refresh-Same (s, inl ts) h = h
    after_refresh-Same (s, inr e) h = h

    pub refresh_found-Same :
        (s : ConnectionState) (name : String) (o : Option ConnectionProfile)
        → Same s.store
        → Same (refresh_found w s (some u) name o).0.store
    refresh_found-Same s name none h = h
    refresh_found-Same s name (some p) h = elim (Bool-cases (p.type == "mcp_server")) [
      | inl e ↦ rw e (
          after_refresh-Same (generate w s name p.user_id (some u.user_id))
            (generate-Same s name p.user_id (some u.user_id) h))
      | inr e ↦ rw e h
    ]
