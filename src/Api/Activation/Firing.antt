-- ===== src/Api/Activation/Firing.antt =====
-- backend/triggers/runner.py: what a trigger of an active graph finds.
use agent_graph_studio.Prelude.{
  string_eq, String, ◌≡◌, refl, subst, Bool, Option, none, some, List, [], ◌∷◌, arith, nat_eq,
  pair_eq, option_eq,
}
use agent_graph_studio.Prelude.Dict.{Dict}
use agent_graph_studio.Schema.Value.{Value}
use agent_graph_studio.Schema.Models.{GraphSpec}
use agent_graph_studio.Connections.Store.{ConnectionProfile}
use agent_graph_studio.Connections.Resolver.{
  not_found, unknown_type, invalid_config, Resolved, resolved, failed, resolve_connections,
  resolve_connection_profiles,
}
use agent_graph_studio.Connections.Resolver.Clients.{resolve_connections-ne-not_found}
use agent_graph_studio.Validation.Issue.{ValidationIssue}
use agent_graph_studio.Validation.Verdict.{IsSound, validate_graph-IsSound}
use agent_graph_studio.Triggers.Registry.{TriggerRecord, ActiveGraph, get_active}
use agent_graph_studio.Api.Activation.State.{Services, Backend, activated}
use agent_graph_studio.Api.Activation.Change.{activate_graph, after_validation}
use agent_graph_studio.Api.Activation.Elsewhere.{Elsewhere, get-Elsewhere}
use agent_graph_studio.Api.Activation.Outcome.{Left, activate_graph-Left}
use agent_graph_studio.Api.Activation.Startup.{
  Fired, not_active, unresolved, started, with_clients, fire_active, fire,
}

module _ {Client : Type 0} (v : Services Client) (store : List ConnectionProfile) where
  validated_row :
      (w : Backend) (id : String) (g : GraphSpec) (json : String) (fails : Bool) (now : String)
      (user_id : Option String) (issues : List ValidationIssue) (ts : List TriggerRecord)
      → (after_validation v store w id g json fails now user_id issues).1 ≡ activated ts
      → issues ≡ []
  unfolding after_validation
  validated_row w id g json fails now user_id [] ts h = refl
  validated_row w id g json fails now user_id (i ∷ issues) ts h = absurd (ground arith)

  -- The run has the graph, the user, the payload, and that user's connections with their profiles; without a
  -- run, a connection was found whose type is unknown or whose config is invalid.
  abbrev pub IsFired : GraphSpec → Option String → Option (String × Value) → Fired Client → Type 0
  IsFired g user_id payload not_active = ⊥
  IsFired g user_id payload (unresolved (not_found name)) = ⊥
  IsFired g user_id payload (unresolved e) =
      resolve_connections user_id none store v.connection_types g ≡ failed e
  IsFired g user_id payload (started r) =
      (r.graph ≡ g)
      × (r.running_user_id ≡ user_id)
      × (r.trigger_payloads ≡ payload)
      × (resolve_connections user_id none store v.connection_types g ≡ resolved r.connections)
      × (resolve_connection_profiles user_id none store g ≡ resolved r.connection_profiles)

  fire_active-IsFired :
      (a : ActiveGraph) (payload : Option (String × Value)) (d : Dict String ConnectionProfile)
      → resolve_connection_profiles a.created_by none store a.graph ≡ resolved d
      → IsFired a.graph a.created_by payload (fire_active v store payload (some a))
  unfolding fire_active
  fire_active-IsFired a payload d h =
      rw h
        (by_clients (resolve_connections a.created_by none store v.connection_types a.graph) refl)
    where
      by_clients :
          (r : Resolved Client)
          → resolve_connections a.created_by none store v.connection_types a.graph ≡ r
          → IsFired a.graph a.created_by payload (with_clients v store a payload r (resolved d))
      by_clients (resolved clients) k = (refl, refl, refl, k, h)
      by_clients (failed (unknown_type name)) k = k
      by_clients (failed (invalid_config name)) k = k
      by_clients (failed (not_found name)) k =
          resolve_connections-ne-not_found a.created_by none store v.connection_types a.graph d name
            h k

  -- While the connections stay as they are, a trigger that fires for a graph after its successful activation,
  -- and after any activations and deactivations of other graphs, starts a run of that graph, with the
  -- payload, as the user who activated it, and with that user's connections; or the graph refers to a
  -- connection whose type is unknown or whose config is invalid.
  pub fire-activate_graph :
      (w : Backend) (id : String) (g : GraphSpec) (json : String) (fails : Bool) (now : String)
      (user_id : Option String) (ts : List TriggerRecord) (payload : Option (String × Value))
      (b : Backend)
      → (activate_graph v store w id g json fails now user_id).1 ≡ activated ts
      → Elsewhere v store id (activate_graph v store w id g json fails now user_id).0 b
      → IsFired g user_id payload (fire v store b.triggers id payload)
  unfolding fire get_active
  fire-activate_graph w id g json fails now user_id ts payload b h later =
      let left =
        subst
          (Left v store id g json fails now user_id w
            (activate_graph v store w id g json fails now user_id).0)
          h (activate_graph-Left v store id g json fails now user_id w) in
      let sound : IsSound g v.registry store user_id none =
        validate_graph-IsSound g v.registry store user_id none
          (validated_row w id g json fails now user_id _ ts (unfold activate_graph in h)) in
      rw (get-Elsewhere v store id _ later, left.0)
        (fire_active-IsFired
          (record { graph_id = id; graph = g; triggers = ts; created_by = user_id }) payload
          sound.connected.0 sound.connected.1)
