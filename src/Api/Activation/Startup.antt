-- ===== src/Api/Activation/Startup.antt =====
-- backend/api/app.py: `_reactivate_persisted_graphs`, and backend/triggers/runner.py: `fire` up to the
-- start of the run's thread. `parse` is `GraphSpec.model_validate_json`.
use agent_graph_studio.Prelude.{
  string_eq, String, inl, inr, Option, none, some, List, [], ◌∷◌, nat_eq, pair_eq, option_eq,
}
use agent_graph_studio.Prelude.Dict.{Dict}
use agent_graph_studio.Schema.Value.{Value}
use agent_graph_studio.Schema.Models.{GraphSpec}
use agent_graph_studio.Connections.Store.{ConnectionProfile}
use agent_graph_studio.Connections.Resolver.{
  ResolveError, Resolved, resolved, failed, resolve_connections, resolve_connection_profiles,
}
use agent_graph_studio.Validation.Issue.{ValidationIssue}
use agent_graph_studio.Validation.Validator.{validate_graph}
use agent_graph_studio.Storage.Graphs.{GraphRow, list_active_graphs}
use agent_graph_studio.Triggers.Registry.{Triggers, ActiveGraph, set_active, get_active}
use agent_graph_studio.Api.Activation.State.{Services}
use agent_graph_studio.Api.Activation.Register.{Registered, register_triggers}

-- What a trigger hands to its run: the clients of the connections, their profiles, the user, and the
-- payload with the node that it is for.
pub record FiredRun (Client : Type 0) : Type 0 where
  pub graph : GraphSpec
  pub connections : Dict String Client
  pub connection_profiles : Dict String ConnectionProfile
  pub running_user_id : Option String
  pub trigger_payloads : Option (String × Value)

pub data Fired (Client : Type 0) : Type 0 where
  not_active : Fired Client
  unresolved : ResolveError → Fired Client
  started : FiredRun Client → Fired Client

module _ {Client : Type 0} (v : Services Client) (store : List ConnectionProfile) where
  -- The state after one row of the loop, where an exception leaves what was registered.
  unfoldable pub reactivated : GraphRow → GraphSpec → Registered → Triggers
  reactivated row g (s, inr e) = s
  reactivated row g (s, inl triggers) = set_active s row.graph_id g triggers row.created_by

  unfoldable pub reactivate_valid :
      Triggers → GraphRow → GraphSpec → List ValidationIssue → Triggers
  unfolding reactivated
  reactivate_valid s row g (i ∷ issues) = s
  reactivate_valid s row g [] = reactivated row g (register_triggers v store s row.graph_id g.nodes)

  unfoldable pub reactivate_row : Triggers → GraphRow → Option GraphSpec → Triggers
  unfolding reactivate_valid
  reactivate_row s row none = s
  reactivate_row s row (some g) =
      reactivate_valid s row g (validate_graph g v.registry store row.created_by none)

  unfoldable pub reactivate_rows : (String → Option GraphSpec) → Triggers → List GraphRow → Triggers
  unfolding reactivate_row
  reactivate_rows parse s [] = s
  reactivate_rows parse s (row ∷ rows) =
      reactivate_rows parse (reactivate_row s row (parse row.spec_json)) rows

  unfoldable pub reactivate_persisted_graphs :
      (String → Option GraphSpec) → Triggers → List GraphRow → Triggers
  unfolding reactivate_rows
  reactivate_persisted_graphs parse s t = reactivate_rows parse s (list_active_graphs t)

  abbrev pub with_profiles :
      ActiveGraph
      → Option (String × Value)
      → Dict String Client
      → Resolved ConnectionProfile
      → Fired Client
  with_profiles a payload clients (failed e) = unresolved e
  with_profiles a payload clients (resolved profiles) = started (record {
    graph = a.graph;
    connections = clients;
    connection_profiles = profiles;
    running_user_id = a.created_by;
    trigger_payloads = payload;
  })

  abbrev pub with_clients :
      ActiveGraph
      → Option (String × Value)
      → Resolved Client
      → Resolved ConnectionProfile
      → Fired Client
  with_clients a payload (failed e) profiles = unresolved e
  with_clients a payload (resolved clients) profiles = with_profiles a payload clients profiles

  unfoldable pub fire_active : Option (String × Value) → Option ActiveGraph → Fired Client
  fire_active payload none = not_active
  fire_active payload (some a) =
      with_clients a payload
        (resolve_connections a.created_by none store v.connection_types a.graph)
        (resolve_connection_profiles a.created_by none store a.graph)

  unfoldable pub fire : Triggers → String → Option (String × Value) → Fired Client
  unfolding fire_active
  fire s graph_id payload = fire_active payload (get_active s graph_id)
