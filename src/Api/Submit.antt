-- ===== src/Api/Submit.antt =====
-- backend/api/app.py: `submit_run`, with the slots of a shared graph. The caller is given by the user id of
-- the session, none for the shared key.
pub mod Accepted
pub mod Unmapped
use agent_graph_studio.Prelude.{
  if◌then◌else◌, is_some, ◌==◌, string_eq, filter_list, String, Bool, not, ◌&&◌, Option, none, some,
  List, [], ◌∷◌, nat_eq, pair_eq, option_eq,
}
use agent_graph_studio.Prelude.Dict.{Dict, has}
use agent_graph_studio.Schema.Models.{GraphSpec}
use agent_graph_studio.Registry.{NodeRegistry}
use agent_graph_studio.Connections.Store.{ConnectionProfile}
use agent_graph_studio.Connections.Resolver.{
  ConnectionType, ResolveError, not_found, unknown_type, invalid_config, Resolved, resolved, failed,
  resolve_connections, resolve_connection_profiles,
}
use agent_graph_studio.Validation.Issue.{ValidationIssue}
use agent_graph_studio.Validation.Validator.{validate_graph}
use agent_graph_studio.Storage.Graphs.{GraphRow, get_graph}
use agent_graph_studio.Storage.Sharing.{SharingTables, SlotRow, list_slots, get_mappings_for_user}
use agent_graph_studio.Api.Runs.Worker.{Server, create_run}

-- The arguments of the background task.
pub record RunTask (Client : Type 0) : Type 0 where
  pub run_id : String
  pub graph : GraphSpec
  pub connections : Dict String Client
  pub connection_profiles : Dict String ConnectionProfile
  pub running_user_id : Option String
  pub slot_mappings : Dict String String

-- The answers 409, 422 for the graph, 422 for a connection, 500 and 202.
pub data Submission (Client : Type 0) : Type 0 where
  missing_slots : List SlotRow → Submission Client
  invalid_graph : List ValidationIssue → Submission Client
  missing_connection : String → Submission Client
  crashed : Submission Client
  accepted : RunTask Client → Submission Client

-- `graph_row.sharing == "shared" and run_by is not None and run_by != graph_row.created_by`
unfoldable pub needs_mappings : GraphRow → Option String → Bool
needs_mappings row run_by =
    row.sharing == "shared" && (is_some run_by && not (run_by == row.created_by))

-- The slots without a mapping, and the mappings.
abbrev pub mapped : SharingTables → String → String → List SlotRow × Dict String String
mapped tables user_id graph_id =
    let mappings = get_mappings_for_user tables user_id graph_id in
    (
      filter_list (λ (s : SlotRow). not (has mappings s.slot_name)) (list_slots tables graph_id),
      mappings,
    )

abbrev pub mapped_for : SharingTables → Option String → String → List SlotRow × Dict String String
mapped_for tables none graph_id = ([], [])
mapped_for tables (some user_id) graph_id = mapped tables user_id graph_id

unfoldable pub row_mappings :
    SharingTables → Option String → String → Option GraphRow → List SlotRow × Dict String String
unfolding needs_mappings
row_mappings tables run_by graph_id none = ([], [])
row_mappings tables run_by graph_id (some row) =
    if needs_mappings row run_by then mapped_for tables run_by graph_id else ([], [])

unfoldable pub slot_mappings_of :
    List GraphRow
    → SharingTables
    → Option String
    → Option String
    → List SlotRow × Dict String String
unfolding row_mappings
slot_mappings_of graphs tables run_by none = ([], [])
slot_mappings_of graphs tables run_by (some graph_id) =
    row_mappings tables run_by graph_id (get_graph graphs graph_id)

module _ {Client : Type 0} (registry : NodeRegistry) (types : Dict String (ConnectionType Client))
    (store : List ConnectionProfile) (fails : Bool) (run_id started_at : String) where
  abbrev refused_by : Server → ResolveError → Server × Submission Client
  refused_by s (not_found name) = (s, missing_connection name)
  refused_by s (unknown_type name) = (s, crashed)
  refused_by s (invalid_config name) = (s, crashed)

  unfoldable pub resolved_run :
      Server
      → GraphSpec
      → Option String
      → Option String
      → Dict String String
      → Resolved Client
      → Resolved ConnectionProfile
      → Server × Submission Client
  resolved_run s g graph_id run_by mappings (failed e) profiles = refused_by s e
  resolved_run s g graph_id run_by mappings (resolved clients) (failed e) = refused_by s e
  resolved_run s g graph_id run_by mappings (resolved clients) (resolved profiles) = (
    (create_run fails s run_id graph_id "manual" run_by started_at).0,
    accepted (record {
      run_id = run_id;
      graph = g;
      connections = clients;
      connection_profiles = profiles;
      running_user_id = run_by;
      slot_mappings = mappings;
    }),
  )

  unfoldable pub validated_run :
      Server
      → GraphSpec
      → Option String
      → Option String
      → Dict String String
      → List ValidationIssue
      → Server × Submission Client
  unfolding resolved_run
  validated_run s g graph_id run_by mappings (i ∷ issues) = (s, invalid_graph (i ∷ issues))
  validated_run s g graph_id run_by mappings [] =
      resolved_run s g graph_id run_by mappings
        (resolve_connections run_by (some mappings) store types g)
        (resolve_connection_profiles run_by (some mappings) store g)

  unfoldable pub mapped_run :
      Server
      → GraphSpec
      → Option String
      → Option String
      → List SlotRow × Dict String String
      → Server × Submission Client
  unfolding validated_run
  mapped_run s g graph_id run_by (slot ∷ slots, mappings) = (s, missing_slots (slot ∷ slots))
  mapped_run s g graph_id run_by ([], mappings) =
      validated_run s g graph_id run_by mappings
        (validate_graph g registry store run_by (some mappings))

  unfoldable pub submit_run :
      Server
      → List GraphRow
      → SharingTables
      → GraphSpec
      → Option String
      → Option String
      → Server × Submission Client
  unfolding mapped_run slot_mappings_of
  submit_run s graphs tables g graph_id run_by =
      mapped_run s g graph_id run_by (slot_mappings_of graphs tables run_by graph_id)
