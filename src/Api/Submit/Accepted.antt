-- ===== src/Api/Submit/Accepted.antt =====
-- backend/api/app.py: what a run that `submit_run` accepts is based on, and what `run_graph` does with it.
use agent_graph_studio.Prelude.{
  All, Bool-cases, filter_list, not, true, false, inl, inr, ◌==◌, ==_iff, string_eq, String, ◌≡◌,
  refl, ◌∙◌, ◌≢◌, Bool, Option, some, List, [], ◌∷◌, arith, nat_eq, pair_eq, option_eq,
}
use agent_graph_studio.Prelude.Dict.{Dict, has, get-put_self}
use agent_graph_studio.Schema.Models.{GraphSpec}
use agent_graph_studio.Registry.{NodeRegistry}
use agent_graph_studio.Connections.Store.{ConnectionProfile}
use agent_graph_studio.Connections.Resolver.{
  ConnectionType, ResolveError, not_found, unknown_type, invalid_config, Resolved, resolved, failed,
  resolve_connections, resolve_connection_profiles,
}
use agent_graph_studio.Validation.Issue.{ValidationIssue}
use agent_graph_studio.Validation.Validator.{validate_graph}
use agent_graph_studio.Validation.Verdict.{IsSound, validate_graph-IsSound}
use agent_graph_studio.Storage.Graphs.{GraphRow, get_graph}
use agent_graph_studio.Storage.Sharing.{SharingTables, SlotRow, list_slots, get_mappings_for_user}
use agent_graph_studio.Api.Runs.{RunRecord, new_record, get_run_snapshot}
use agent_graph_studio.Api.Runs.Worker.{Server, create_run}
use agent_graph_studio.Api.Submit.{
  RunTask, accepted, mapped, needs_mappings, row_mappings, slot_mappings_of, refused_by,
  resolved_run, validated_run, mapped_run, submit_run,
}

module _ {Client : Type 0} (registry : NodeRegistry) (types : Dict String (ConnectionType Client))
    (store : List ConnectionProfile) (fails : Bool) (run_id started_at : String) (s s' : Server)
    (g : GraphSpec) (graph_id run_by : Option String) (task : RunTask Client) where
  -- The task is the caller's own run of the graph, with the profiles that its names stand for.
  abbrev pub IsOwnTask : Dict String String → Type 0
  IsOwnTask mappings =
      (task.run_id ≡ run_id)
      × (task.graph ≡ g)
      × (task.running_user_id ≡ run_by)
      × (task.slot_mappings ≡ mappings)
      × (resolve_connections run_by (some mappings) store types g ≡ resolved task.connections)
      × (resolve_connection_profiles run_by (some mappings) store g
          ≡ resolved task.connection_profiles)
      × (s' ≡ (create_run fails s run_id graph_id "manual" run_by started_at).0)

  refused_by-ne-accepted :
      (e : ResolveError)
      → refused_by registry types store fails run_id started_at s e ≢ (s', accepted task)
  refused_by-ne-accepted (not_found name) h = absurd (ground arith)
  refused_by-ne-accepted (unknown_type name) h = absurd (ground arith)
  refused_by-ne-accepted (invalid_config name) h = absurd (ground arith)

  resolved_run-IsOwnTask :
      (mappings : Dict String String) (c : Resolved Client) (p : Resolved ConnectionProfile)
      → resolve_connections run_by (some mappings) store types g ≡ c
      → resolve_connection_profiles run_by (some mappings) store g ≡ p
      → resolved_run registry types store fails run_id started_at s g graph_id run_by mappings c p
        ≡ (s', accepted task)
      → IsOwnTask mappings
  unfolding resolved_run
  resolved_run-IsOwnTask mappings (failed e) p l k h = absurd (refused_by-ne-accepted e h)
  resolved_run-IsOwnTask mappings (resolved c) (failed e) l k h =
      absurd (refused_by-ne-accepted e h)
  resolved_run-IsOwnTask mappings (resolved c) (resolved p) l k h = (
    ground arith,
    ground arith,
    ground arith,
    ground arith,
    l ∙ ground arith,
    k ∙ ground arith,
    ground arith,
  )

  validated_run-IsOwnTask :
      (mappings : Dict String String) (issues : List ValidationIssue)
      → validated_run registry types store fails run_id started_at s g graph_id run_by mappings
          issues
        ≡ (s', accepted task)
      → (issues ≡ []) × IsOwnTask mappings
  unfolding validated_run
  validated_run-IsOwnTask mappings (i ∷ issues) h = absurd (ground arith)
  validated_run-IsOwnTask mappings [] h = (refl, resolved_run-IsOwnTask mappings _ _ refl refl h)

  mapped_run-IsOwnTask :
      (m : List SlotRow × Dict String String)
      → mapped_run registry types store fails run_id started_at s g graph_id run_by m
        ≡ (s', accepted task)
      → (m.0 ≡ []) × (validate_graph g registry store run_by (some m.1) ≡ []) × IsOwnTask m.1
  unfolding mapped_run
  mapped_run-IsOwnTask (slot ∷ slots, mappings) h = absurd (ground arith)
  mapped_run-IsOwnTask ([], mappings) h =
      let (valid, own) =
        validated_run-IsOwnTask mappings (validate_graph g registry store run_by (some mappings))
          h in
      (refl, valid, own)

  submit_run-IsOwnTask :
      (graphs : List GraphRow) (tables : SharingTables)
      → submit_run registry types store fails run_id started_at s graphs tables g graph_id run_by
        ≡ (s', accepted task)
      → let m = slot_mappings_of graphs tables run_by graph_id in
        (m.0 ≡ []) × (validate_graph g registry store run_by (some m.1) ≡ []) × IsOwnTask m.1
  unfolding submit_run
  submit_run-IsOwnTask graphs tables h =
      mapped_run-IsOwnTask (slot_mappings_of graphs tables run_by graph_id) h

slots_mapped :
    (mappings : Dict String String) (slots : List SlotRow)
    → filter_list (λ (r : SlotRow). not (has mappings r.slot_name)) slots ≡ []
    → All (λ (r : SlotRow). has mappings r.slot_name ≡ true) slots
slots_mapped mappings [] h = tt
slots_mapped mappings (r ∷ slots) h = elim (Bool-cases (has mappings r.slot_name)) [
  | inl e ↦ (e, slots_mapped mappings slots (rw e at h))
  | inr e ↦ let k = rw e at h in absurd (ground arith)
]

slot_mappings_of-shared :
    (graphs : List GraphRow) (tables : SharingTables) (row : GraphRow) (id user : String)
    → get_graph graphs id ≡ some row
    → row.sharing ≡ "shared"
    → some user ≢ row.created_by
    → slot_mappings_of graphs tables (some user) (some id) ≡ mapped tables user id
unfolding slot_mappings_of row_mappings needs_mappings
slot_mappings_of-shared graphs tables row id user found shared foreign =
    let by_other : (some user == row.created_by) ≡ false =
      elim (Bool-cases (some user == row.created_by)) [
        | inl e ↦ absurd (foreign ((==_iff (some user) row.created_by).0 e))
        | inr e ↦ e
      ] in
    rw (found, shared, by_other) refl

-- A submission of a shared graph by somebody else than its creator that is accepted: every slot that the
-- graph declares is mapped by the caller; the graph is sound for the caller with just these mappings; the
-- task runs that graph as the caller, with the clients and profiles that its names stand for by these
-- mappings; and the run is recorded under the task's id, as running, for the graph and the caller.
pub submit_run-IsSound :
    {Client : Type 0} (registry : NodeRegistry) (types : Dict String (ConnectionType Client))
    (store : List ConnectionProfile) (fails : Bool) (run_id started_at : String) (s s' : Server)
    (g : GraphSpec) (id user : String) (task : RunTask Client) (graphs : List GraphRow)
    (tables : SharingTables) (row : GraphRow)
    → get_graph graphs id ≡ some row
    → row.sharing ≡ "shared"
    → some user ≢ row.created_by
    → submit_run registry types store fails run_id started_at s graphs tables g
        (some id)
        (some user)
      ≡ (s', accepted task)
    → let mappings = get_mappings_for_user tables user id in
      All (λ (r : SlotRow). has mappings r.slot_name ≡ true) (list_slots tables id)
      × IsSound g registry store (some user) (some mappings)
      × (task.graph ≡ g)
      × (task.running_user_id ≡ some user)
      × (task.slot_mappings ≡ mappings)
      × (resolve_connections (some user) (some mappings) store types g ≡ resolved task.connections)
      × (resolve_connection_profiles (some user) (some mappings) store g
          ≡ resolved task.connection_profiles)
      × ((r : RunRecord) × (get_run_snapshot s'.runs task.run_id ≡ some r)
          × (r.status ≡ "running")
          × (r.graph_id ≡ some id)
          × (r.run_by ≡ some user))
unfolding create_run get_run_snapshot
submit_run-IsSound registry types store fails run_id started_at s s' g id user task graphs tables
      row found shared foreign h =
    let m = slot_mappings_of-shared graphs tables row id user found shared foreign in
    let (none_missing, valid, own) = rw m at (
      submit_run-IsOwnTask registry types store fails run_id started_at s s' g (some id) (some user)
        task graphs tables h) in
    let (same_id, same_graph, same_user, same_mappings, clients, profiles, left) = own in
    (
      slots_mapped (get_mappings_for_user tables user id) (list_slots tables id) none_missing,
      validate_graph-IsSound g registry store (some user)
          (some (get_mappings_for_user tables user id)) valid,
      same_graph,
      same_user,
      same_mappings,
      clients,
      profiles,
      (
        new_record run_id (some id) "manual" (some user) started_at,
        rw (left, same_id) (get-put_self s.runs run_id _),
        refl,
        refl,
        refl,
      ),
    )
