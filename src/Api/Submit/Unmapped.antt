-- ===== src/Api/Submit/Unmapped.antt =====
-- backend/execution/engine.py after backend/api/app.py: `run_graph` validates again, without the mappings
-- that `submit_run` validated with.
use agent_graph_studio.Prelude.{
  string_eq, contains, String, ◌≡◌, ◌≢◌, true, Option, none, List, [], nat_eq, pair_eq, option_eq,
}
use agent_graph_studio.Prelude.Dict.{Dict, get}
use agent_graph_studio.Schema.Models.{GraphSpec}
use agent_graph_studio.Registry.{NodeRegistry}
use agent_graph_studio.Connections.Store.{ConnectionProfile, resolve_connection_for_user}
use agent_graph_studio.Connections.Resolver.{resolve_slot_aware, referenced_connection_names}
use agent_graph_studio.Connections.Resolver.Clients.{resolve_slot_aware-ne-none}
use agent_graph_studio.Validation.Validator.{validate_graph}
use agent_graph_studio.Validation.Verdict.{IsSound, validate_graph-IsSound}
use agent_graph_studio.Execution.Trace.{Resource}
use agent_graph_studio.Execution.Engine.Loop.{RunEnd}
use agent_graph_studio.Execution.RunGraph.{ran, user_of, run_graph}
use agent_graph_studio.Execution.RunGraph.Laws.{run_graph-valid}

-- A graph that refers to a name which is not itself a connection of the running user, or of everyone, is
-- never run: `run_graph` rejects it, whatever slot mappings its submission was accepted with.
pub run_graph-unmapped :
    (g : GraphSpec) (registry : NodeRegistry) (store : List ConnectionProfile)
    (resources : Dict String Resource) (run_id : String) (times : String → String × String)
    (name : String) (o : Option RunEnd)
    → contains (referenced_connection_names g) name ≡ true
    → resolve_connection_for_user name (user_of (get resources "running_user_id")) store ≡ none
    → run_graph g registry store resources run_id times ≢ ran o
unfolding resolve_slot_aware
run_graph-unmapped g registry store resources run_id times name o c n h =
    let user = user_of (get resources "running_user_id") in
    let valid : validate_graph g registry store user none ≡ [] =
      run_graph-valid g registry store resources run_id times o h in
    let sound : IsSound g registry store user none =
      validate_graph-IsSound g registry store user none valid in
    resolve_slot_aware-ne-none user none store {Client = String} [] g sound.connected.0 name
      sound.connected.1 c n
