-- ===== src/Execution/RunGraph.antt =====
-- backend/execution/engine.py: `run_graph`, which validates the graph again, adds the two tables to
-- the resources, and runs it. The user's connections are given.
pub mod Laws
use agent_graph_studio.Prelude.{
  if◌then◌else◌, string_eq, ◌+◌, String, Option, none, some, List, [], ◌∷◌, ◌++◌,
}
use agent_graph_studio.Prelude.{pair_eq, option_eq}
use agent_graph_studio.Prelude.Dict.{Dict, get, put}
use agent_graph_studio.Schema.Value.{text}
use agent_graph_studio.Schema.Models.{EdgeSpec, GraphSpec, is_sub_node, index_nodes}
use agent_graph_studio.Registry.{NodeRegistry}
use agent_graph_studio.Connections.Store.{ConnectionProfile}
use agent_graph_studio.Validation.Issue.{ValidationIssue}
use agent_graph_studio.Validation.Validator.{validate_graph}
use agent_graph_studio.Execution.Trace.{Resource, given, node_table, sub_node_table}
use agent_graph_studio.Execution.Engine.Loop.{RunEnd, run_graph_async}

abbrev pub SubNodes : Type 0
SubNodes = Dict (String × Option String) (List String)

abbrev pub listed {ℓ} : {A : Type ℓ} → Option (List A) → List A
listed none = []
listed (some xs) = xs

-- `sub_nodes.setdefault((e.to.node, e.slot), []).append(e.from_.node)`
unfoldable pub add_sub_node : SubNodes → EdgeSpec → SubNodes
add_sub_node d e =
    put d (e.to.node, e.slot) (listed (get d (e.to.node, e.slot)) ++ e.from_.node ∷ [])

unfoldable pub sub_nodes_from : SubNodes → List EdgeSpec → SubNodes
unfolding add_sub_node
sub_nodes_from d [] = d
sub_nodes_from d (e ∷ es) = sub_nodes_from (if is_sub_node e.kind then add_sub_node d e else d) es

-- `resources.get("running_user_id")`
unfoldable pub user_of : Option Resource → Option String
user_of none = none
user_of (some (given (text u))) = some u
user_of (some r) = none

unfoldable pub run_resources : GraphSpec → Dict String Resource → Dict String Resource
unfolding sub_nodes_from
run_resources g resources =
    put (put resources "nodes_by_id" (node_table (index_nodes [] g.nodes))) "sub_nodes"
      (sub_node_table (sub_nodes_from [] g.edges))

-- `GraphValidationError`, or how the run ended; `ran none` would be a run that is out of fuel.
pub data RunOutcome : Type 0 where
  invalid : List ValidationIssue → RunOutcome
  ran : Option RunEnd → RunOutcome

start_run :
    GraphSpec
    → NodeRegistry
    → Dict String Resource
    → String
    → (String → String × String)
    → List ValidationIssue
    → RunOutcome
start_run g registry resources run_id times [] =
    ran (run_graph_async g registry (run_resources g resources) run_id times)
start_run g registry resources run_id times (i ∷ issues) = invalid (i ∷ issues)

unfoldable pub run_graph :
    GraphSpec
    → NodeRegistry
    → List ConnectionProfile
    → Dict String Resource
    → String
    → (String → String × String)
    → RunOutcome
unfolding start_run user_of
run_graph g registry store resources run_id times =
    start_run g registry resources run_id times
      (validate_graph g registry store (user_of (get resources "running_user_id")) none)
