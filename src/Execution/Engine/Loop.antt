-- ===== src/Execution/Engine/Loop.antt =====
-- backend/execution/engine.py: the loop `while pending` and what `_run_graph_async` sets up for it.
use agent_graph_studio.Prelude.{
  if◌then◌else◌, string_eq, length, filter_list, contains, ℕ, zero, suc, String, not, Option, none,
  some, List, [], ◌∷◌, map,
}
use agent_graph_studio.Prelude.{pair_eq, option_eq}
use agent_graph_studio.Prelude.Dict.{Dict, put}
use agent_graph_studio.Schema.Models.{
  EdgeSpec, GraphSpec, is_data, is_sub_node, node_ids, index_nodes,
}
use agent_graph_studio.Registry.{NodeRegistry}
use agent_graph_studio.Execution.Trace.{Resource}
use agent_graph_studio.Execution.Engine.Gather.{SlotKey, Setup, RunError, Event, RunState}
use agent_graph_studio.Execution.Engine.Round.{next, stopped, crashed, round}

pub data RunEnd : Type 0 where
  ended : RunState → RunEnd
  raised_error : RunError → List Event → RunEnd

-- `while pending`, on fuel; `none` means that the fuel ran out
unfoldable pub rounds : ℕ → Setup → RunState → Option RunEnd
rounds zero setup s = elim (s.pending) [ [] ↦ some (ended s) | p ∷ ps ↦ none ]
rounds (suc fuel) setup s = elim (s.pending) [
  | [] ↦ some (ended s)
  | p ∷ ps ↦ elim (round setup s) [
    | next s' ↦ rounds fuel setup s'
    | stopped s' ↦ some (ended s')
    | crashed e events ↦ some (raised_error e events)
  ]
]

-- `{(e.to.node, e.to.slot): e for e in graph.edges if e.kind == "data"}`
unfoldable pub index_edges : Dict SlotKey EdgeSpec → List EdgeSpec → Dict SlotKey EdgeSpec
index_edges d [] = d
index_edges d (e ∷ es) =
    index_edges (if is_data e.kind then put d (e.to.node, e.to.slot) e else d) es

-- `{e.from_.node for e in graph.edges if e.kind == "sub_node"}`
abbrev pub sub_node_sources : List EdgeSpec → List String
sub_node_sources es =
    map (λ e. e.from_.node) (filter_list (λ (e : EdgeSpec). is_sub_node e.kind) es)

unfoldable pub initial_pending : GraphSpec → List String
initial_pending g = filter_list (λ id. not (contains (sub_node_sources g.edges) id)) (node_ids g)

unfoldable pub initial_state : GraphSpec → RunState
unfolding initial_pending
initial_state g = record {
  available = [];
  trace = [];
  result = [];
  pending = initial_pending g;
  finished = [];
  events = [];
}

unfoldable pub setup_of :
    GraphSpec → NodeRegistry → Dict String Resource → String → (String → String × String) → Setup
unfolding index_nodes index_edges
setup_of g registry resources run_id times = record {
  nodes_by_id = index_nodes [] g.nodes;
  incoming_by_slot = index_edges [] g.edges;
  registry = registry;
  resources = resources;
  run_id = run_id;
  times = times;
}

-- Each round with a ready node takes at least one node out of `pending`.
unfoldable pub run_graph_async :
    GraphSpec
    → NodeRegistry
    → Dict String Resource
    → String
    → (String → String × String)
    → Option RunEnd
unfolding initial_state setup_of rounds
run_graph_async g registry resources run_id times =
    rounds (length g.nodes) (setup_of g registry resources run_id times) (initial_state g)
