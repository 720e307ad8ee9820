-- ===== src/Execution/Engine/Round.antt =====
-- backend/execution/engine.py: one turn of `while pending`: the scan, the concurrent execution of
-- the ready nodes, and the loop over their results. `asyncio.gather` returns in the order of
-- submission, so the execution is a map over the ready nodes in that order.
use agent_graph_studio.Prelude.{
  string_eq, remove, String, false, Option, none, some, List, [], ◌∷◌, ◌++◌, map,
}
use agent_graph_studio.Prelude.{pair_eq, option_eq}
use agent_graph_studio.Prelude.Dict.{Dict, get, put}
use agent_graph_studio.Schema.Value.{Value}
use agent_graph_studio.Schema.Models.{NodeSpec}
use agent_graph_studio.Registry.{NodeDefinition}
use agent_graph_studio.Execution.Trace.{
  TraceRecord, trace_record, no_children, entry, NodeResult, no_cost, Execution, returned, raised,
}
use agent_graph_studio.Execution.Engine.Gather.{
  SlotKey, Setup, RunError, no_such_node, no_such_type, no_such_input, Event, round_start, recorded,
  RunState, Readiness, blocked, waiting, ready, gathered, lookup_failed, definition_of,
  gather_inputs,
}

-- The variables of the loop `for node_id in list(pending)`.
pub record Scan : Type 0 where
  pub pending : List String
  pub finished : List String
  pub ready_nodes : List (String × Dict String Value)

unfoldable pub place : Scan → String → Readiness → Scan
place c node_id blocked = record c {
  pending = remove c.pending node_id;
  finished = node_id ∷ c.finished;
}
place c node_id (ready inputs) = record c { ready_nodes = c.ready_nodes ++ (node_id, inputs) ∷ [] }
place c node_id waiting = c

pub data Scanned : Type 0 where
  scanned : Scan → Scanned
  scan_failed : RunError → Scanned

unfoldable pub scan : Setup → RunState → Scan → List String → Scanned
scan setup s c [] = scanned c
scan setup s c (node_id ∷ ids) = elim (gather_inputs setup s c.finished node_id) [
  | lookup_failed e ↦ scan_failed e
  | gathered r ↦ scan setup s (place c node_id r) ids
]

-- The record of a call, from its outcome.
unfoldable pub record_of : Setup → NodeSpec → Dict String Value → Execution → TraceRecord
record_of setup node inputs (returned r) =
    trace_record
      (record {
        run_id = setup.run_id;
        node_id = node.id;
        node_type = node.type;
        started_at = (setup.times node.id).0;
        finished_at = (setup.times node.id).1;
        inputs = inputs;
        outputs = r.outputs;
        token_cost = r.token_cost;
        side_effect = r.side_effect;
        error = none;
      })
      r.child_traces
record_of setup node inputs (raised message) =
    trace_record
      (record {
        run_id = setup.run_id;
        node_id = node.id;
        node_type = node.type;
        started_at = (setup.times node.id).0;
        finished_at = (setup.times node.id).1;
        inputs = inputs;
        outputs = [];
        token_cost = no_cost;
        side_effect = false;
        error = some message;
      })
      no_children

abbrev pub result_of : Execution → Option NodeResult
result_of (returned r) = some r
result_of (raised message) = none

-- `(node.id, node_result, record)`
pub record Completed : Type 0 where
  pub node_id : String
  pub node_result : Option NodeResult
  pub trace_entry : TraceRecord

unfoldable pub execute_node : Setup → NodeSpec → NodeDefinition → Dict String Value → Completed
execute_node setup node definition inputs =
    let outcome =
      definition.execute (record { node = node; inputs = inputs; resources = setup.resources }) in
    record {
      node_id = node.id;
      node_result = result_of outcome;
      trace_entry = record_of setup node inputs outcome;
    }

-- `nodes_by_id[node_id]` with `registry.get(nodes_by_id[node_id].type)`
pub data Found : Type 0 where
  found : NodeSpec → NodeDefinition → Found
  not_found : RunError → Found

unfoldable pub find_node : Setup → String → Found
find_node setup node_id = elim (get setup.nodes_by_id node_id) [
  | none ↦ not_found (no_such_node node_id)
  | some node ↦ elim (definition_of setup node) [
    | none ↦ not_found (no_such_type node.type)
    | some d ↦ found node d
  ]
]

pub data Launched : Type 0 where
  launched : List Completed → Launched
  launch_failed : RunError → Launched

unfoldable pub launch_with : Completed → Launched → Launched
launch_with c (launched cs) = launched (c ∷ cs)
launch_with c (launch_failed e) = launch_failed e

-- `await asyncio.gather(*(_execute_node(…) for node_id, gathered in ready))`
unfoldable pub launch : Setup → List (String × Dict String Value) → Launched
unfolding find_node launch_with
launch setup [] = launched []
launch setup ((node_id, inputs) ∷ rest) = elim (find_node setup node_id) [
  | not_found e ↦ launch_failed e
  | found node d ↦ launch_with (execute_node setup node d inputs) (launch setup rest)
]

-- `for out_slot, value in node_result.outputs.items()`
unfoldable pub publish : Dict SlotKey Value → String → Dict String Value → Dict SlotKey Value
publish available node_id [] = available
publish available node_id ((slot, v) ∷ outputs) =
    publish (put available (node_id, some slot) v) node_id outputs

-- `result[node_id] = record.inputs[definition.result_slot]`; `none` is the KeyError
unfoldable pub capture :
    Dict String Value → String → Dict String Value → Option String → Option (Dict String Value)
capture result node_id inputs none = some result
capture result node_id inputs (some slot) = elim (get inputs slot) [
  | none ↦ none
  | some v ↦ some (put result node_id v)
]

-- What happens to the state for every node of the round, whether it failed or not.
unfoldable pub settle : RunState → Completed → RunState
settle s c = record s {
  pending = remove s.pending c.node_id;
  finished = c.node_id ∷ s.finished;
  trace = s.trace ++ c.trace_entry ∷ [];
  events = s.events ++ recorded c.trace_entry ∷ [];
}

pub data Step : Type 0 where
  next : RunState → Step
  stopped : RunState → Step
  crashed : RunError → List Event → Step

unfoldable pub store_outputs : RunState → Completed → NodeResult → Option (Dict String Value) → Step
store_outputs s c r none = crashed (no_such_input c.node_id) s.events
store_outputs s c r (some result) =
    next (record s { available = publish s.available c.node_id r.outputs; result = result })

-- `if node_result is not None`
unfoldable pub publish_result : Setup → RunState → Completed → Option NodeResult → Step
unfolding find_node store_outputs
publish_result setup s c none = next s
publish_result setup s c (some r) = elim (find_node setup c.node_id) [
  | not_found e ↦ crashed e s.events
  | found node d ↦
      store_outputs s c r (capture s.result c.node_id (entry c.trace_entry).inputs d.result_slot)
]

-- `for node_id, node_result, record in round_results`
unfoldable pub collect : Setup → RunState → List Completed → Step
unfolding settle publish_result
collect setup s [] = next s
collect setup s (c ∷ cs) = elim (publish_result setup (settle s c) c c.node_result) [
  | next s' ↦ collect setup s' cs
  | stopped s' ↦ stopped s'
  | crashed e events ↦ crashed e events
]

unfoldable pub run_ready : Setup → RunState → Launched → Step
run_ready setup s (launch_failed e) = crashed e s.events
run_ready setup s (launched cs) = collect setup s cs

abbrev pub after_start : RunState → Scan → RunState
after_start s c = record s {
  pending = c.pending;
  finished = c.finished;
  events = s.events ++ round_start (map (λ p. p.0) c.ready_nodes) ∷ [];
}

-- `if not ready: break`, or the round itself
unfoldable pub after_scan : Setup → RunState → Scan → List (String × Dict String Value) → Step
unfolding run_ready
after_scan setup s c [] = stopped (record s { pending = c.pending; finished = c.finished })
after_scan setup s c (n ∷ ns) = run_ready setup (after_start s c) (launch setup (n ∷ ns))

abbrev pub start_scan : RunState → Scan
start_scan s = record { pending = s.pending; finished = s.finished; ready_nodes = [] }

unfoldable pub round : Setup → RunState → Step
unfolding after_scan
round setup s = elim (scan setup s (start_scan s) s.pending) [
  | scan_failed e ↦ crashed e s.events
  | scanned c ↦ after_scan setup s c c.ready_nodes
]
