-- ===== src/Examples/Graphs.antt =====
-- Node types and graphs for the examples: `src` produces a text, `dst` needs one, `bad` raises.
use agent_graph_studio.Prelude.{string_eq, String, true, false, none, some, List, [], ◌∷◌}
use agent_graph_studio.Schema.Value.{text}
use agent_graph_studio.Schema.Types.{text_slot}
use agent_graph_studio.Schema.Models.{EdgeSpec, data_flow, sub_node, NodeSpec, GraphSpec}
use agent_graph_studio.Registry.{InputSlotSpec, OutputSlotSpec, NodeDefinition, NodeRegistry, many}
use agent_graph_studio.Execution.Trace.{
  ExecutionContext, Execution, returned, raised, no_cost, no_children,
}

abbrev pub plain_definition :
    String
    → List InputSlotSpec
    → List OutputSlotSpec
    → (ExecutionContext → Execution)
    → NodeDefinition
plain_definition name inputs outputs execute = record {
  type_name = name;
  inputs = inputs;
  outputs = outputs;
  config_model = λ c. none;
  execute = execute;
  category = "core";
  result_slot = none;
  resolve_slots = none;
  sub_node_slots = none;
  sub_node_role = none;
  resolve_slots_from_sub_node = none;
  integration = none;
  capability_group = none;
}

abbrev pub says_hi : ExecutionContext → Execution
says_hi ctx = returned (record {
  outputs = ("out", text "hi") ∷ [];
  token_cost = no_cost;
  side_effect = false;
  child_traces = no_children;
})

abbrev pub is_silent : ExecutionContext → Execution
is_silent ctx =
    returned (record {
      outputs = [];
      token_cost = no_cost;
      side_effect = false;
      child_traces = no_children;
    })

abbrev pub out_slots : List OutputSlotSpec
out_slots = record { name = "out"; type = text_slot } ∷ []

abbrev pub in_input : InputSlotSpec
in_input = record { name = "in"; type = text_slot; required = true }

abbrev pub src_definition : NodeDefinition
src_definition = plain_definition "src" [] out_slots says_hi

abbrev pub dst_definition : NodeDefinition
dst_definition = record (plain_definition "dst" (in_input ∷ []) [] is_silent) {
  result_slot = some "in";
}

abbrev pub bad_definition : NodeDefinition
bad_definition = plain_definition "bad" [] out_slots (λ ctx. raised "no")

-- a root whose slot `tools` takes any nodes
abbrev pub root_definition : NodeDefinition
root_definition = record (plain_definition "root" [] [] is_silent) {
  sub_node_slots = some (("tools", record { cardinality = many; accepts_role = none }) ∷ []);
}

abbrev pub types : NodeRegistry
types =
    ("src", src_definition)
    ∷ ("dst", dst_definition)
    ∷ ("bad", bad_definition)
    ∷ ("root", root_definition)
    ∷ []

abbrev pub node : String → String → NodeSpec
node id type = record { id = id; type = type; config = []; input_values = [] }

abbrev pub data_edge : String → String → EdgeSpec
data_edge source target = record {
  kind = data_flow;
  from_ = record { node = source; slot = some "out" };
  to = record { node = target; slot = some "in" };
  slot = none;
}

abbrev pub tool_edge : String → String → EdgeSpec
tool_edge source target = record {
  kind = sub_node;
  from_ = record { node = source; slot = none };
  to = record { node = target; slot = none };
  slot = some "tools";
}

abbrev pub graph : List NodeSpec → List EdgeSpec → GraphSpec
graph nodes edges = record { version = "1"; nodes = nodes; edges = edges }

-- `a` feeds `b`
abbrev pub chain : GraphSpec
chain = graph (node "b" "dst" ∷ node "a" "src" ∷ []) (data_edge "a" "b" ∷ [])

-- `a` raises, and `b` needs its output
abbrev pub broken : GraphSpec
broken = graph (node "a" "bad" ∷ node "b" "dst" ∷ []) (data_edge "a" "b" ∷ [])

-- `a` is a tool of `r`, and `b` needs its output
abbrev pub starved : GraphSpec
starved =
    graph (node "a" "src" ∷ node "r" "root" ∷ node "b" "dst" ∷ [])
      (tool_edge "a" "r" ∷ data_edge "a" "b" ∷ [])

abbrev pub no_times : String → String × String
no_times id = ("", "")
