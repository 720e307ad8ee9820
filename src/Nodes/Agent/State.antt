-- ===== src/Nodes/Agent/State.antt =====
-- backend/nodes/agent.py: the messages of an agent, its tools, and the state of its loop. The model is a
-- parameter: its answer to the messages of each round. Calls of `on_sub_node_activity` are recorded in
-- their order.
use agent_graph_studio.Prelude.{
  drop, ltb, if◌then◌else◌, string_eq, length, filter_list, ℕ, zero, suc, ◌-◌, String, ◌⊎◌, inl,
  inr, Bool, Option, none, some, List, [], ◌∷◌, map, nat_eq, pair_eq, option_eq,
}
use agent_graph_studio.Prelude.Dict.{Dict}
use agent_graph_studio.Schema.Value.{Value}
use agent_graph_studio.Schema.Models.{NodeSpec}
use agent_graph_studio.Registry.{
  NodeRegistry, NodeDefinition, InputSlotSpec, effective_inputs, get_type,
}
use agent_graph_studio.Execution.Trace.{TraceRecord, Resource}

-- backend/connections/base.py
pub record ToolCallRequest : Type 0 where
  pub id : String
  pub name : String
  pub arguments : Dict String Value
  pub metadata : Option (Dict String Value)

pub record ToolCallResponse : Type 0 where
  pub text : Option String
  pub tool_calls : List ToolCallRequest
  pub input_tokens : ℕ
  pub output_tokens : ℕ

-- `parameters` by its two parts: the names of the properties, and those that are required.
pub record ToolDefinition : Type 0 where
  pub name : String
  pub node_type : String
  pub properties : List String
  pub required : List String

pub data Completion : Type 0 where
  completed : ToolCallResponse → Completion
  model_failed : String → Completion

pub data Message : Type 0 where
  user : Value → Message
  nudge : Message
  assistant : String → List ToolCallRequest → Message
  tool_result : String → String → String → Message

pub data AgentError : Type 0 where
  model_count tool_group_count : String → ℕ → AgentError
  no_profile no_tool_calling no_such_tool unresolvable_schema : String → AgentError
  unregistered_type : String → String → AgentError
  model_call_failed : String → AgentError
  no_such_node invalid_config : String → AgentError
  out_of_iterations : ℕ → AgentError
  no_input : AgentError

-- `messages[-max_messages:] if len(messages) > max_messages else messages`
-- With 0 the slice `messages[-0:]` is the whole list.
unfoldable pub apply_memory_window : List Message → ℕ → List Message
apply_memory_window messages zero = messages
apply_memory_window messages (suc n) =
    if ltb (suc n) (length messages) then drop (length messages - suc n) messages else messages

-- `_tool_definition`
unfoldable pub schema_of : NodeSpec → Option (List InputSlotSpec) → ToolDefinition ⊎ AgentError
schema_of node none = inr (unresolvable_schema node.id)
schema_of node (some inputs) = inl (record {
  name = node.id;
  node_type = node.type;
  properties = map (λ (s : InputSlotSpec). s.name) inputs;
  required =
      map (λ (s : InputSlotSpec). s.name) (filter_list (λ (s : InputSlotSpec). s.required) inputs);
})

unfoldable pub defined_tool : NodeSpec → Option NodeDefinition → ToolDefinition ⊎ AgentError
unfolding schema_of
defined_tool node none = inr (unregistered_type node.id node.type)
defined_tool node (some d) = schema_of node (effective_inputs d node)

unfoldable pub tool_definition : NodeRegistry → NodeSpec → ToolDefinition ⊎ AgentError
unfolding defined_tool
tool_definition registry node = defined_tool node (get_type registry node.type)

-- What `execute_agent` has looked up before its loop.
pub record Agent : Type 0 where
  pub agent_id : String
  pub model_id : String
  pub memory : Option (String × ℕ)
  pub group_id : Option String
  pub tool_ids : List String
  pub tool_definitions : List ToolDefinition
  pub nodes_by_id : Dict String NodeSpec
  pub registry : NodeRegistry
  pub resources : Dict String Resource
  -- the model's answer to the messages of a round
  pub complete : ℕ → List Message → Completion

pub record AgentState : Type 0 where
  pub messages : List Message
  pub child_traces : List TraceRecord
  pub input_tokens : ℕ
  pub output_tokens : ℕ
  pub tools_ever_called : Bool
  pub nudge_used : Bool
  pub activity : List (String × Bool)

-- The ids that are marked while the model runs: its own, and the memory's.
abbrev pub in_call : Agent → List String
in_call a = a.model_id ∷ elim (a.memory) [ none ↦ [] | some (id, n) ↦ id ∷ [] ]

abbrev pub in_group : Agent → List String
in_group a = elim (a.group_id) [ none ↦ [] | some id ↦ id ∷ [] ]

-- `_notify_sub_node_activity` for each id
abbrev pub marks : Bool → List String → List (String × Bool)
marks active [] = []
marks active (id ∷ ids) = (id, active) ∷ marks active ids

unfoldable pub windowed : Agent → List Message → List Message
unfolding apply_memory_window
windowed a messages = elim (a.memory) [
  | none ↦ messages
  | some (id, n) ↦ apply_memory_window messages n
]
