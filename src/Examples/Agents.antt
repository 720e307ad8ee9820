-- ===== src/Examples/Agents.antt =====
-- An agent with a model, a tool and a memory: it calls its tool, a tool that is not there, and answers.
use agent_graph_studio.Prelude.{
  string_eq, ℕ, zero, suc, String, ◌≡◌, refl, false, none, some, List, [], ◌∷◌, arith, nat_eq,
  pair_eq, option_eq,
}
use agent_graph_studio.Prelude.Dict.{Dict, get, put}
use agent_graph_studio.Schema.Value.{Value, text}
use agent_graph_studio.Schema.Models.{EdgeSpec, GraphSpec, index_nodes}
use agent_graph_studio.Registry.{effective_inputs, get_type}
use agent_graph_studio.Connections.Store.{ConnectionProfile}
use agent_graph_studio.Execution.Trace.{
  Resource, profile_table, ExecutionContext, Execution, returned, raised, NodeResult, no_cost,
  no_children,
}
use agent_graph_studio.Execution.RunGraph.{run_resources, sub_nodes_from}
use agent_graph_studio.Api.Runs.Activity.{on_activities}
use agent_graph_studio.Nodes.Agent.State.{
  AgentError, Message, ToolCallRequest, ToolCallResponse, Completion, completed, Agent,
}
use agent_graph_studio.Nodes.Agent.Loop.{agent_round, agent_rounds}
use agent_graph_studio.Nodes.Agent.Setup.{Backends, ModelConfig, execute_agent, first_state}
use agent_graph_studio.Nodes.Agent.Activity.{execute_agent-on_activities}
use agent_graph_studio.Nodes.Agent.Confined.{AllChildren, IsConfined, execute_agent-IsConfined}
use agent_graph_studio.Nodes.Agent.Found.{wired}
use agent_graph_studio.Nodes.Agent.Window.{handed_last, agent_rounds-handed_last}
use agent_graph_studio.Examples.Graphs.{types, node, graph, tool_edge}

abbrev slot_edge : String → String → String → EdgeSpec
slot_edge source target slot = record (tool_edge source target) { slot = some slot }

-- `m` is the model of `ag`, `mem` its memory, `g` its tool group, and `t` the tool.
abbrev agent_graph : GraphSpec
agent_graph =
    graph
      (node "ag" "agent"
        ∷ node "m" "model"
        ∷ node "mem" "memory"
        ∷ node "g" "group"
        ∷ node "t" "src"
        ∷ [])
      (slot_edge "m" "ag" "model"
        ∷ slot_edge "mem" "ag" "memory"
        ∷ slot_edge "g" "ag" "tools"
        ∷ slot_edge "t" "g" "tools"
        ∷ [])

abbrev tool_call : String → ToolCallRequest
tool_call name = record { id = "1"; name = name; arguments = []; metadata = none }

abbrev calls_tools : ToolCallResponse
calls_tools = record {
  text = none;
  tool_calls = tool_call "t" ∷ tool_call "m" ∷ [];
  input_tokens = 5;
  output_tokens = 2;
}

abbrev answers : ToolCallResponse
answers = record { text = some "done"; tool_calls = []; input_tokens = 7; output_tokens = 1 }

abbrev replies : ℕ → List Message → Completion
replies zero messages = completed calls_tools
replies (suc n) messages = completed answers

abbrev model_config : ModelConfig
model_config = record { connection = "llm"; model = "m"; system_prompt = ""; max_tokens = 10 }

backends : Backends
backends = record {
  max_iterations = λ c. some 3;
  model_config = λ c. some model_config;
  max_messages = λ c. some 2;
  tool_calling = λ p. some (λ config definitions n messages. replies n messages);
}

abbrev profile : ConnectionProfile
profile = record { name = "llm"; type = "openai"; config = []; user_id = none }

abbrev given_resources : Dict String Resource
given_resources = ("connection_profiles", profile_table (("llm", profile) ∷ [])) ∷ []

ctx : ExecutionContext
ctx = record {
  node = node "ag" "agent";
  inputs = ("task", text "go") ∷ [];
  resources = run_resources agent_graph given_resources;
}

abbrev dumps : Dict String Value → String
dumps d = "outputs"

abbrev say : AgentError → String
say e = "error"

abbrev agent_answer : Execution → NodeResult
agent_answer (returned r) = r
agent_answer (raised m) = record {
  outputs = [];
  token_cost = no_cost;
  side_effect = false;
  child_traces = no_children;
}

agent_result : NodeResult
agent_result = agent_answer (execute_agent backends dumps say types ctx).execution

agent_returns : (execute_agent backends dumps say types ctx).execution ≡ returned agent_result
unfolding agent_result execute_agent backends ctx run_resources index_nodes sub_nodes_from get put
    get_type effective_inputs agent_round
agent_returns = refl

execute_agent-IsConfined_example :
    AllChildren (IsConfined say (wired agent_graph.edges "ag")) agent_result.child_traces
unfolding ctx
execute_agent-IsConfined_example =
    execute_agent-IsConfined backends dumps say agent_graph given_resources types ctx agent_result
      refl agent_returns

abbrev no_counts : Dict String ℕ
no_counts = []

execute_agent-on_activities_example :
    get (on_activities no_counts (execute_agent backends dumps say types ctx).activity) "t"
    ≡ get no_counts "t"
unfolding get
execute_agent-on_activities_example =
    execute_agent-on_activities backends dumps say types ctx no_counts "t" 0 refl

abbrev remembering : Agent
remembering = record {
  agent_id = "ag";
  model_id = "m";
  memory = some ("mem", 2);
  group_id = none;
  tool_ids = [];
  tool_definitions = [];
  nodes_by_id = [];
  registry = types;
  resources = [];
  complete = replies;
}

agent_rounds-handed_last_example :
    agent_rounds dumps say remembering 3 3 0 (first_state (text "go"))
    ≡ agent_rounds dumps say (handed_last remembering "mem" 2) 3 3 0 (first_state (text "go"))
agent_rounds-handed_last_example =
    agent_rounds-handed_last dumps say remembering "mem" 2 refl (omega arith) 3 3 0
      (first_state (text "go"))
