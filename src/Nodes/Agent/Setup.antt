-- ===== src/Nodes/Agent/Setup.antt =====
-- backend/nodes/agent.py: what `execute_agent` looks up before its loop, and the whole of it. The config
-- models and the connection types are parameters.
use agent_graph_studio.Prelude.{
  string_eq, length, ℕ, String, ◌⊎◌, inl, inr, Bool, false, Option, none, some, List, [], ◌∷◌,
  nat_eq, pair_eq, option_eq,
}
use agent_graph_studio.Prelude.Dict.{Dict, get}
use agent_graph_studio.Schema.Value.{Value, text}
use agent_graph_studio.Schema.Models.{NodeSpec}
use agent_graph_studio.Registry.{NodeRegistry}
use agent_graph_studio.Connections.Store.{ConnectionProfile}
use agent_graph_studio.Execution.Trace.{
  TraceRecord, Resource, node_table, sub_node_table, profile_table, given, ChildTraces, no_children,
  children, TraceLists, no_lists, list_then, no_traces, trace_then, ExecutionContext, Execution,
  returned, raised,
}
use agent_graph_studio.Nodes.Agent.State.{
  ToolDefinition, Completion, Message, user, AgentError, model_count, tool_group_count, no_profile,
  no_tool_calling, no_such_tool, no_such_node, invalid_config, no_input, tool_definition, Agent,
  AgentState,
}
use agent_graph_studio.Nodes.Agent.Loop.{AgentEnd, agent_rounds}

infixl 5 ◌>>=◌
abbrev pub ◌>>=◌ {ℓ κ} :
    {A : Type ℓ} {B : Type κ} → A ⊎ AgentError → (A → B ⊎ AgentError) → B ⊎ AgentError
inl a >>= f = f a
inr e >>= f = inr e

abbrev pub or_fail {ℓ} : {A : Type ℓ} → Option A → AgentError → A ⊎ AgentError
or_fail none e = inr e
or_fail (some a) e = inl a

pub record ModelConfig : Type 0 where
  pub connection : String
  pub model : String
  pub system_prompt : String
  pub max_tokens : ℕ

-- A connection type as the loop uses it: `complete_with_tools` for a profile whose config is valid.
pub record Backends : Type 0 where
  -- `AgentConfig.model_validate(config).max_iterations`, and the other two models
  pub max_iterations : Dict String Value → Option ℕ
  pub model_config : Dict String Value → Option ModelConfig
  pub max_messages : Dict String Value → Option ℕ
  pub tool_calling :
      ConnectionProfile → Option (ModelConfig → List ToolDefinition → ℕ → List Message → Completion)

abbrev pub SubNodeTable : Type 0
SubNodeTable = Dict (String × Option String) (List String)

-- `ctx.resources.get(…, {})`
abbrev pub nodes_in : Option Resource → Dict String NodeSpec
nodes_in (some (node_table d)) = d
nodes_in (some (given v)) = []
nodes_in (some (profile_table d)) = []
nodes_in (some (sub_node_table d)) = []
nodes_in none = []

abbrev pub sub_nodes_in : Option Resource → SubNodeTable
sub_nodes_in (some (sub_node_table d)) = d
sub_nodes_in (some (given v)) = []
sub_nodes_in (some (profile_table d)) = []
sub_nodes_in (some (node_table d)) = []
sub_nodes_in none = []

abbrev pub profiles_in : Option Resource → Dict String ConnectionProfile
profiles_in (some (profile_table d)) = d
profiles_in (some (given v)) = []
profiles_in (some (node_table d)) = []
profiles_in (some (sub_node_table d)) = []
profiles_in none = []

-- `sub_nodes.get(key, [])`
abbrev pub ids_in : Option (List String) → List String
ids_in none = []
ids_in (some ids) = ids

-- `if len(model_ids) != 1: raise`
unfoldable pub one_model : String → List String → String ⊎ AgentError
one_model agent_id [] = inr (model_count agent_id 0)
one_model agent_id (id ∷ []) = inl id
one_model agent_id (id ∷ j ∷ ids) = inr (model_count agent_id (length (id ∷ j ∷ ids)))

-- `nodes_by_id[id]`, where an error is the KeyError
unfoldable pub node_at : Dict String NodeSpec → String → NodeSpec ⊎ AgentError
node_at nodes id = or_fail (get nodes id) (no_such_node id)

unfoldable pub memory_of :
    Backends → Dict String NodeSpec → List String → Option (String × ℕ) ⊎ AgentError
unfolding node_at
memory_of b nodes [] = inl none
memory_of b nodes (id ∷ ids) = do
  node ← node_at nodes id
  n ← or_fail (b.max_messages node.config) (invalid_config id)
  inl (some (id, n))

-- `if len(tool_group_ids) > 1: raise`
unfoldable pub group_of : String → List String → Option String ⊎ AgentError
group_of agent_id [] = inl none
group_of agent_id (id ∷ []) = inl (some id)
group_of agent_id (id ∷ j ∷ ids) = inr (tool_group_count agent_id (length (id ∷ j ∷ ids)))

abbrev pub tools_of : SubNodeTable → Option String → List String
tools_of sub_nodes none = []
tools_of sub_nodes (some group) = ids_in (get sub_nodes (group, some "tools"))

-- `for tool_id in tool_ids`
unfoldable pub definitions_of :
    NodeRegistry → Dict String NodeSpec → List String → List ToolDefinition ⊎ AgentError
unfolding tool_definition
definitions_of registry nodes [] = inl []
definitions_of registry nodes (id ∷ ids) = do
  node ← or_fail (get nodes id) (no_such_tool id)
  d ← tool_definition registry node
  ds ← definitions_of registry nodes ids
  inl (d ∷ ds)

unfoldable pub agent_of :
    Backends → NodeRegistry → Dict String Resource → String → Agent ⊎ AgentError
unfolding one_model node_at memory_of group_of definitions_of
agent_of b registry resources agent_id =
    let nodes = nodes_in (get resources "nodes_by_id") in
    let sub_nodes = sub_nodes_in (get resources "sub_nodes") in
    do
      model_id ← one_model agent_id (ids_in (get sub_nodes (agent_id, some "model")))
      model_node ← node_at nodes model_id
      config ← or_fail (b.model_config model_node.config) (invalid_config model_id)
      memory ← memory_of b nodes (ids_in (get sub_nodes (agent_id, some "memory")))
      group ← group_of agent_id (ids_in (get sub_nodes (agent_id, some "tools")))
      profile ←
          or_fail (get (profiles_in (get resources "connection_profiles")) config.connection)
            (no_profile config.connection)
      complete ← or_fail (b.tool_calling profile) (no_tool_calling config.connection)
      definitions ← definitions_of registry nodes (tools_of sub_nodes group)
      inl (record {
        agent_id = agent_id;
        model_id = model_id;
        memory = memory;
        group_id = group;
        tool_ids = tools_of sub_nodes group;
        tool_definitions = definitions;
        nodes_by_id = nodes;
        registry = registry;
        resources = resources;
        complete = complete config definitions;
      })

abbrev pub first_state : Value → AgentState
first_state task = record {
  messages = user task ∷ [];
  child_traces = [];
  input_tokens = 0;
  output_tokens = 0;
  tools_ever_called = false;
  nudge_used = false;
  activity = [];
}

abbrev pub singletons : List TraceRecord → TraceLists
singletons [] = no_lists
singletons (r ∷ rs) = list_then (trace_then r no_traces) (singletons rs)

-- `child_traces or None`
abbrev pub children_of : List TraceRecord → ChildTraces
children_of [] = no_children
children_of (r ∷ rs) = children (singletons (r ∷ rs))

-- How the node's `execute` ends, and the calls of `on_sub_node_activity` that it made.
pub record AgentRun : Type 0 where
  pub execution : Execution
  pub activity : List (String × Bool)

module _ (b : Backends) (dumps : Dict String Value → String) (say : AgentError → String) where
  abbrev pub failed_run : AgentError → AgentRun
  failed_run e = record { execution = raised (say e); activity = [] }

  execution_of : AgentState → String ⊎ AgentError → Execution
  execution_of s (inr e) = raised (say e)
  execution_of s (inl answer) = returned (record {
    outputs = ("answer", text answer) ∷ [];
    token_cost = record { input_tokens = s.input_tokens; output_tokens = s.output_tokens };
    side_effect = false;
    child_traces = children_of s.child_traces;
  })

  unfoldable pub run_of_end : AgentEnd → AgentRun
  unfolding execution_of
  run_of_end e = record { execution = execution_of e.state e.outcome; activity = e.state.activity }

  -- From the lookups on; `max_iterations` and the task are read before and after them.
  unfoldable pub run_agent : ℕ → Option Value → Agent ⊎ AgentError → AgentRun
  unfolding run_of_end agent_rounds
  run_agent limit task (inr e) = failed_run e
  run_agent limit none (inl a) = failed_run no_input
  run_agent limit (some task) (inl a) =
      run_of_end (agent_rounds dumps say a limit limit 0 (first_state task))

  unfoldable pub start_agent : NodeRegistry → ExecutionContext → Option ℕ → AgentRun
  unfolding run_agent agent_of
  start_agent registry ctx none = failed_run (invalid_config ctx.node.id)
  start_agent registry ctx (some limit) =
      run_agent limit (get ctx.inputs "task") (agent_of b registry ctx.resources ctx.node.id)

  unfoldable pub execute_agent : NodeRegistry → ExecutionContext → AgentRun
  unfolding start_agent
  execute_agent registry ctx = start_agent registry ctx (b.max_iterations ctx.node.config)
