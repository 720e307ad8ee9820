-- ===== src/Nodes/Agent/Loop.antt =====
-- backend/nodes/agent.py: the reasoning loop. `dumps` is `json.dumps`, and `say` gives the text of an error;
-- ids and times of tool calls are opaque.
use Prim.Native.String.{◌++◌ as str_append}
use agent_graph_studio.Prelude.{
  ltb, if◌then◌else◌, string_eq, length, contains, ℕ, zero, suc, ◌+◌, String, ◌⊎◌, inl, inr, true,
  false, not, ◌&&◌, Option, none, some, List, [], ◌∷◌, ◌++◌, nat_eq, pair_eq, option_eq,
}
use agent_graph_studio.Prelude.Dict.{Dict, get}
use agent_graph_studio.Schema.Value.{Value}
use agent_graph_studio.Schema.Models.{NodeSpec}
use agent_graph_studio.Registry.{NodeDefinition, get_type}
use agent_graph_studio.Execution.Trace.{
  TraceRecord, trace_record, no_children, no_cost, Resource, Execution, returned, raised,
}
use agent_graph_studio.Nodes.Agent.State.{
  ToolCallRequest, ToolCallResponse, Completion, completed, model_failed, nudge, assistant,
  tool_result, AgentError, no_such_tool, unregistered_type, model_call_failed, out_of_iterations,
  Agent, AgentState, in_call, in_group, marks, windowed,
}

-- `nodes_by_id.get(call.name) if call.name in tool_ids else None`
unfoldable pub tool_node : Agent → ToolCallRequest → Option NodeSpec
tool_node a call = if contains a.tool_ids call.name then get a.nodes_by_id call.name else none

pub data AgentStep : Type 0 where
  again : AgentState → AgentStep
  answered : String → AgentState → AgentStep
  failed : AgentError → AgentState → AgentStep

-- `response.text or ""`
abbrev pub said : ToolCallResponse → String
said r = elim (r.text) [ none ↦ "" | some t ↦ t ]

-- The branch of a response without tool calls.
unfoldable pub answer_step : Agent → AgentState → ToolCallResponse → AgentStep
answer_step a s r =
    if ltb 0 (length a.tool_definitions) && (not s.tools_ever_called && not s.nudge_used)
    then again (record s {
      nudge_used = true;
      messages = s.messages ++ assistant (said r) [] ∷ nudge ∷ [];
    })
    else answered (said r) s

-- The state in which the calls of a response start.
unfoldable pub begun : Agent → AgentState → ToolCallResponse → AgentState
begun a s r = record s {
  tools_ever_called = true;
  messages = s.messages ++ assistant (said r) r.tool_calls ∷ [];
  activity = s.activity ++ marks true (in_group a);
}

-- The state after the `finally` of the model's call.
unfoldable pub after_completion_call : Agent → AgentState → AgentState
after_completion_call a s = record s {
  activity = s.activity ++ marks true (in_call a) ++ marks false (in_call a);
}

pub record AgentEnd : Type 0 where
  pub outcome : (String ⊎ AgentError)
  pub rounds : ℕ
  pub state : AgentState

module _ (dumps : Dict String Value → String) (say : AgentError → String) where
  -- A record of a tool call: `child_traces` of a tool's result are not kept.
  unfoldable pub tool_record : String → String → Dict String Value → Execution → TraceRecord
  tool_record id type inputs (returned r) =
      trace_record
        (record {
          run_id = "";
          node_id = id;
          node_type = type;
          started_at = "";
          finished_at = "";
          inputs = inputs;
          outputs = r.outputs;
          token_cost = r.token_cost;
          side_effect = r.side_effect;
          error = none;
        })
        no_children
  tool_record id type inputs (raised message) =
      trace_record
        (record {
          run_id = "";
          node_id = id;
          node_type = type;
          started_at = "";
          finished_at = "";
          inputs = inputs;
          outputs = [];
          token_cost = no_cost;
          side_effect = false;
          error = some message;
        })
        no_children

  -- `f"Error: {error_text}"`, or the outputs as JSON
  abbrev pub tool_text : Execution → String
  tool_text (returned r) = dumps r.outputs
  tool_text (raised message) = str_append "Error: " message

  -- The call inside the `try` of `_run_tool`.
  unfoldable pub call_tool :
      NodeSpec → Dict String Value → Dict String Resource → Option NodeDefinition → Execution
  call_tool node arguments resources none = raised (say (unregistered_type node.id node.type))
  call_tool node arguments resources (some d) =
      d.execute (record { node = node; inputs = arguments; resources = resources })

  unfoldable pub run_tool : Agent → ToolCallRequest → NodeSpec → TraceRecord × String
  unfolding call_tool tool_record
  run_tool a call node =
      let outcome = call_tool node call.arguments a.resources (get_type a.registry node.type) in
      (tool_record node.id node.type call.arguments outcome, tool_text outcome)

  -- The messages and traces of one call, with the marks of its tool.
  unfoldable pub call_step : Agent → AgentState → ToolCallRequest → Option NodeSpec → AgentState
  unfolding run_tool tool_record
  call_step a s call none =
      let message = say (no_such_tool call.name) in
      record s {
        child_traces =
            s.child_traces ++ tool_record call.name "unknown" call.arguments (raised message) ∷ [];
        messages = s.messages ++ tool_result call.id call.name message ∷ [];
      }
  call_step a s call (some node) =
      let (r, content) = run_tool a call node in
      record s {
        child_traces = s.child_traces ++ r ∷ [];
        messages = s.messages ++ tool_result call.id call.name content ∷ [];
        activity = s.activity ++ (node.id, true) ∷ (node.id, false) ∷ [];
      }

  -- `for call in response.tool_calls`
  unfoldable pub run_calls : Agent → AgentState → List ToolCallRequest → AgentState
  unfolding call_step tool_node
  run_calls a s [] = s
  run_calls a s (call ∷ calls) = run_calls a (call_step a s call (tool_node a call)) calls

  unfoldable pub tool_step : Agent → AgentState → ToolCallResponse → AgentState
  unfolding run_calls begun
  tool_step a s r =
      let ended = run_calls a (begun a s r) r.tool_calls in
      record ended { activity = ended.activity ++ marks false (in_group a) }

  unfoldable pub response_step :
      Agent → AgentState → ToolCallResponse → List ToolCallRequest → AgentStep
  unfolding answer_step tool_step
  response_step a s r [] = answer_step a s r
  response_step a s r (call ∷ calls) = again (tool_step a s r)

  unfoldable pub completion_step : Agent → AgentState → Completion → AgentStep
  unfolding response_step
  completion_step a s (model_failed message) = failed (model_call_failed message) s
  completion_step a s (completed r) =
      response_step a
        (record s {
          input_tokens = s.input_tokens + r.input_tokens;
          output_tokens = s.output_tokens + r.output_tokens;
        })
        r r.tool_calls

  unfoldable pub agent_round : Agent → ℕ → AgentState → AgentStep
  unfolding completion_step after_completion_call windowed
  agent_round a n s =
      completion_step a (after_completion_call a s) (a.complete n (windowed a s.messages))

  -- `for _ in range(config.max_iterations)`; `n` is the number of the round
  unfoldable pub agent_rounds : Agent → ℕ → ℕ → ℕ → AgentState → AgentEnd
  agent_rounds a limit zero n s = record {
    outcome = inr (out_of_iterations limit);
    rounds = n;
    state = s;
  }
  agent_rounds a limit (suc left) n s = elim (agent_round a n s) [
    | again s' ↦ agent_rounds a limit left (suc n) s'
    | answered answer s' ↦ record { outcome = inl answer; rounds = suc n; state = s' }
    | failed e s' ↦ record { outcome = inr e; rounds = suc n; state = s' }
  ]
