-- ===== src/Nodes/Agent/Confined.antt =====
-- backend/nodes/agent.py: which nodes of the graph an agent's tool calls reach.
use agent_graph_studio.Prelude.{
  ltb, if◌then◌else◌, Bool-cases, string_eq, length, All, All-append, All-map, contains, ℕ, zero,
  suc, String, ◌≡◌, refl, sym, ap, subst, ◌⊎◌, inl, inr, Bool, true, not, ◌&&◌, Option, none, some,
  List, [], ◌∷◌, arith, nat_eq, pair_eq, option_eq,
}
use agent_graph_studio.Prelude.Dict.{Dict, get}
use agent_graph_studio.Schema.Value.{Value}
use agent_graph_studio.Schema.Models.{NodeSpec, GraphSpec}
use agent_graph_studio.Execution.Trace.{
  TraceRecord, entry, Execution, returned, raised, ExecutionContext, Resource, NodeResult,
  ChildTraces, no_children, children, TraceLists, no_lists, list_then, Traces, no_traces,
  trace_then,
}
use agent_graph_studio.Registry.{NodeRegistry, get_type}
use agent_graph_studio.Execution.RunGraph.{run_resources}
use agent_graph_studio.Nodes.Agent.State.{
  AgentError, no_such_tool, Agent, AgentState, Completion, completed, model_failed, ToolCallRequest,
  ToolCallResponse, windowed,
}
use agent_graph_studio.Nodes.Agent.Loop.{
  AgentStep, again, answered, failed, AgentEnd, call_step, run_calls, tool_node, run_tool,
  tool_record, call_tool, answer_step, tool_step, begun, response_step, after_completion_call,
  completion_step, agent_round, agent_rounds,
}
use agent_graph_studio.Nodes.Agent.Setup.{
  Backends, first_state, run_of_end, run_agent, start_agent, execute_agent, agent_of, children_of,
  singletons,
}
use agent_graph_studio.Nodes.Agent.Found.{
  IsFound, agent_of-IsFound, tool_ids-wired, nodes_by_id-indexed, wired,
}

abbrev AllTraces : (TraceRecord → Type 0) → Traces → Type 0
AllTraces P no_traces = Unit
AllTraces P (trace_then r rs) = P r × AllTraces P rs

abbrev AllLists : (TraceRecord → Type 0) → TraceLists → Type 0
AllLists P no_lists = Unit
AllLists P (list_then rs ls) = AllTraces P rs × AllLists P ls

-- The predicate holds of all records one level below.
abbrev pub AllChildren : (TraceRecord → Type 0) → ChildTraces → Type 0
AllChildren P no_children = Unit
AllChildren P (children ls) = AllLists P ls

-- The record is of an allowed node, or of a call that was refused before anything ran.
abbrev pub IsConfined : (AgentError → String) → (String → Bool) → TraceRecord → Type 0
IsConfined say allowed r =
    (allowed (entry r).node_id ≡ true)
    ⊎ ((entry r).outputs ≡ []) × ((entry r).error ≡ some (say (no_such_tool (entry r).node_id)))

module _ (dumps : Dict String Value → String) (say : AgentError → String) where
  module _ (a : Agent) where
    abbrev Confined : List TraceRecord → Type 0
    Confined = All (IsConfined say (contains a.tool_ids))

    abbrev ConfinedStep : AgentStep → Type 0
    ConfinedStep (again s) = Confined s.child_traces
    ConfinedStep (answered answer s) = Confined s.child_traces
    ConfinedStep (failed e s) = Confined s.child_traces

    module _
        (indexed : (id : String) (node : NodeSpec)
          → get a.nodes_by_id id ≡ some node
          → node.id ≡ id) where
      tool_node-allowed :
          (call : ToolCallRequest) (node : NodeSpec)
          → tool_node a call ≡ some node
          → contains a.tool_ids node.id ≡ true
      unfolding tool_node
      tool_node-allowed call node h = elim (Bool-cases (contains a.tool_ids call.name)) [
        | inl e ↦
            rw
              (indexed call.name node
                (subst (λ b. (if b then get a.nodes_by_id call.name else none) ≡ some node) e h))
              e
        | inr e ↦ absurd (ground arith)
      ]

      run_tool-node_id :
          (call : ToolCallRequest) (node : NodeSpec)
          → (entry (run_tool dumps say a call node).0).node_id ≡ node.id
      unfolding run_tool
      run_tool-node_id call node =
          by_outcome
            (call_tool dumps say node call.arguments a.resources (get_type a.registry node.type))
        where
          by_outcome :
              (o : Execution)
              → (entry (tool_record dumps say node.id node.type call.arguments o)).node_id ≡ node.id
          by_outcome (returned r) = unfold tool_record in refl
          by_outcome (raised m) = unfold tool_record in refl

      call_step-Confined :
          (s : AgentState) (call : ToolCallRequest) (o : Option NodeSpec)
          → tool_node a call ≡ o
          → Confined s.child_traces
          → Confined (call_step dumps say a s call o).child_traces
      unfolding call_step tool_record
      call_step-Confined s call none h v =
          All-append (IsConfined say (contains a.tool_ids)) s.child_traces _ v
            (inr (refl, refl), tt)
      call_step-Confined s call (some node) h v =
          All-append (IsConfined say (contains a.tool_ids)) s.child_traces _ v
            (inl (rw (run_tool-node_id call node) (tool_node-allowed call node h)), tt)

      run_calls-Confined :
          (calls : List ToolCallRequest) (s : AgentState)
          → Confined s.child_traces
          → Confined (run_calls dumps say a s calls).child_traces
      unfolding run_calls
      run_calls-Confined [] s v = v
      run_calls-Confined (call ∷ calls) s v =
          run_calls-Confined calls _ (call_step-Confined s call (tool_node a call) refl v)

      response_step-Confined :
          (s : AgentState) (r : ToolCallResponse) (calls : List ToolCallRequest)
          → Confined s.child_traces
          → ConfinedStep (response_step dumps say a s r calls)
      unfolding response_step answer_step tool_step begun
      response_step-Confined s r (call ∷ calls) v = run_calls-Confined r.tool_calls (begun a s r) v
      response_step-Confined s r [] v =
          elim (Bool-cases
            (ltb 0 (length a.tool_definitions) && (not s.tools_ever_called && not s.nudge_used))) [
              | inl h ↦ rw h v
              | inr h ↦ rw h v
            ]

      agent_round-Confined :
          (n : ℕ) (s : AgentState)
          → Confined s.child_traces
          → ConfinedStep (agent_round dumps say a n s)
      unfolding agent_round after_completion_call
      agent_round-Confined n s v =
          by_completion (a.complete n (windowed a s.messages)) (after_completion_call a s) v
        where
          by_completion :
              (c : Completion) (t : AgentState)
              → Confined t.child_traces
              → ConfinedStep (completion_step dumps say a t c)
          by_completion (model_failed message) t w = unfold completion_step in w
          by_completion (completed r) t w =
              unfold completion_step in response_step-Confined _ r r.tool_calls w

      agent_rounds-next :
          (left limit n : ℕ) (s : AgentState) (t : AgentStep)
          → agent_round dumps say a n s ≡ t
          → ConfinedStep t
          → ((u : AgentState)
              → Confined u.child_traces
              → Confined (agent_rounds dumps say a limit left (suc n) u).state.child_traces)
          → Confined (agent_rounds dumps say a limit (suc left) n s).state.child_traces
      unfolding agent_rounds
      agent_rounds-next left limit n s (again u) h v ih = rw (h, agent_rounds) (ih u v)
      agent_rounds-next left limit n s (answered x u) h v ih = rw (h, agent_rounds) v
      agent_rounds-next left limit n s (failed e u) h v ih = rw (h, agent_rounds) v

      agent_rounds-Confined :
          (left limit n : ℕ) (s : AgentState)
          → Confined s.child_traces
          → Confined (agent_rounds dumps say a limit left n s).state.child_traces
      agent_rounds-Confined zero limit n s v = unfold agent_rounds in v
      agent_rounds-Confined (suc left) limit n s v =
          agent_rounds-next left limit n s _ refl (agent_round-Confined n s v)
            (λ u w. agent_rounds-Confined left limit (suc n) u w)

AllLists-singletons :
    (P : TraceRecord → Type 0) (rs : List TraceRecord) → All P rs → AllLists P (singletons rs)
AllLists-singletons P [] h = tt
AllLists-singletons P (r ∷ rs) h = ((h.0, tt), AllLists-singletons P rs h.1)

children_of-AllChildren :
    (P : TraceRecord → Type 0) (rs : List TraceRecord) → All P rs → AllChildren P (children_of rs)
children_of-AllChildren P [] h = tt
children_of-AllChildren P (r ∷ rs) h = AllLists-singletons P (r ∷ rs) h

module _ (b : Backends) (dumps : Dict String Value → String) (say : AgentError → String) where
  run_of_end-Confined :
      (P : TraceRecord → Type 0) (e : AgentEnd) (o : String ⊎ AgentError) (r : NodeResult)
      → e.outcome ≡ o
      → All P e.state.child_traces
      → (run_of_end b dumps say e).execution ≡ returned r
      → AllChildren P r.child_traces
  unfolding run_of_end
  run_of_end-Confined P e (inr x) r h v k = absurd (ground (arith, h))
  run_of_end-Confined P e (inl x) r h v k =
      subst (AllChildren P) (ground (arith, h)) (children_of-AllChildren P e.state.child_traces v)

  module _ (g : GraphSpec) (resources : Dict String Resource) (registry : NodeRegistry)
      (ctx : ExecutionContext) (r : NodeResult) where
    run_agent-Confined :
        (limit : ℕ) (task : Option Value) (o : Agent ⊎ AgentError)
        → agent_of b registry (run_resources g resources) ctx.node.id ≡ o
        → (run_agent b dumps say limit task o).execution ≡ returned r
        → AllChildren (IsConfined say (wired g.edges ctx.node.id)) r.child_traces
    unfolding run_agent
    run_agent-Confined limit none (inr e) h k = absurd (ground arith)
    run_agent-Confined limit (some t) (inr e) h k = absurd (ground arith)
    run_agent-Confined limit none (inl a) h k = absurd (ground arith)
    run_agent-Confined limit (some t) (inl a) h k =
        let f : IsFound (run_resources g resources) ctx.node.id a =
          (agent_of-IsFound b registry (run_resources g resources) ctx.node.id).result a h in
        run_of_end-Confined (IsConfined say (wired g.edges ctx.node.id))
          (agent_rounds dumps say a limit limit 0 (first_state t)) _ r refl
          (All-map (IsConfined say (contains a.tool_ids))
            (IsConfined say (wired g.edges ctx.node.id)) _
            (λ x c. elim c [
              | inl w ↦ inl (tool_ids-wired g resources ctx.node.id a f _ w)
              | inr w ↦ inr w
            ])
            (agent_rounds-Confined dumps say a (nodes_by_id-indexed g resources ctx.node.id a f)
              limit limit 0 (first_state t) tt))
          k

    start_agent-Confined :
        (o : Option ℕ)
        → ctx.resources ≡ run_resources g resources
        → (start_agent b dumps say registry ctx o).execution ≡ returned r
        → AllChildren (IsConfined say (wired g.edges ctx.node.id)) r.child_traces
    unfolding start_agent
    start_agent-Confined none e k = absurd (ground arith)
    start_agent-Confined (some limit) e k =
        run_agent-Confined limit (get ctx.inputs "task") _
          (ap (λ d. agent_of b registry d ctx.node.id) (sym e)) k

    -- An agent that runs in a graph with the tables of `run_graph` and returns has a child record only
    -- for a node that the graph wires to it through a tool group, or for a call of some other name that
    -- was refused: such a record has no outputs and the error that names the unknown tool.
    pub execute_agent-IsConfined :
        ctx.resources ≡ run_resources g resources
        → (execute_agent b dumps say registry ctx).execution ≡ returned r
        → AllChildren (IsConfined say (wired g.edges ctx.node.id)) r.child_traces
    unfolding execute_agent
    execute_agent-IsConfined e k = start_agent-Confined (b.max_iterations ctx.node.config) e k
