-- ===== src/Nodes/Agent/Activity.antt =====
-- backend/nodes/agent.py: the calls of `on_sub_node_activity` that an agent makes.
use agent_graph_studio.Prelude.{
  ltb, if◌then◌else◌, Bool-cases, ◌==◌, string_eq, length, ℕ, zero, suc, ◌+◌, ◌-◌, String, ◌≡◌,
  refl, subst, ◌∙◌, ◌⊎◌, inl, inr, Bool, true, false, not, ◌&&◌, Option, none, some, List, [], ◌∷◌,
  ◌++◌, arith, nat_eq, pair_eq, option_eq,
}
use agent_graph_studio.Prelude.Dict.{Dict, get}
use agent_graph_studio.Schema.Value.{Value}
use agent_graph_studio.Schema.Models.{NodeSpec}
use agent_graph_studio.Execution.Trace.{ExecutionContext}
use agent_graph_studio.Registry.{NodeRegistry}
use agent_graph_studio.Api.Runs.Activity.{in_use, on_activities, on_activities-in_use}
use agent_graph_studio.Nodes.Agent.State.{
  AgentError, Agent, AgentState, Completion, completed, model_failed, ToolCallRequest,
  ToolCallResponse, in_call, in_group, marks,
}
use agent_graph_studio.Nodes.Agent.Loop.{
  AgentStep, again, answered, failed, call_step, run_calls, tool_node, answer_step, tool_step,
  begun, response_step, after_completion_call, completion_step, agent_round, agent_rounds,
}
use agent_graph_studio.Nodes.Agent.Setup.{
  Backends, first_state, run_of_end, run_agent, start_agent, execute_agent, agent_of,
}

in_use-append :
    (xs ys : List (String × Bool)) (n : ℕ) (id : String)
    → in_use n id (xs ++ ys) ≡ in_use (in_use n id xs) id ys
in_use-append [] ys n id = refl
in_use-append ((j, active) ∷ xs) ys n id = in_use-append xs ys _ id

abbrev times_in : List String → String → ℕ
times_in [] id = 0
times_in (j ∷ ids) id = (if j == id then 1 else 0) + times_in ids id

in_use-marks-true :
    (ids : List String) (n : ℕ) (id : String) → in_use n id (marks true ids) ≡ n + times_in ids id
in_use-marks-true [] n id = omega arith
in_use-marks-true (j ∷ ids) n id =
    ground (arith, in_use-marks-true ids n id, in_use-marks-true ids (n + 1) id)

in_use-marks-false :
    (ids : List String) (n : ℕ) (id : String) → in_use n id (marks false ids) ≡ n - times_in ids id
in_use-marks-false [] n id = omega arith
in_use-marks-false (j ∷ ids) n id =
    ground (arith, in_use-marks-false ids n id, in_use-marks-false ids (n - 1) id)

-- What is put between the marks of `ids` and changes nothing leaves nothing changed.
in_use-bracket :
    (ids : List String) (xs zs : List (String × Bool)) (n : ℕ) (id : String)
    → in_use n id xs ≡ n
    → in_use n id zs ≡ in_use n id (xs ++ marks true ids)
    → in_use n id (zs ++ marks false ids) ≡ n
in_use-bracket ids xs zs n id h k = omega (
  arith,
  in_use-append zs (marks false ids) n id,
  in_use-append xs (marks true ids) n id,
  in_use-marks-false ids (in_use n id zs) id,
  in_use-marks-true ids (in_use n id xs) id,
  h,
  k,
)

-- Every id has as many ends as starts.
abbrev IsBalanced : AgentState → Type 0
IsBalanced s = (n : ℕ) (id : String) → in_use n id s.activity ≡ n

abbrev IsBalancedStep : AgentStep → Type 0
IsBalancedStep (again s) = IsBalanced s
IsBalancedStep (answered answer s) = IsBalanced s
IsBalancedStep (failed e s) = IsBalanced s

module _ (dumps : Dict String Value → String) (say : AgentError → String) (a : Agent) where
  in_use-call_step :
      (s : AgentState) (call : ToolCallRequest) (o : Option NodeSpec) (n : ℕ) (id : String)
      → in_use n id (call_step dumps say a s call o).activity ≡ in_use n id s.activity
  unfolding call_step
  in_use-call_step s call none n id = refl
  in_use-call_step s call (some node) n id =
      ground (arith, in_use-append s.activity ((node.id, true) ∷ (node.id, false) ∷ []) n id)

  in_use-run_calls :
      (calls : List ToolCallRequest) (s : AgentState) (n : ℕ) (id : String)
      → in_use n id (run_calls dumps say a s calls).activity ≡ in_use n id s.activity
  unfolding run_calls
  in_use-run_calls [] s n id = refl
  in_use-run_calls (call ∷ calls) s n id =
      in_use-run_calls calls (call_step dumps say a s call (tool_node a call)) n id
      ∙ in_use-call_step s call (tool_node a call) n id

  tool_step-IsBalanced :
      (s : AgentState) (r : ToolCallResponse)
      → IsBalanced s
      → IsBalanced (tool_step dumps say a s r)
  unfolding tool_step begun
  tool_step-IsBalanced s r v n id =
      in_use-bracket (in_group a) s.activity
        (run_calls dumps say a (begun a s r) r.tool_calls).activity n id (v n id)
        (in_use-run_calls r.tool_calls (begun a s r) n id)

  response_step-IsBalanced :
      (s : AgentState) (r : ToolCallResponse) (calls : List ToolCallRequest)
      → IsBalanced s
      → IsBalancedStep (response_step dumps say a s r calls)
  unfolding response_step answer_step
  response_step-IsBalanced s r (call ∷ calls) v = tool_step-IsBalanced s r v
  response_step-IsBalanced s r [] v =
      elim (Bool-cases
        (ltb 0 (length a.tool_definitions) && (not s.tools_ever_called && not s.nudge_used))) [
          | inl h ↦ rw h v
          | inr h ↦ rw h v
        ]

  after_completion_call-IsBalanced :
      (s : AgentState) → IsBalanced s → IsBalanced (after_completion_call a s)
  unfolding after_completion_call
  after_completion_call-IsBalanced s v n id =
      in_use-bracket (in_call a) s.activity (s.activity ++ marks true (in_call a)) n id (v n id)
        refl

  agent_round-IsBalanced :
      (n : ℕ) (s : AgentState) → IsBalanced s → IsBalancedStep (agent_round dumps say a n s)
  unfolding agent_round
  agent_round-IsBalanced n s v = by_completion _ _ (after_completion_call-IsBalanced s v)
    where
      by_completion :
          (c : Completion) (t : AgentState)
          → IsBalanced t
          → IsBalancedStep (completion_step dumps say a t c)
      by_completion (model_failed message) t w = unfold completion_step in w
      by_completion (completed r) t w =
          unfold completion_step in response_step-IsBalanced _ r r.tool_calls w

  agent_rounds-next :
      (left limit n : ℕ) (s : AgentState) (t : AgentStep)
      → agent_round dumps say a n s ≡ t
      → IsBalancedStep t
      → ((u : AgentState)
          → IsBalanced u
          → IsBalanced (agent_rounds dumps say a limit left (suc n) u).state)
      → IsBalanced (agent_rounds dumps say a limit (suc left) n s).state
  unfolding agent_rounds
  agent_rounds-next left limit n s (again u) h v ih = rw (h, agent_rounds) (ih u v)
  agent_rounds-next left limit n s (answered x u) h v ih = rw (h, agent_rounds) v
  agent_rounds-next left limit n s (failed e u) h v ih = rw (h, agent_rounds) v

  agent_rounds-IsBalanced :
      (left limit n : ℕ) (s : AgentState)
      → IsBalanced s
      → IsBalanced (agent_rounds dumps say a limit left n s).state
  agent_rounds-IsBalanced zero limit n s v = unfold agent_rounds in v
  agent_rounds-IsBalanced (suc left) limit n s v =
      agent_rounds-next left limit n s _ refl (agent_round-IsBalanced n s v)
        (λ u w. agent_rounds-IsBalanced left limit (suc n) u w)

module _ (b : Backends) (dumps : Dict String Value → String) (say : AgentError → String) where
  run_agent-IsBalanced :
      (limit : ℕ) (task : Option Value) (o : Agent ⊎ AgentError) (n : ℕ) (id : String)
      → in_use n id (run_agent b dumps say limit task o).activity ≡ n
  unfolding run_agent run_of_end
  run_agent-IsBalanced limit none (inr e) n id = refl
  run_agent-IsBalanced limit (some task) (inr e) n id = refl
  run_agent-IsBalanced limit none (inl a) n id = refl
  run_agent-IsBalanced limit (some task) (inl a) n id =
      agent_rounds-IsBalanced dumps say a limit limit 0 (first_state task) (λ m i. refl) n id

  start_agent-IsBalanced :
      (registry : NodeRegistry) (ctx : ExecutionContext) (o : Option ℕ) (n : ℕ) (id : String)
      → in_use n id (start_agent b dumps say registry ctx o).activity ≡ n
  unfolding start_agent
  start_agent-IsBalanced registry ctx none n id = refl
  start_agent-IsBalanced registry ctx (some limit) n id =
      run_agent-IsBalanced limit _ (agent_of b registry ctx.resources ctx.node.id) n id

  -- However an agent ends (by an answer, a failed model call, its limit of rounds or a failed lookup),
  -- the counters that show which sub-nodes are active are afterwards as they were.
  pub execute_agent-on_activities :
      (registry : NodeRegistry) (ctx : ExecutionContext) (counts : Dict String ℕ) (id : String)
      (n : ℕ)
      → get counts id ≡ (if ltb 0 n then some n else none)
      → get (on_activities counts (execute_agent b dumps say registry ctx).activity) id
        ≡ get counts id
  unfolding execute_agent
  execute_agent-on_activities registry ctx counts id n h = rw h (
      subst
        (λ m.
          get (on_activities counts (execute_agent b dumps say registry ctx).activity) id
          ≡ (if ltb 0 m then some m else none))
        (start_agent-IsBalanced registry ctx (b.max_iterations ctx.node.config) n id)
        (on_activities-in_use (execute_agent b dumps say registry ctx).activity counts id n h))
