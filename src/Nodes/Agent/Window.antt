-- ===== src/Nodes/Agent/Window.antt =====
-- backend/nodes/agent.py: what the memory of an agent makes of the messages that the model is sent.
use agent_graph_studio.Prelude.{
  drop, ltb, string_eq, length, Bool-cases, ◌∙◌, ap, inl, inr, ℕ, zero, suc, ◌-◌, ◌<◌, String, ◌≡◌,
  refl, Option, none, some, List, [], ◌∷◌, arith, nat_eq, pair_eq, option_eq,
}
use agent_graph_studio.Prelude.Dict.{Dict}
use agent_graph_studio.Schema.Value.{Value}
use agent_graph_studio.Schema.Models.{NodeSpec}
use agent_graph_studio.Nodes.Agent.State.{
  AgentError, Message, Agent, AgentState, Completion, completed, model_failed, ToolCallRequest,
  ToolCallResponse, apply_memory_window, windowed,
}
use agent_graph_studio.Nodes.Agent.Loop.{
  AgentStep, again, answered, failed, agent_round, agent_rounds, completion_step, response_step,
  tool_step, answer_step, begun, run_calls, call_step, tool_node, run_tool, after_completion_call,
}

-- The last `n` messages, or all if there are fewer.
abbrev last_of : ℕ → List Message → List Message
last_of n ms = drop (length ms - n) ms

apply_memory_window-last_of :
    (n : ℕ) (ms : List Message) → 0 < n → apply_memory_window ms n ≡ last_of n ms
unfolding apply_memory_window
apply_memory_window-last_of zero ms h = absurd (omega arith)
apply_memory_window-last_of (suc n) ms h = elim (Bool-cases (ltb (suc n) (length ms))) [
  | inl more ↦ rw more refl
  | inr few ↦ let none_dropped : length ms - suc n ≡ 0 = ground arith in rw (few, none_dropped) refl
]

-- The agent with a memory that keeps everything, whose model is handed the last `n` of the messages that it
-- is sent.
abbrev pub handed_last : Agent → String → ℕ → Agent
handed_last a id n = record a {
  memory = some (id, 0);
  complete = λ r ms. a.complete r (last_of n ms);
}

module _ (dumps : Dict String Value → String) (say : AgentError → String) (a : Agent) (id : String)
    (n : ℕ) where
  call_step-handed_last :
      (s : AgentState) (call : ToolCallRequest) (o : Option NodeSpec)
      → call_step dumps say a s call o ≡ call_step dumps say (handed_last a id n) s call o
  unfolding call_step run_tool
  call_step-handed_last s call none = refl
  call_step-handed_last s call (some node) = refl

  run_calls-handed_last :
      (calls : List ToolCallRequest) (s : AgentState)
      → run_calls dumps say a s calls ≡ run_calls dumps say (handed_last a id n) s calls
  unfolding run_calls tool_node
  run_calls-handed_last [] s = refl
  run_calls-handed_last (call ∷ calls) s =
      ap (λ u. run_calls dumps say a u calls) (call_step-handed_last s call (tool_node a call))
      ∙ run_calls-handed_last calls _

  response_step-handed_last :
      (s : AgentState) (r : ToolCallResponse) (calls : List ToolCallRequest)
      → response_step dumps say a s r calls ≡ response_step dumps say (handed_last a id n) s r calls
  unfolding response_step answer_step tool_step begun
  response_step-handed_last s r [] = refl
  response_step-handed_last s r (call ∷ calls) = rw (run_calls-handed_last r.tool_calls _) refl

  completion_step-handed_last :
      (s : AgentState) (c : Completion)
      → completion_step dumps say a s c ≡ completion_step dumps say (handed_last a id n) s c
  unfolding completion_step
  completion_step-handed_last s (model_failed message) = refl
  completion_step-handed_last s (completed r) = response_step-handed_last _ r r.tool_calls

  module _ (memory : a.memory ≡ some (id, n)) (positive : 0 < n) where
    agent_round-handed_last :
        (r : ℕ) (s : AgentState)
        → agent_round dumps say a r s ≡ agent_round dumps say (handed_last a id n) r s
    unfolding agent_round after_completion_call windowed apply_memory_window
    agent_round-handed_last r s =
        rw (memory, apply_memory_window-last_of n s.messages positive)
          (completion_step-handed_last _ (a.complete r (last_of n s.messages)))

    agent_rounds-next :
        (left limit r : ℕ) (s : AgentState) (t : AgentStep)
        → agent_round dumps say a r s ≡ t
        → agent_round dumps say (handed_last a id n) r s ≡ t
        → ((u : AgentState)
            → agent_rounds dumps say a limit left (suc r) u
              ≡ agent_rounds dumps say (handed_last a id n) limit left (suc r) u)
        → agent_rounds dumps say a limit (suc left) r s
          ≡ agent_rounds dumps say (handed_last a id n) limit (suc left) r s
    unfolding agent_rounds
    agent_rounds-next left limit r s (again u) h k ih = rw (h, k, agent_rounds) (ih u)
    agent_rounds-next left limit r s (answered x u) h k ih = rw (h, k, agent_rounds) refl
    agent_rounds-next left limit r s (failed e u) h k ih = rw (h, k, agent_rounds) refl

    -- An agent with a memory of a positive number of messages ends, in every respect, as one that keeps all
    -- messages and whose model is handed just that many of the last ones in each round.
    pub agent_rounds-handed_last :
        (left limit r : ℕ) (s : AgentState)
        → agent_rounds dumps say a limit left r s
          ≡ agent_rounds dumps say (handed_last a id n) limit left r s
    agent_rounds-handed_last zero limit r s = unfold agent_rounds in refl
    agent_rounds-handed_last (suc left) limit r s =
        agent_rounds-next left limit r s (agent_round dumps say (handed_last a id n) r s)
          (agent_round-handed_last r s) refl (λ u. agent_rounds-handed_last left limit (suc r) u)
