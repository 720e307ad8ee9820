-- ===== src/Nodes/Agent/Found.antt =====
-- backend/nodes/agent.py: what the lookups of an agent promise to its loop, in the tables of `run_graph`.
use agent_graph_studio.Prelude.{
  string_eq, any, contains, String, ◌≡◌, refl, ap, subst, ◌∙◌, ◌⊎◌, inl, inr, Bool, true, Option,
  none, some, List, [], ◌∷◌, arith, nat_eq, pair_eq, option_eq,
}
use agent_graph_studio.Prelude.Dict.{Dict, get, get-put}
use agent_graph_studio.Schema.Models.{NodeSpec, EdgeSpec, GraphSpec, index_nodes}
use agent_graph_studio.Execution.Trace.{Resource}
use agent_graph_studio.Registry.{NodeRegistry}
use agent_graph_studio.Execution.Engine.Once.{index_nodes-IsIndexed}
use agent_graph_studio.Execution.RunGraph.{run_resources, sub_nodes_from, listed}
use agent_graph_studio.Execution.RunGraph.Laws.{sources_of, sub_nodes_from_lem}
use agent_graph_studio.Nodes.Agent.State.{
  AgentError, invalid_config, no_profile, no_tool_calling, Agent,
}
use agent_graph_studio.Nodes.Agent.Setup.{
  ◌>>=◌, Backends, SubNodeTable, tools_of, ids_in, or_fail, one_model, node_at, memory_of, group_of,
  definitions_of, nodes_in, sub_nodes_in, profiles_in, agent_of,
}

-- The node is wired to the agent through a tool group.
abbrev pub wired : List EdgeSpec → String → String → Bool
wired edges agent_id id =
    any (λ group. contains (sources_of edges group (some "tools")) id)
      (sources_of edges agent_id (some "tools"))

-- What every successful result of the lookups satisfies.
pub record Ensures {ℓ} {A : Type ℓ} (P : A → Type 0) (m : A ⊎ AgentError) : Type ℓ where
  pub result : (a : A) → m ≡ inl a → P a

>>=-Ensures {ℓ κ} :
    {A : Type ℓ} {B : Type κ} {P : B → Type 0} (m : A ⊎ AgentError) (f : A → B ⊎ AgentError)
    → ((x : A) → m ≡ inl x → Ensures P (f x))
    → Ensures P (m >>= f)
>>=-Ensures (inl x) f h = h x refl
>>=-Ensures (inr e) f h = record { result = λ a k. absurd (ground arith) }

inl-Ensures {ℓ} : {A : Type ℓ} {P : A → Type 0} (a : A) → P a → Ensures P (inl a)
inl-Ensures {P} a p = record { result = λ b h. subst P (ground arith) p }

-- What the lookups promise to the loop.
pub record IsFound (resources : Dict String Resource) (agent_id : String) (a : Agent) : Type 0 where
  found_nodes : a.nodes_by_id ≡ nodes_in (get resources "nodes_by_id")
  found_tools : a.tool_ids ≡ tools_of (sub_nodes_in (get resources "sub_nodes")) a.group_id
  found_group :
      group_of agent_id
        (ids_in (get (sub_nodes_in (get resources "sub_nodes")) (agent_id, some "tools")))
      ≡ inl a.group_id

pub agent_of-IsFound :
    (b : Backends) (registry : NodeRegistry) (resources : Dict String Resource) (agent_id : String)
    → Ensures (IsFound resources agent_id) (agent_of b registry resources agent_id)
unfolding agent_of
agent_of-IsFound b registry resources agent_id =
    let nodes : Dict String NodeSpec = nodes_in (get resources "nodes_by_id") in
    let sub_nodes : SubNodeTable = sub_nodes_in (get resources "sub_nodes") in
    >>=-Ensures (one_model agent_id (ids_in (get sub_nodes (agent_id, some "model")))) _
      (λ model_id _. >>=-Ensures (node_at nodes model_id) _ (λ model_node _.
        >>=-Ensures (or_fail (b.model_config model_node.config) (invalid_config model_id)) _
          (λ config _.
            >>=-Ensures (memory_of b nodes (ids_in (get sub_nodes (agent_id, some "memory")))) _
              (λ memory _.
                >>=-Ensures (group_of agent_id (ids_in (get sub_nodes (agent_id, some "tools")))) _
                  (λ group g.
                    >>=-Ensures
                      (or_fail
                        (get (profiles_in (get resources "connection_profiles")) config.connection)
                        (no_profile config.connection))
                      _
                      (λ profile _.
                        >>=-Ensures
                          (or_fail (b.tool_calling profile) (no_tool_calling config.connection)) _
                          (λ complete _.
                            >>=-Ensures (definitions_of registry nodes (tools_of sub_nodes group)) _
                              (λ definitions _. inl-Ensures _ (record {
                                found_nodes = refl;
                                found_tools = refl;
                                found_group = g;
                              })))))))))

group_of-wired :
    (edges : List EdgeSpec) (sub_nodes : SubNodeTable)
    → ((root : String) (slot : Option String)
        → ids_in (get sub_nodes (root, slot)) ≡ sources_of edges root slot)
    → (agent_id id : String) (ids : List String) (group : Option String)
    → group_of agent_id ids ≡ inl group
    → contains (tools_of sub_nodes group) id ≡ true
    → any (λ j. contains (sources_of edges j (some "tools")) id) ids ≡ true
unfolding group_of
group_of-wired edges sub_nodes same agent_id id ids none h k = cc
group_of-wired edges sub_nodes same agent_id id [] (some j) h k = absurd (ground arith)
group_of-wired edges sub_nodes same agent_id id (i ∷ []) (some j) h k = ground (
  arith,
  same j (some "tools"),
  ap (λ (x : String). sources_of edges x (some "tools")) {x = i} {y = j},
)
group_of-wired edges sub_nodes same agent_id id (i ∷ i' ∷ ids) (some j) h k = absurd (ground arith)

ids_in-eq-listed : (o : Option (List String)) → ids_in o ≡ listed o
ids_in-eq-listed none = refl
ids_in-eq-listed (some ids) = refl

-- The tables that `run_graph` adds to the resources.
module _ (g : GraphSpec) (resources : Dict String Resource) where
  nodes_in-run_resources :
      nodes_in (get (run_resources g resources) "nodes_by_id") ≡ index_nodes [] g.nodes
  unfolding run_resources
  nodes_in-run_resources = simp get-put

  sub_nodes_in-run_resources :
      sub_nodes_in (get (run_resources g resources) "sub_nodes") ≡ sub_nodes_from [] g.edges
  unfolding run_resources
  sub_nodes_in-run_resources = simp get-put

  sub_nodes-sources_of :
      (root : String) (slot : Option String)
      → ids_in (get (sub_nodes_in (get (run_resources g resources) "sub_nodes")) (root, slot))
        ≡ sources_of g.edges root slot
  sub_nodes-sources_of root slot = rw sub_nodes_in-run_resources (
      ids_in-eq-listed (get (sub_nodes_from [] g.edges) (root, slot))
      ∙ sub_nodes_from_lem g root slot)

  module _ (agent_id : String) (a : Agent)
      (f : IsFound (run_resources g resources) agent_id a) where
    pub tool_ids-wired :
        (id : String) → contains a.tool_ids id ≡ true → wired g.edges agent_id id ≡ true
    tool_ids-wired id h = rw (← sub_nodes-sources_of agent_id (some "tools")) (
        group_of-wired g.edges _ sub_nodes-sources_of agent_id id _ a.group_id f.found_group
          (subst (λ ids. contains ids id ≡ true) f.found_tools h))

    pub nodes_by_id-indexed :
        (id : String) (node : NodeSpec) → get a.nodes_by_id id ≡ some node → node.id ≡ id
    nodes_by_id-indexed id node h =
        index_nodes-IsIndexed [] g.nodes (λ i m e. unfold get in cc) id node
          (subst (λ d. get d id ≡ some node) (f.found_nodes ∙ nodes_in-run_resources) h)
