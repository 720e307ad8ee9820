-- ===== src/Execution/Engine/Once.antt =====
-- backend/execution/engine.py: the end of `_run_graph_async`, and how often a node is recorded.
use agent_graph_studio.Prelude.{
  contains-filter_list, Distinct-filter_list, length-filter_list_le, ==_iff, string_eq, length,
  contains, Distinct, String, ◌≡◌, refl, ◌≢◌, true, false, not, none, some, List, [], ◌∷◌, map,
  arith,
}
use agent_graph_studio.Prelude.Dict.{Dict, get, put, get-put}
use agent_graph_studio.Schema.Models.{GraphSpec, NodeSpec, node_ids, index_nodes}
use agent_graph_studio.Registry.{NodeRegistry}
use agent_graph_studio.Execution.Trace.{Resource}
use agent_graph_studio.Execution.Engine.Gather.{RunState}
use agent_graph_studio.Execution.Engine.Launches.{IsIndexed}
use agent_graph_studio.Execution.Engine.Pending.{traced_ids, IsOnce, rounds-IsOnce, rounds-ne-none}
use agent_graph_studio.Execution.Engine.Loop.{
  ended, initial_pending, initial_state, setup_of, run_graph_async, sub_node_sources,
}

-- The node table of a graph has every node under its own id.
pub index_nodes-IsIndexed :
    (d : Dict String NodeSpec) (ns : List NodeSpec)
    → ((id : String) (node : NodeSpec) → get d id ≡ some node → node.id ≡ id)
    → (id : String) (node : NodeSpec) → get (index_nodes d ns) id ≡ some node
    → node.id ≡ id
unfolding index_nodes
index_nodes-IsIndexed d [] v id node h = v id node h
index_nodes-IsIndexed d (n ∷ ns) v id node h =
    index_nodes-IsIndexed (put d n.id n) ns
      (λ j m e. ground (arith, get-put d n.id j n, ==_iff n.id j, v j m)) id node h

module _ (g : GraphSpec) (registry : NodeRegistry) (resources : Dict String Resource)
    (run_id : String) (times : String → String × String) where
  pub setup_of-IsIndexed : IsIndexed (setup_of g registry resources run_id times)
  unfolding setup_of
  setup_of-IsIndexed = record {
    at_id = index_nodes-IsIndexed [] g.nodes (λ id node h. unfold get in cc);
  }

length-node_ids : (ns : List NodeSpec) → length (map (λ (n : NodeSpec). n.id) ns) ≡ length ns
length-node_ids [] = refl
length-node_ids (n ∷ ns) = omega (arith, length-node_ids ns)

initial_state-IsOnce :
    (g : GraphSpec) → Distinct (node_ids g) → IsOnce (initial_pending g) (initial_state g)
unfolding initial_state initial_pending
initial_state-IsOnce g d = record {
  pending_distinct = Distinct-filter_list _ (node_ids g) d;
  traced_distinct = tt;
  apart = λ x h. cc;
  traced = λ x h. cc;
  waits = λ x h. h;
}

-- A graph with distinct node ids is run to an end, normal or by an error: as many rounds as there
-- are nodes are always enough.
pub run_graph_async-ne-none :
    (g : GraphSpec) (registry : NodeRegistry) (resources : Dict String Resource) (run_id : String)
    (times : String → String × String)
    → Distinct (node_ids g)
    → run_graph_async g registry resources run_id times ≢ none
unfolding run_graph_async
run_graph_async-ne-none g registry resources run_id times d =
    rounds-ne-none (setup_of g registry resources run_id times)
      (setup_of-IsIndexed g registry resources run_id times) (initial_pending g) (length g.nodes)
      (initial_state g) (initial_state g).pending refl
      (unfold initial_state initial_pending in
        omega (
          arith,
          length-filter_list_le (λ id. not (contains (sub_node_sources g.edges) id)) (node_ids g),
          length-node_ids g.nodes,
        ))
      (initial_state-IsOnce g d)

-- In a run that ends normally no node is recorded twice, every recorded node is a node of the graph,
-- and no node that is the source of a sub-node edge is recorded.
pub run_graph_async-once :
    (g : GraphSpec) (registry : NodeRegistry) (resources : Dict String Resource) (run_id : String)
    (times : String → String × String) (s : RunState)
    → Distinct (node_ids g)
    → run_graph_async g registry resources run_id times ≡ some (ended s)
    → Distinct (traced_ids s.trace)
      × ((x : String)
          → contains (traced_ids s.trace) x ≡ true
          → (contains (node_ids g) x ≡ true) × (contains (sub_node_sources g.edges) x ≡ false))
unfolding run_graph_async
run_graph_async-once g registry resources run_id times s d h =
    let v =
      rounds-IsOnce (setup_of g registry resources run_id times)
        (setup_of-IsIndexed g registry resources run_id times) (initial_pending g) (length g.nodes)
        (initial_state g) s (initial_state-IsOnce g d) h in
    (
      v.traced_distinct,
      λ x p.
          unfold initial_pending in
          ground (
            arith,
            v.traced x p,
            contains-filter_list (λ id. not (contains (sub_node_sources g.edges) id)) (node_ids g)
                x,
          ),
    )
