-- ===== src/Execution/RunGraph/Laws.antt =====
-- backend/execution/engine.py: what `run_graph` starts, and its table of sub-nodes.
use agent_graph_studio.Prelude.{
  if◌then◌else◌, Bool-cases, ◌==◌, ==_iff, string_eq, Distinct, String, ◌≡◌, refl, sym, ap, ◌∙◌,
  ◌≢◌, ◌⊎◌, inl, inr, true, false, ◌&&◌, Option, none, some, List, [], ◌∷◌, ◌++◌, append-nil,
  append_assoc, arith,
}
use agent_graph_studio.Prelude.{pair_eq, option_eq}
use agent_graph_studio.Prelude.Dict.{Dict, get, put, get-put}
use agent_graph_studio.Schema.Models.{EdgeSpec, GraphSpec, is_sub_node, node_ids}
use agent_graph_studio.Registry.{NodeRegistry}
use agent_graph_studio.Connections.Store.{ConnectionProfile}
use agent_graph_studio.Validation.Issue.{ValidationIssue}
use agent_graph_studio.Validation.Validator.{validate_graph}
use agent_graph_studio.Validation.Verdict.{IsSound, validate_graph-IsSound}
use agent_graph_studio.Execution.Trace.{Resource}
use agent_graph_studio.Execution.Engine.Loop.{RunEnd, run_graph_async}
use agent_graph_studio.Execution.Engine.Once.{run_graph_async-ne-none}
use agent_graph_studio.Execution.RunGraph.{
  SubNodes, listed, add_sub_node, sub_nodes_from, user_of, run_resources, ran, start_run, run_graph,
}

start_run-ran :
    (g : GraphSpec) (registry : NodeRegistry) (resources : Dict String Resource) (run_id : String)
    (times : String → String × String) (issues : List ValidationIssue) (o : Option RunEnd)
    → start_run g registry resources run_id times issues ≡ ran o
    → (issues ≡ []) × (o ≡ run_graph_async g registry (run_resources g resources) run_id times)
unfolding start_run
start_run-ran g registry resources run_id times [] o h = (refl, ground arith)
start_run-ran g registry resources run_id times (i ∷ issues) o h = absurd (ground arith)

-- A graph that is run was found valid for the running user, without slot mappings.
pub run_graph-valid :
    (g : GraphSpec) (registry : NodeRegistry) (store : List ConnectionProfile)
    (resources : Dict String Resource) (run_id : String) (times : String → String × String)
    (o : Option RunEnd)
    → run_graph g registry store resources run_id times ≡ ran o
    → validate_graph g registry store (user_of (get resources "running_user_id")) none ≡ []
unfolding run_graph
run_graph-valid g registry store resources run_id times o h =
    (start_run-ran g registry resources run_id times _ o h).0

-- A graph with distinct node ids that `run_graph` starts to execute is sound for the running user, and
-- its execution comes to an end.
pub run_graph-ran :
    (g : GraphSpec) (registry : NodeRegistry) (store : List ConnectionProfile)
    (resources : Dict String Resource) (run_id : String) (times : String → String × String)
    (o : Option RunEnd)
    → Distinct (node_ids g)
    → run_graph g registry store resources run_id times ≡ ran o
    → IsSound g registry store (user_of (get resources "running_user_id")) none × (o ≢ none)
unfolding run_graph
run_graph-ran g registry store resources run_id times o d h =
    let (valid, same) = start_run-ran g registry resources run_id times _ o h in
    (
      validate_graph-IsSound g registry store (user_of (get resources "running_user_id")) none
          valid,
      λ e. run_graph_async-ne-none g registry (run_resources g resources) run_id times d (cc same),
    )

-- The sources of the sub-node edges into a slot of a root, in the order of the edges.
abbrev pub sources_of : List EdgeSpec → String → Option String → List String
sources_of [] root slot = []
sources_of (e ∷ es) root slot =
    if is_sub_node e.kind && (e.to.node == root && e.slot == slot)
    then e.from_.node ∷ sources_of es root slot
    else sources_of es root slot

listed-put :
    (d : SubNodes) (k j : String × Option String) (x : String)
    → listed (get (put d k (listed (get d k) ++ x ∷ [])) j)
      ≡ listed (get d j) ++ (if k == j then x ∷ [] else [])
listed-put d k j x = rw get-put (split (Bool-cases (k == j)))
  where
    split :
        ((k == j) ≡ true) ⊎ ((k == j) ≡ false)
        → listed (if k == j then some (listed (get d k) ++ x ∷ []) else get d j)
          ≡ listed (get d j) ++ (if k == j then x ∷ [] else [])
    split (inl h) =
        rw h (ap (λ (i : String × Option String). listed (get d i) ++ x ∷ []) ((==_iff k j).0 h))
    split (inr h) = rw h (sym (append-nil (listed (get d j))))

listed-sub_nodes_from :
    (es : List EdgeSpec) (d : SubNodes) (root : String) (slot : Option String)
    → listed (get (sub_nodes_from d es) (root, slot))
      ≡ listed (get d (root, slot)) ++ sources_of es root slot
unfolding sub_nodes_from add_sub_node
listed-sub_nodes_from [] d root slot = sym (append-nil (listed (get d (root, slot))))
listed-sub_nodes_from (e ∷ es) d root slot =
    listed-sub_nodes_from es (if is_sub_node e.kind then add_sub_node d e else d) root slot
    ∙ split (Bool-cases (is_sub_node e.kind)) (Bool-cases (e.to.node == root && e.slot == slot))
        (listed-put d (e.to.node, e.slot) (root, slot) e.from_.node)
  where
    split :
        (is_sub_node e.kind ≡ true) ⊎ (is_sub_node e.kind ≡ false)
        → ((e.to.node == root && e.slot == slot) ≡ true)
          ⊎ ((e.to.node == root && e.slot == slot) ≡ false)
        → listed (get (add_sub_node d e) (root, slot))
          ≡ listed (get d (root, slot))
            ++ (if e.to.node == root && e.slot == slot then e.from_.node ∷ [] else [])
        → listed (get (if is_sub_node e.kind then add_sub_node d e else d) (root, slot))
            ++ sources_of es root slot
          ≡ listed (get d (root, slot)) ++ sources_of (e ∷ es) root slot
    split (inr k) b h = rw k
    split (inl k) (inr b) h = rw (k, b) (rw (h, b, append-nil))
    split (inl k) (inl b) h = rw (k, b) (rw (h, b, append_assoc))

-- The table of sub-nodes that every run hands to its nodes lists, for each root and slot, the sources
-- of exactly the sub-node edges into it, in the order of the graph's edges.
pub sub_nodes_from_lem :
    (g : GraphSpec) (root : String) (slot : Option String)
    → listed (get (sub_nodes_from [] g.edges) (root, slot)) ≡ sources_of g.edges root slot
sub_nodes_from_lem g root slot = listed-sub_nodes_from g.edges [] root slot ∙ unfold get in refl
