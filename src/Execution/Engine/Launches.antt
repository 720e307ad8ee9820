-- ===== src/Execution/Engine/Launches.antt =====
-- backend/execution/engine.py: the calls of a round's ready nodes, and a rule for the loop over them.
use agent_graph_studio.Prelude.{
  ◌⊎◌, inl, inr, string_eq, remove, String, ◌≡◌, refl, Option, none, some, List, [], ◌∷◌, ◌++◌,
  arith,
}
use agent_graph_studio.Prelude.Dict.{Dict, get}
use agent_graph_studio.Schema.Value.{Value}
use agent_graph_studio.Schema.Models.{NodeSpec}
use agent_graph_studio.Registry.{NodeDefinition}
use agent_graph_studio.Execution.Trace.{NodeResult, entry, Execution, returned, raised}
use agent_graph_studio.Execution.Engine.Gather.{recorded, Setup, RunState, definition_of}
use agent_graph_studio.Execution.Engine.Round.{
  Completed, execute_node, record_of, result_of, Found, found, not_found, find_node, Launched,
  launched, launch_failed, launch_with, launch, publish, settle, Step, next, stopped, crashed,
  store_outputs, publish_result, collect,
}

-- The node table has every node under its own id.
pub record IsIndexed (setup : Setup) : Type 0 where
  pub at_id : (id : String) (node : NodeSpec) → get setup.nodes_by_id id ≡ some node → node.id ≡ id

-- `c` is the call of the node `id` on `inputs`.
pub record IsCallOf (setup : Setup) (id : String) (inputs : Dict String Value) (c : Completed)
    : Type 0 where
  pub node : NodeSpec
  pub definition : NodeDefinition
  pub stored : get setup.nodes_by_id id ≡ some node
  pub registered : definition_of setup node ≡ some definition
  pub called : c ≡ execute_node setup node definition inputs

abbrev pub AreCallsOf : Setup → List (String × Dict String Value) → List Completed → Type 0
AreCallsOf setup [] [] = Unit
AreCallsOf setup ((id, inputs) ∷ ns) (c ∷ cs) = IsCallOf setup id inputs c × AreCallsOf setup ns cs
AreCallsOf setup [] (c ∷ cs) = ⊥
AreCallsOf setup (n ∷ ns) [] = ⊥

find_node-found :
    (setup : Setup) (id : String) (node : NodeSpec) (d : NodeDefinition)
    → find_node setup id ≡ found node d
    → (get setup.nodes_by_id id ≡ some node) × (definition_of setup node ≡ some d)
unfolding find_node
find_node-found setup id node d h = ground arith

launch_with-launched :
    (c : Completed) (l : Launched) (cs : List Completed)
    → launch_with c l ≡ launched cs
    → (rest : List Completed) × (l ≡ launched rest) × (cs ≡ c ∷ rest)
unfolding launch_with
launch_with-launched c (launched rest) cs h = (rest, refl, ground arith)
launch_with-launched c (launch_failed e) cs h = cc

launch_step :
    (setup : Setup) (id : String) (inputs : Dict String Value)
    (ns : List (String × Dict String Value)) (cs : List Completed) (f : Found)
    → find_node setup id ≡ f
    → launch setup ((id, inputs) ∷ ns) ≡ launched cs
    → (node : NodeSpec) × (d : NodeDefinition) × (find_node setup id ≡ found node d)
      × (launch_with (execute_node setup node d inputs) (launch setup ns) ≡ launched cs)
launch_step setup id inputs ns cs (found node d) e h =
    (node, d, e, unfold launch in rw (e, launch) at h)
launch_step setup id inputs ns cs (not_found x) e h = unfold launch in ground arith

pub launch-AreCallsOf :
    (setup : Setup) (ns : List (String × Dict String Value)) (cs : List Completed)
    → launch setup ns ≡ launched cs
    → AreCallsOf setup ns cs
launch-AreCallsOf setup [] [] h = tt
launch-AreCallsOf setup [] (c ∷ cs) h = unfold launch in cc
launch-AreCallsOf setup ((id, inputs) ∷ ns) cs h =
    let (node, d, e, h') = launch_step setup id inputs ns cs (find_node setup id) refl h in
    let (rest, l, split) =
      launch_with-launched (execute_node setup node d inputs) (launch setup ns) cs h' in
    rw split (
      record {
        node = node;
        definition = d;
        stored = (find_node-found setup id node d e).0;
        registered = (find_node-found setup id node d e).1;
        called = refl;
      },
      launch-AreCallsOf setup ns rest l,
    )

module _ (setup : Setup) (indexed : IsIndexed setup) where
  pub node_id-IsCallOf :
      (id : String) (inputs : Dict String Value) (c : Completed)
      → IsCallOf setup id inputs c
      → (c.node_id ≡ id) × ((entry c.trace_entry).node_id ≡ id)
  unfolding execute_node record_of
  node_id-IsCallOf id inputs c k =
      let at : k.node.id ≡ id = indexed.at_id id k.node k.stored in
      rw k.called (at, ids (k.definition.execute _) at)
    where
      ids :
          (outcome : Execution)
          → k.node.id ≡ id
          → (entry (record_of setup k.node inputs outcome)).node_id ≡ id
      ids (returned r) at = at
      ids (raised m) at = at

inputs-record_of :
    (setup : Setup) (node : NodeSpec) (inputs : Dict String Value) (o : Execution)
    → (entry (record_of setup node inputs o)).inputs ≡ inputs
unfolding record_of
inputs-record_of setup node inputs (returned r) = refl
inputs-record_of setup node inputs (raised m) = refl

outputs-record_of :
    (setup : Setup) (node : NodeSpec) (inputs : Dict String Value) (o : Execution) (r : NodeResult)
    → result_of o ≡ some r
    → (entry (record_of setup node inputs o)).outputs ≡ r.outputs
unfolding record_of
outputs-record_of setup node inputs (returned q) r h = ground arith
outputs-record_of setup node inputs (raised m) r h = cc

-- A call's record shows the inputs that it was given and, if it returned, its outputs.
pub inputs-IsCallOf :
    (setup : Setup) (id : String) (inputs : Dict String Value) (c : Completed)
    → IsCallOf setup id inputs c
    → (entry c.trace_entry).inputs ≡ inputs
unfolding execute_node
inputs-IsCallOf setup id inputs c k =
    rw k.called (inputs-record_of setup k.node inputs (k.definition.execute _))

pub outputs-IsCallOf :
    (setup : Setup) (id : String) (inputs : Dict String Value) (c : Completed) (r : NodeResult)
    → IsCallOf setup id inputs c
    → c.node_result ≡ some r
    → (entry c.trace_entry).outputs ≡ r.outputs
unfolding execute_node
outputs-IsCallOf setup id inputs c r k h =
    rw k.called
      (outputs-record_of setup k.node inputs (k.definition.execute _) r (rw k.called at h))

error-record_of :
    (setup : Setup) (node : NodeSpec) (inputs : Dict String Value) (o : Execution) (m : String)
    → (entry (record_of setup node inputs o)).error ≡ some m
    → (entry (record_of setup node inputs o)).outputs ≡ []
unfolding record_of
error-record_of setup node inputs (returned r) m h = cc
error-record_of setup node inputs (raised x) m h = refl

-- A call that raised recorded no output.
pub error-IsCallOf :
    (setup : Setup) (id : String) (inputs : Dict String Value) (c : Completed) (m : String)
    → IsCallOf setup id inputs c
    → (entry c.trace_entry).error ≡ some m
    → (entry c.trace_entry).outputs ≡ []
unfolding execute_node
error-IsCallOf setup id inputs c m k h =
    rw k.called (error-record_of setup k.node inputs (k.definition.execute _) m (rw k.called at h))

-- A property of the calls left and the state that every turn keeps holds at the end.
module _ (setup : Setup) (P : List Completed → RunState → Type 0)
    (keep : (c : Completed) (cs : List Completed) (s s' : RunState)
      → P (c ∷ cs) s
      → publish_result setup (settle s c) c c.node_result ≡ next s'
      → P cs s') where
  collect_step :
      (c : Completed) (cs : List Completed) (s s' : RunState) (t : Step)
      → publish_result setup (settle s c) c c.node_result ≡ t
      → collect setup s (c ∷ cs) ≡ next s'
      → (u : RunState) × (publish_result setup (settle s c) c c.node_result ≡ next u)
        × (collect setup u cs ≡ next s')
  collect_step c cs s s' (next u) e h = (u, e, unfold collect in rw (e, collect) at h)
  collect_step c cs s s' (stopped u) e h = unfold collect in ground arith
  collect_step c cs s s' (crashed x y) e h = unfold collect in ground arith

  pub collect_ind :
      (cs : List Completed) (s s' : RunState) → P cs s → collect setup s cs ≡ next s' → P [] s'
  collect_ind [] s s' p h = unfold collect in ground arith
  collect_ind (c ∷ cs) s s' p h =
      let (u, e, h') = collect_step c cs s s' _ refl h in collect_ind cs u s' (keep c cs s u p e) h'

-- What one turn of that loop does to the state.
pub record Settled (s : RunState) (c : Completed) (s' : RunState) : Type 0 where
  pub pending : s'.pending ≡ remove s.pending c.node_id
  pub trace : s'.trace ≡ s.trace ++ c.trace_entry ∷ []
  pub finished : s'.finished ≡ c.node_id ∷ s.finished
  pub events : s'.events ≡ s.events ++ recorded c.trace_entry ∷ []

store_outputs-Settled :
    (s s' : RunState) (c : Completed) (r : NodeResult) (o : Option (Dict String Value))
    → store_outputs (settle s c) c r o ≡ next s'
    → Settled s c s' × (s'.available ≡ publish s.available c.node_id r.outputs)
unfolding store_outputs settle
store_outputs-Settled s s' c r none h = cc
store_outputs-Settled s s' c r (some result) h = ground arith

pub publish_result-Settled :
    (setup : Setup) (s s' : RunState) (c : Completed) (o : Option NodeResult)
    → publish_result setup (settle s c) c o ≡ next s'
    → Settled s c s'
unfolding settle publish_result
publish_result-Settled setup s s' c none h = ground arith
publish_result-Settled setup s s' c (some r) h = ground (arith, store_outputs-Settled s s' c r)

-- What that turn makes available.
pub publish_result-available :
    (setup : Setup) (s s' : RunState) (c : Completed) (o : Option NodeResult)
    → publish_result setup (settle s c) c o ≡ next s'
    → ((o ≡ none) × (s'.available ≡ s.available))
      ⊎ ((r : NodeResult) × (o ≡ some r) × (s'.available ≡ publish s.available c.node_id r.outputs))
publish_result-available setup s s' c none h =
    inl (refl, unfold publish_result settle in ground arith)
publish_result-available setup s s' c (some r) h =
    inr (r, refl, unfold publish_result settle in ground (arith, store_outputs-Settled s s' c r))
