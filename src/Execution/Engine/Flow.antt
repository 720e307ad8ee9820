-- ===== src/Execution/Engine/Flow.antt =====
-- backend/execution/engine.py: data flow through a whole run.
use agent_graph_studio.Prelude.{
  Bool-cases, is_some, ◌==◌, ==_iff, string_eq, length, All, contains, Distinct, String, ◌≡◌, refl,
  ap, subst, ◌⊎◌, inl, inr, true, false, Option, none, some, List, [], ◌∷◌, ◌++◌, append_assoc,
  arith,
}
use agent_graph_studio.Prelude.{pair_eq, option_eq}
use agent_graph_studio.Prelude.Dict.{Dict, get}
use agent_graph_studio.Schema.Value.{Value}
use agent_graph_studio.Schema.Models.{NodeSpec, EdgeSpec, GraphSpec, node_ids}
use agent_graph_studio.Registry.{NodeDefinition, NodeRegistry, InputSlotSpec, effective_inputs}
use agent_graph_studio.Execution.Trace.{TraceRecord, entry, Resource}
use agent_graph_studio.Execution.Engine.Gather.{Setup, RunState, or_empty, definition_of}
use agent_graph_studio.Execution.Engine.Gathering.{IsFilled}
use agent_graph_studio.Execution.Engine.Loop.{
  ended, initial_state, setup_of, run_graph_async, sub_node_sources,
}
use agent_graph_studio.Execution.Engine.Pending.{traced_ids}
use agent_graph_studio.Execution.Engine.Once.{setup_of-IsIndexed, run_graph_async-once}
use agent_graph_studio.Execution.Engine.Supply.{
  Emits, Produced, IsSourced, IsSupplied, AllSupplied, Produced-append_left,
}
use agent_graph_studio.Execution.Engine.Tracing.{rounds-IsTraced}

abbrev pub Listed : List InputSlotSpec → InputSlotSpec → Type 0
Listed [] slot = ⊥
Listed (x ∷ xs) slot = (x ≡ slot) ⊎ Listed xs slot

All-Listed :
    (P : InputSlotSpec → Type 0) (xs : List InputSlotSpec) (slot : InputSlotSpec)
    → All P xs
    → Listed xs slot
    → P slot
All-Listed P [] slot h m = absurd m
All-Listed P (x ∷ xs) slot h (inl e) = subst P e h.0
All-Listed P (x ∷ xs) slot h (inr m) = All-Listed P xs slot h.1 m

-- A recorded node has a supplied record, and what was produced before it was produced in the trace.
record Position (setup : Setup) (before trace : List TraceRecord) (id : String) : Type 0 where
  earlier : List TraceRecord
  place : TraceRecord
  named : (entry place).node_id ≡ id
  supplied : IsSupplied setup earlier place
  inside :
      (n : String) (slot : Option String) (v : Value)
      → Produced earlier n slot v
      → Produced (before ++ trace) n slot v

AllSupplied-Position :
    (setup : Setup) (before trace : List TraceRecord) (id : String)
    → AllSupplied setup before trace
    → contains (traced_ids trace) id ≡ true
    → Position setup before trace id
AllSupplied-Position setup before [] id h m = absurd (ground arith)
AllSupplied-Position setup before (r ∷ trace) id h m = elim (Bool-cases ((entry r).node_id == id)) [
  | inl e ↦ record {
    earlier = before;
    place = r;
    named = (==_iff (entry r).node_id id).0 e;
    supplied = h.0;
    inside = λ n slot v p. Produced-append_left before (r ∷ trace) n slot v p;
  }
  | inr e ↦
      let p = AllSupplied-Position setup (before ++ r ∷ []) trace id h.1 (ground arith) in
      record {
        earlier = p.earlier;
        place = p.place;
        named = p.named;
        supplied = p.supplied;
        inside = λ n slot v q.
            subst (λ t. Produced t n slot v) (append_assoc before (r ∷ []) trace)
              (p.inside n slot v q);
      }
]

Produced-contains :
    (trace : List TraceRecord) (n : String) (slot : Option String) (v : Value)
    → Produced trace n slot v
    → contains (traced_ids trace) n ≡ true
Produced-contains [] n slot v p = absurd p
Produced-contains (r ∷ trace) n slot v (inl (e, q)) = ground (arith, ==_iff (entry r).node_id n)
Produced-contains (r ∷ trace) n slot v (inr p) = ground (arith, Produced-contains trace n slot v p)

-- A record of the node `n` shows an error.
abbrev pub Failed : List TraceRecord → String → Type 0
Failed [] n = ⊥
Failed (r ∷ trace) n =
    (((entry r).node_id ≡ n) × ((m : String) × ((entry r).error ≡ some m))) ⊎ Failed trace n

Failed-contains :
    (trace : List TraceRecord) (n : String) → Failed trace n → contains (traced_ids trace) n ≡ true
Failed-contains [] n p = absurd p
Failed-contains (r ∷ trace) n (inl (e, q)) = ground (arith, ==_iff (entry r).node_id n)
Failed-contains (r ∷ trace) n (inr p) = ground (arith, Failed-contains trace n p)

Failed-not_Produced :
    (setup : Setup) (before trace : List TraceRecord) (n : String) (slot : Option String)
    (v : Value)
    → AllSupplied setup before trace
    → Distinct (traced_ids trace)
    → Failed trace n
    → ¬ Produced trace n slot v
Failed-not_Produced setup before [] n slot v h d f p = p
Failed-not_Produced setup before (r ∷ trace) n slot v h d (inl (e, (m, q))) (inl (_, emits)) =
    subst (λ o. Emits o slot v) (h.0.silent m q) emits
Failed-not_Produced setup before (r ∷ trace) n slot v h d (inl (e, q)) (inr p) =
    ground (arith, d.0, Produced-contains trace n slot v p)
Failed-not_Produced setup before (r ∷ trace) n slot v h d (inr f) (inl (e, q)) =
    ground (arith, d.0, Failed-contains trace n f)
Failed-not_Produced setup before (r ∷ trace) n slot v h d (inr f) (inr p) =
    Failed-not_Produced setup (before ++ r ∷ []) trace n slot v h.1 d.1 f p

-- The node `node` needs, at a required slot, what the edge `e` brings.
pub record Needs (setup : Setup) (node : NodeSpec) (e : EdgeSpec) : Type 0 where
  pub definition : NodeDefinition
  pub slot : InputSlotSpec
  pub stored : get setup.nodes_by_id node.id ≡ some node
  pub registered : definition_of setup node ≡ some definition
  pub listed : Listed (or_empty (effective_inputs definition node)) slot
  pub required : slot.required ≡ true
  pub wired : get setup.incoming_by_slot (node.id, some slot.name) ≡ some e

module _ (g : GraphSpec) (registry : NodeRegistry) (resources : Dict String Resource)
    (run_id : String) (times : String → String × String) (s : RunState)
    (run : run_graph_async g registry resources run_id times ≡ some (ended s)) where
  abbrev the_setup : Setup
  the_setup = setup_of g registry resources run_id times

  -- In a run that ends normally every record has all the required inputs of its node, each input is
  -- the node's literal value of a slot with no edge or an output, at the start of the slot's edge, of
  -- an earlier record, and a record with an error has no outputs.
  pub run_graph_async-AllSupplied :
      AllSupplied (setup_of g registry resources run_id times) [] s.trace
  run_graph_async-AllSupplied =
      (rounds-IsTraced the_setup (setup_of-IsIndexed g registry resources run_id times)
        (length g.nodes) (initial_state g) s
        (record {
          published = λ n slot v h. absurd (unfold initial_state get in ground arith);
          supplied = unfold initial_state in tt;
        })
        (unfold run_graph_async in run)).supplied

  -- A node is not recorded if no record produced the value that one of its required slots needs:
  -- the node at the start of the edge did not run, failed, or did not fire that output.
  pub run_graph_async-skips :
      (node : NodeSpec) (e : EdgeSpec)
      → Needs (setup_of g registry resources run_id times) node e
      → ((v : Value) → ¬ Produced s.trace e.from_.node e.from_.slot v)
      → contains (traced_ids s.trace) node.id ≡ false
  run_graph_async-skips node e k missing =
      elim (Bool-cases (contains (traced_ids s.trace) node.id)) [
        | inr h ↦ h
        | inl h ↦
            let p =
              AllSupplied-Position the_setup [] s.trace node.id run_graph_async-AllSupplied h in
            absurd (supplied_from p)
      ]
    where
      source :
          (p : Position the_setup [] s.trace node.id) (m : NodeSpec) (v : Value)
          → m ≡ node
          → IsSourced the_setup p.earlier m k.slot.name v
          → ⊥
      source p m v same (inl (q, _)) = cc (q, k.wired, ap (λ (n : NodeSpec). n.id) same)
      source p m v same (inr (e', q, made)) =
          let here : e' ≡ e = cc (q, k.wired, ap (λ (n : NodeSpec). n.id) same) in
          missing v (
            subst (λ (x : EdgeSpec). Produced s.trace x.from_.node x.from_.slot v) here
              (p.inside e'.from_.node e'.from_.slot v made))

      value :
          (p : Position the_setup [] s.trace node.id) (m : NodeSpec) (o : Option Value)
          → m ≡ node
          → get (entry p.place).inputs k.slot.name ≡ o
          → is_some o ≡ true
          → ((slot : String) (v : Value)
              → get (entry p.place).inputs slot ≡ some v
              → IsSourced the_setup p.earlier m slot v)
          → ⊥
      value p m none same q h from = cc
      value p m (some v) same q h from = source p m v same (from k.slot.name v q)

      supplied_from : Position the_setup [] s.trace node.id → ⊥
      supplied_from p =
          let u = p.supplied in
          let same : u.node ≡ node =
            cc (u.stored, k.stored, ap (λ i. get the_setup.nodes_by_id i) p.named) in
          let d : u.definition ≡ k.definition =
            cc (u.registered, k.registered, ap (definition_of the_setup) same) in
          let slots : or_empty (effective_inputs u.definition u.node)
              ≡ or_empty (effective_inputs k.definition node) =
            cc (d, same) in
          value p u.node _ same refl
            (All-Listed (IsFilled (entry p.place).inputs) _ k.slot
              (subst (All (IsFilled (entry p.place).inputs)) slots u.filled) k.listed k.required)
            u.sourced

  -- A failed node starves every node that needs one of its outputs.
  pub run_graph_async-propagates :
      (node : NodeSpec) (e : EdgeSpec)
      → Distinct (node_ids g)
      → Needs (setup_of g registry resources run_id times) node e
      → Failed s.trace e.from_.node
      → contains (traced_ids s.trace) node.id ≡ false
  run_graph_async-propagates node e d k failed = run_graph_async-skips node e k (λ v.
      Failed-not_Produced the_setup [] s.trace e.from_.node e.from_.slot v
        run_graph_async-AllSupplied
        (run_graph_async-once g registry resources run_id times s d run).0 failed)

  -- A node that needs the output of a sub-node is never run.
  pub run_graph_async-sub_node_starves :
      (node : NodeSpec) (e : EdgeSpec)
      → Distinct (node_ids g)
      → Needs (setup_of g registry resources run_id times) node e
      → contains (sub_node_sources g.edges) e.from_.node ≡ true
      → contains (traced_ids s.trace) node.id ≡ false
  run_graph_async-sub_node_starves node e d k sub = run_graph_async-skips node e k (λ v p.
      let ran = Produced-contains s.trace e.from_.node e.from_.slot v p in
      let once = (run_graph_async-once g registry resources run_id times s d run).1 in
      cc ((once e.from_.node ran).1, sub))
