-- ===== src/Execution/Engine/WasReady.antt =====
-- backend/execution/engine.py: the nodes of a round, as the scan found them.
use agent_graph_studio.Prelude.{
  string_eq, All, All-append, String, ◌≡◌, refl, Option, none, some, List, [], ◌∷◌, arith,
}
use agent_graph_studio.Prelude.{pair_eq, option_eq}
use agent_graph_studio.Prelude.Dict.{Dict, get}
use agent_graph_studio.Schema.Value.{Value}
use agent_graph_studio.Schema.Models.{NodeSpec}
use agent_graph_studio.Registry.{NodeDefinition, effective_inputs}
use agent_graph_studio.Execution.Engine.Gather.{
  Setup, RunState, Readiness, blocked, waiting, ready, gather_slots, or_empty, gathered,
  definition_of, gather_node, gather_inputs,
}
use agent_graph_studio.Execution.Engine.Round.{Scan, place, scanned, scan, start_scan}
use agent_graph_studio.Execution.Engine.Scans.{scan_ind}

-- The node `id` was found ready with the inputs `g`, when `finished` were the finished nodes.
pub record WasReady (setup : Setup) (s : RunState) (id : String) (g : Dict String Value)
    : Type 0 where
  pub finished : List String
  pub node : NodeSpec
  pub definition : NodeDefinition
  pub stored : get setup.nodes_by_id id ≡ some node
  pub registered : definition_of setup node ≡ some definition
  pub found_ready :
      gather_slots s.available finished setup.incoming_by_slot node []
        (or_empty (effective_inputs definition node))
      ≡ ready g

gather_node-WasReady :
    (setup : Setup) (s : RunState) (finished : List String) (node : NodeSpec) (id : String)
    (g : Dict String Value) (o : Option NodeDefinition)
    → get setup.nodes_by_id id ≡ some node
    → definition_of setup node ≡ o
    → gather_node setup s finished (some node) id ≡ gathered (ready g)
    → WasReady setup s id g
gather_node-WasReady setup s finished node id g none e q h =
    absurd (unfold gather_node in ground arith)
gather_node-WasReady setup s finished node id g (some d) e q h = record {
  finished = finished;
  node = node;
  definition = d;
  stored = e;
  registered = q;
  found_ready = unfold gather_node in ground arith;
}

gather_inputs-WasReady :
    (setup : Setup) (s : RunState) (finished : List String) (id : String) (g : Dict String Value)
    (o : Option NodeSpec)
    → get setup.nodes_by_id id ≡ o
    → gather_inputs setup s finished id ≡ gathered (ready g)
    → WasReady setup s id g
gather_inputs-WasReady setup s finished id g none e h =
    absurd (unfold gather_inputs gather_node in ground arith)
gather_inputs-WasReady setup s finished id g (some node) e h =
    gather_node-WasReady setup s finished node id g _ e refl
      (unfold gather_inputs in rw (e, gather_inputs) at h)

abbrev pub AllReady : Setup → RunState → List (String × Dict String Value) → Type 0
AllReady setup s ns = All (λ n. WasReady setup s n.0 n.1) ns

place-AllReady :
    (setup : Setup) (s : RunState) (c : Scan) (id : String) (r : Readiness)
    → AllReady setup s c.ready_nodes
    → gather_inputs setup s c.finished id ≡ gathered r
    → AllReady setup s (place c id r).ready_nodes
unfolding place
place-AllReady setup s c id blocked v e = v
place-AllReady setup s c id waiting v e = v
place-AllReady setup s c id (ready g) v e =
    All-append _ c.ready_nodes ((id, g) ∷ []) v
      (gather_inputs-WasReady setup s c.finished id g _ refl e, tt)

-- Every ready node of a scan was found so by `gather_inputs`.
pub scan-AllReady :
    (setup : Setup) (s : RunState) (c : Scan)
    → scan setup s (start_scan s) s.pending ≡ scanned c
    → AllReady setup s c.ready_nodes
scan-AllReady setup s c h =
    scan_ind setup s (λ ids c'. AllReady setup s c'.ready_nodes)
      (λ id ids c' r v e. place-AllReady setup s c' id r v e) s.pending (start_scan s) c tt h
