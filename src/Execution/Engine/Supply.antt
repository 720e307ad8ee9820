-- ===== src/Execution/Engine/Supply.antt =====
-- backend/execution/engine.py: where a recorded node's inputs come from.
use agent_graph_studio.Prelude.{
  string_eq, All, String, ◌≡◌, sym, subst, ◌⊎◌, inl, inr, Option, none, some, List, [], ◌∷◌, ◌++◌,
  append-nil, append_assoc,
}
use agent_graph_studio.Prelude.{pair_eq, option_eq}
use agent_graph_studio.Prelude.Dict.{Dict, get}
use agent_graph_studio.Schema.Value.{Value}
use agent_graph_studio.Schema.Models.{NodeSpec, EdgeSpec}
use agent_graph_studio.Registry.{NodeDefinition, effective_inputs}
use agent_graph_studio.Execution.Trace.{TraceRecord, entry}
use agent_graph_studio.Execution.Engine.Gather.{Setup, or_empty, definition_of}
use agent_graph_studio.Execution.Engine.Gathering.{IsFilled}

-- `outputs` holds `v` at `slot`.
abbrev pub Emits : Dict String Value → Option String → Value → Type 0
Emits [] slot v = ⊥
Emits ((k, w) ∷ outputs) slot v = ((some k ≡ slot) × (w ≡ v)) ⊎ Emits outputs slot v

-- A record of the node `n` in the trace has `v` among its outputs, at `slot`.
abbrev pub Produced : List TraceRecord → String → Option String → Value → Type 0
Produced [] n slot v = ⊥
Produced (r ∷ trace) n slot v =
    (((entry r).node_id ≡ n) × Emits (entry r).outputs slot v) ⊎ Produced trace n slot v

pub Produced-append_left :
    (t u : List TraceRecord) (n : String) (slot : Option String) (v : Value)
    → Produced t n slot v
    → Produced (t ++ u) n slot v
Produced-append_left [] u n slot v p = absurd p
Produced-append_left (r ∷ t) u n slot v (inl p) = inl p
Produced-append_left (r ∷ t) u n slot v (inr p) = inr (Produced-append_left t u n slot v p)

pub Produced-append_right :
    (t u : List TraceRecord) (n : String) (slot : Option String) (v : Value)
    → Produced u n slot v
    → Produced (t ++ u) n slot v
Produced-append_right [] u n slot v p = p
Produced-append_right (r ∷ t) u n slot v p = inr (Produced-append_right t u n slot v p)

-- A record's input is the node's literal value, where the slot has no edge, or was produced by the
-- node at the start of the slot's edge.
abbrev pub IsSourced : Setup → List TraceRecord → NodeSpec → String → Value → Type 0
IsSourced setup earlier node slot v =
    ((get setup.incoming_by_slot (node.id, some slot) ≡ none)
      × (get node.input_values slot ≡ some v))
    ⊎ ((e : EdgeSpec) × (get setup.incoming_by_slot (node.id, some slot) ≡ some e)
        × Produced earlier e.from_.node e.from_.slot v)

-- A record has all required inputs of its node, each with a source among the records `earlier`,
-- and shows no output if it shows an error.
pub record IsSupplied (setup : Setup) (earlier : List TraceRecord) (r : TraceRecord) : Type 0 where
  pub node : NodeSpec
  pub definition : NodeDefinition
  pub stored : get setup.nodes_by_id (entry r).node_id ≡ some node
  pub registered : definition_of setup node ≡ some definition
  pub sourced :
      (slot : String) (v : Value)
      → get (entry r).inputs slot ≡ some v
      → IsSourced setup earlier node slot v
  pub filled : All (IsFilled (entry r).inputs) (or_empty (effective_inputs definition node))
  pub silent : (m : String) → (entry r).error ≡ some m → (entry r).outputs ≡ []

abbrev pub AllSupplied : Setup → List TraceRecord → List TraceRecord → Type 0
AllSupplied setup earlier [] = Unit
AllSupplied setup earlier (r ∷ trace) =
    IsSupplied setup earlier r × AllSupplied setup (earlier ++ r ∷ []) trace

pub IsSourced-append :
    (setup : Setup) (t u : List TraceRecord) (node : NodeSpec) (slot : String) (v : Value)
    → IsSourced setup t node slot v
    → IsSourced setup (t ++ u) node slot v
IsSourced-append setup t u node slot v (inl h) = inl h
IsSourced-append setup t u node slot v (inr (e, q, p)) =
    inr (e, q, Produced-append_left t u e.from_.node e.from_.slot v p)

pub IsSupplied-append :
    (setup : Setup) (t u : List TraceRecord) (r : TraceRecord)
    → IsSupplied setup t r
    → IsSupplied setup (t ++ u) r
IsSupplied-append setup t u r k = record {
  node = k.node;
  definition = k.definition;
  stored = k.stored;
  registered = k.registered;
  sourced = λ slot v h. IsSourced-append setup t u k.node slot v (k.sourced slot v h);
  filled = k.filled;
  silent = k.silent;
}

pub AllSupplied-snoc :
    (setup : Setup) (earlier trace : List TraceRecord) (r : TraceRecord)
    → AllSupplied setup earlier trace
    → IsSupplied setup (earlier ++ trace) r
    → AllSupplied setup earlier (trace ++ r ∷ [])
AllSupplied-snoc setup earlier [] r h k =
    (subst (λ t. IsSupplied setup t r) (append-nil earlier) k, tt)
AllSupplied-snoc setup earlier (q ∷ trace) r h k = (
  h.0,
  AllSupplied-snoc setup (earlier ++ q ∷ []) trace r h.1
      (subst (λ t. IsSupplied setup t r) (sym (append_assoc earlier (q ∷ []) trace)) k),
)
