-- ===== src/Validation/Types.antt =====
-- backend/validation/rules.py: `check_type_mismatches` against the types at the two ends of an edge.
use agent_graph_studio.Prelude.{
  When, Bool-cases, ◌==◌, string_eq, find, All, contains, String, ◌≡◌, refl, ◌↔◌, inl, inr, not,
  ◌||◌, Option, none, some, List, [], ◌∷◌, arith, nat_eq, pair_eq, option_eq,
}
use agent_graph_studio.Prelude.Dict.{get}
use agent_graph_studio.Schema.Types.{is_compatible_with, is_compatible_with_iff}
use agent_graph_studio.Schema.Models.{EdgeSpec, NodeSpec, GraphSpec, index_nodes}
use agent_graph_studio.Registry.{
  NodeDefinition, NodeRegistry, InputSlotSpec, OutputSlotSpec, effective_inputs, get_type,
}
use agent_graph_studio.Validation.Flow.{
  effective_outputs_for_root, slot_mismatch, resolved_mismatch, defined_mismatch, edge_mismatch,
  edge_mismatches, check_type_mismatches,
}
use agent_graph_studio.Validation.Inputs.{append-nil_iff}

abbrev source_slot : EdgeSpec → List OutputSlotSpec → Option OutputSlotSpec
source_slot e = find (λ (s : OutputSlotSpec). some s.name == e.from_.slot)

abbrev target_slot : EdgeSpec → List InputSlotSpec → Option InputSlotSpec
target_slot e = find (λ (s : InputSlotSpec). some s.name == e.to.slot)

-- Both slots exist and have one type.
abbrev Joined : Option OutputSlotSpec → Option InputSlotSpec → Type 0
Joined (some s) (some d) = s.type ≡ d.type
Joined none d = ⊥
Joined (some s) none = ⊥

module _ (g : GraphSpec) (registry : NodeRegistry) (unregistered : List String) where
  -- Where both sides' slots are known.
  abbrev JoinedSlots :
      EdgeSpec → Option (List OutputSlotSpec) → Option (List InputSlotSpec) → Type 0
  JoinedSlots e none inputs = Unit
  JoinedSlots e (some outputs) none = Unit
  JoinedSlots e (some outputs) (some inputs) = Joined (source_slot e outputs) (target_slot e inputs)

  abbrev JoinedTypes :
      EdgeSpec → NodeSpec → NodeSpec → Option NodeDefinition → Option NodeDefinition → Type 0
  JoinedTypes e src dst none dst_def = Unit
  JoinedTypes e src dst (some src_def) none = Unit
  JoinedTypes e src dst (some src_def) (some dst_def) =
      JoinedSlots e (effective_outputs_for_root src_def src g registry)
        (effective_inputs dst_def dst)

  -- The slots at the ends of an edge between registered nodes, where both sides' slots are known, exist
  -- and have one type.
  abbrev JoinedNodes : EdgeSpec → Option NodeSpec → Option NodeSpec → Type 0
  JoinedNodes e none dst = Unit
  JoinedNodes e (some src) none = Unit
  JoinedNodes e (some src) (some dst) =
      When (not (contains unregistered src.id || contains unregistered dst.id))
        (JoinedTypes e src dst (get_type registry src.type) (get_type registry dst.type))

  abbrev pub WellTyped : EdgeSpec → Type 0
  WellTyped e =
      JoinedNodes e (get (index_nodes [] g.nodes) e.from_.node)
        (get (index_nodes [] g.nodes) e.to.node)

  slot_mismatch-nil :
      (e : EdgeSpec) (src dst : NodeSpec) (s : Option OutputSlotSpec) (d : Option InputSlotSpec)
      → (slot_mismatch e src dst s d ≡ []) ↔ Joined s d
  unfolding slot_mismatch
  slot_mismatch-nil e src dst none d = (λ h. cc, λ h. elim h [ ])
  slot_mismatch-nil e src dst (some s) none = (λ h. cc, λ h. elim h [ ])
  slot_mismatch-nil e src dst (some s) (some d) =
      let k = is_compatible_with_iff s.type d.type in
      elim (Bool-cases (is_compatible_with s.type d.type)) [
        | inl c ↦ (λ h. k.0 c, λ h. rw c refl)
        | inr c ↦ (λ h. absurd (ground arith), λ h. absurd (ground (arith, k.1 h)))
      ]

  resolved_mismatch-nil :
      (e : EdgeSpec) (src dst : NodeSpec) (o : Option (List OutputSlotSpec))
      (i : Option (List InputSlotSpec))
      → (resolved_mismatch e src dst o i ≡ []) ↔ JoinedSlots e o i
  unfolding resolved_mismatch
  resolved_mismatch-nil e src dst none i = (λ h. tt, λ h. refl)
  resolved_mismatch-nil e src dst (some outputs) none = (λ h. tt, λ h. refl)
  resolved_mismatch-nil e src dst (some outputs) (some inputs) =
      slot_mismatch-nil e src dst (source_slot e outputs) (target_slot e inputs)

  defined_mismatch-nil :
      (e : EdgeSpec) (src dst : NodeSpec) (s d : Option NodeDefinition)
      → (defined_mismatch g registry e src dst s d ≡ []) ↔ JoinedTypes e src dst s d
  unfolding defined_mismatch
  defined_mismatch-nil e src dst none d = (λ h. tt, λ h. refl)
  defined_mismatch-nil e src dst (some s) none = (λ h. tt, λ h. refl)
  defined_mismatch-nil e src dst (some s) (some d) =
      resolved_mismatch-nil e src dst (effective_outputs_for_root s src g registry)
        (effective_inputs d dst)

  edge_mismatch-nil :
      (e : EdgeSpec) (s d : Option NodeSpec)
      → (edge_mismatch g registry unregistered e s d ≡ []) ↔ JoinedNodes e s d
  unfolding edge_mismatch
  edge_mismatch-nil e none d = (λ h. tt, λ h. refl)
  edge_mismatch-nil e (some s) none = (λ h. tt, λ h. refl)
  edge_mismatch-nil e (some s) (some d) =
      elim (Bool-cases (contains unregistered s.id || contains unregistered d.id)) [
        | inl u ↦ rw u (λ h. tt, λ h. refl)
        | inr u ↦
            rw u (defined_mismatch-nil e s d (get_type registry s.type) (get_type registry d.type))
      ]

  edge_mismatches-nil :
      (edges : List EdgeSpec)
      → (edge_mismatches g registry unregistered (index_nodes [] g.nodes) edges ≡ [])
        ↔ All WellTyped edges
  unfolding edge_mismatches
  edge_mismatches-nil [] = (λ h. tt, λ h. refl)
  edge_mismatches-nil (e ∷ edges) =
      let here =
        edge_mismatch-nil e (get (index_nodes [] g.nodes) e.from_.node)
          (get (index_nodes [] g.nodes) e.to.node) in
      let rest = edge_mismatches-nil edges in
      let both =
        append-nil_iff
          (edge_mismatch g registry unregistered e (get (index_nodes [] g.nodes) e.from_.node)
            (get (index_nodes [] g.nodes) e.to.node))
          (edge_mismatches g registry unregistered (index_nodes [] g.nodes) edges) in
      (λ h. (here.0 (both.0 h).0, rest.0 (both.0 h).1), λ h. both.1 (here.1 h.0, rest.1 h.1))

  -- The rule on types reports nothing exactly when each of the given edges that joins two registered nodes
  -- whose slots are known, the mirrored slots of a root included, starts at an output and ends at an input
  -- that exist and have the same type.
  pub check_type_mismatches_lem :
      (edges : List EdgeSpec)
      → (check_type_mismatches g registry edges unregistered ≡ []) ↔ All WellTyped edges
  unfolding check_type_mismatches
  check_type_mismatches_lem edges = edge_mismatches-nil edges
