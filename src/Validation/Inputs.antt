-- ===== src/Validation/Inputs.antt =====
-- backend/validation/rules.py: `check_required_inputs` against a description of a fed slot.
use agent_graph_studio.Prelude.{
  if◌then◌else◌, Bool-cases, ◌==◌, string_eq, any, All, contains, String, ◌≡◌, refl, ◌↔◌, ◌⊎◌, inl,
  inr, Bool, true, false, ◌&&◌, ◌||◌, Option, none, some, List, [], ◌∷◌, ◌++◌, arith,
}
use agent_graph_studio.Prelude.{pair_eq, option_eq}
use agent_graph_studio.Prelude.Dict.{has}
use agent_graph_studio.Schema.Models.{EdgeSpec, NodeSpec, GraphSpec}
use agent_graph_studio.Registry.{
  NodeDefinition, NodeRegistry, InputSlotSpec, effective_inputs, get_type,
}
use agent_graph_studio.Validation.Issue.{ValidationIssue}
use agent_graph_studio.Validation.Slots.{
  covered_slots, is_missing, missing_inputs, missing_of, required_inputs, check_required_inputs,
}

-- A required slot has a literal value, or some edge ends in it.
abbrev pub IsFed : List EdgeSpec → NodeSpec → InputSlotSpec → Type 0
IsFed edges node slot =
    slot.required ≡ true
    → (has node.input_values slot.name ≡ true)
      ⊎ (any (λ (e : EdgeSpec). e.to.node == node.id && e.to.slot == some slot.name) edges ≡ true)

contains-covered_slots :
    (edges : List EdgeSpec) (id : String) (slot : Option String)
    → contains (covered_slots edges) (id, slot)
      ≡ any (λ (e : EdgeSpec). e.to.node == id && e.to.slot == slot) edges
contains-covered_slots [] id slot = refl
contains-covered_slots (e ∷ edges) id slot = ground (arith, contains-covered_slots edges id slot)

is_missing-IsFed :
    (edges : List EdgeSpec) (node : NodeSpec) (slot : InputSlotSpec)
    → (is_missing (covered_slots edges) node slot ≡ false) ↔ IsFed edges node slot
unfolding is_missing
is_missing-IsFed edges node slot =
    let k = contains-covered_slots edges node.id (some slot.name) in
    (
      λ h r. elim (Bool-cases (has node.input_values slot.name)) [
        | inl v ↦ inl v
        | inr v ↦ inr (ground arith)
      ],
      λ f. elim (Bool-cases (slot.required)) [
        | inr r ↦ ground arith
        | inl r ↦ elim (f r) [ inl v ↦ ground arith | inr v ↦ ground arith ]
      ],
    )

missing_inputs-nil :
    (edges : List EdgeSpec) (node : NodeSpec) (slots : List InputSlotSpec)
    → (missing_inputs (covered_slots edges) node slots ≡ []) ↔ All (IsFed edges node) slots
unfolding missing_inputs
missing_inputs-nil edges node [] = (λ h. tt, λ h. refl)
missing_inputs-nil edges node (slot ∷ slots) =
    let k = is_missing-IsFed edges node slot in
    let rest = missing_inputs-nil edges node slots in
    elim (Bool-cases (is_missing (covered_slots edges) node slot)) [
      | inl m ↦ rw m (λ h. cc, λ h. cc (k.1 h.0, m))
      | inr m ↦ rw m (λ h. (k.0 m, rest.0 h), λ h. rest.1 h.1)
    ]

-- All slots of a node whose slots resolve are fed.
abbrev FedInputs : List EdgeSpec → NodeSpec → Option (List InputSlotSpec) → Type 0
FedInputs edges node none = Unit
FedInputs edges node (some slots) = All (IsFed edges node) slots

abbrev FedNode : List EdgeSpec → NodeSpec → Option NodeDefinition → Type 0
FedNode edges node none = Unit
FedNode edges node (some d) = FedInputs edges node (effective_inputs d node)

-- Every node that is registered and no sub-node has all its required slots fed.
abbrev pub AllFed :
    NodeRegistry → List EdgeSpec → List String → List String → List NodeSpec → Type 0
AllFed registry edges unregistered sub_nodes nodes =
    All
      (λ node.
        contains unregistered node.id ≡ false
        → contains sub_nodes node.id ≡ false
        → FedNode edges node (get_type registry node.type))
      nodes

inputs-nil :
    (edges : List EdgeSpec) (node : NodeSpec) (o : Option (List InputSlotSpec))
    → ((elim o as (λ _. List ValidationIssue) [
      | none ↦ []
      | some slots ↦ missing_inputs (covered_slots edges) node slots
    ])
        ≡ [])
      ↔ FedInputs edges node o
inputs-nil edges node none = (λ h. tt, λ h. refl)
inputs-nil edges node (some slots) = missing_inputs-nil edges node slots

missing_of-nil :
    (edges : List EdgeSpec) (node : NodeSpec) (o : Option NodeDefinition)
    → (missing_of (covered_slots edges) node o ≡ []) ↔ FedNode edges node o
unfolding missing_of
missing_of-nil edges node none = (λ h. tt, λ h. refl)
missing_of-nil edges node (some d) = inputs-nil edges node (effective_inputs d node)

pub append-nil_iff {ℓ} : {A : Type ℓ} (xs ys : List A) → (xs ++ ys ≡ []) ↔ ((xs ≡ []) × (ys ≡ []))
append-nil_iff [] ys = (λ h. (refl, h), λ h. h.1)
append-nil_iff (x ∷ xs) ys = (λ h. cc, λ h. cc)

skipped-nil :
    (edges : List EdgeSpec) (node : NodeSpec) (u s : Bool) (o : Option NodeDefinition)
    → ((if u || s then [] else missing_of (covered_slots edges) node o) ≡ [])
      ↔ (u ≡ false → s ≡ false → FedNode edges node o)
skipped-nil edges node true s o = (λ h p q. cc, λ h. refl)
skipped-nil edges node false true o = (λ h p q. cc, λ h. refl)
skipped-nil edges node false false o =
    let k = missing_of-nil edges node o in (λ h p q. k.0 h, λ h. k.1 (h refl refl))

required_inputs-nil :
    (registry : NodeRegistry) (edges : List EdgeSpec) (unregistered sub_nodes : List String)
    (nodes : List NodeSpec)
    → (required_inputs (covered_slots edges) registry unregistered sub_nodes nodes ≡ [])
      ↔ AllFed registry edges unregistered sub_nodes nodes
unfolding required_inputs
required_inputs-nil registry edges unregistered sub_nodes [] = (λ h. tt, λ h. refl)
required_inputs-nil registry edges unregistered sub_nodes (node ∷ nodes) =
    let here =
      skipped-nil edges node (contains unregistered node.id) (contains sub_nodes node.id)
        (get_type registry node.type) in
    let rest = required_inputs-nil registry edges unregistered sub_nodes nodes in
    let both =
      append-nil_iff
        (if contains unregistered node.id || contains sub_nodes node.id
          then []
          else missing_of (covered_slots edges) node (get_type registry node.type))
        (required_inputs (covered_slots edges) registry unregistered sub_nodes nodes) in
    (λ h. (here.0 (both.0 h).0, rest.0 (both.0 h).1), λ h. both.1 (here.1 h.0, rest.1 h.1))

-- The rule reports nothing exactly when every required slot of every node that is registered and no
-- sub-node has a literal value or is the end of one of the given edges; a node whose slots cannot be
-- resolved is passed over.
pub check_required_inputs_lem :
    (g : GraphSpec) (registry : NodeRegistry) (edges : List EdgeSpec)
    (unregistered sub_nodes : List String)
    → (check_required_inputs g registry edges unregistered sub_nodes ≡ [])
      ↔ AllFed registry edges unregistered sub_nodes g.nodes
unfolding check_required_inputs
check_required_inputs_lem g registry edges unregistered sub_nodes =
    required_inputs-nil registry edges unregistered sub_nodes g.nodes
