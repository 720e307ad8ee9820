-- ===== src/Execution/Engine/Gather.antt =====
-- backend/execution/engine.py: the state of `_run_graph_async`, and `gather_inputs`.
use agent_graph_studio.Prelude.{
  if◌then◌else◌, string_eq, contains, String, Bool, Option, none, some, List, [], ◌∷◌,
}
use agent_graph_studio.Prelude.{pair_eq, option_eq}
use agent_graph_studio.Prelude.Dict.{Dict, get, put}
use agent_graph_studio.Schema.Value.{Value}
use agent_graph_studio.Schema.Models.{NodeSpec, EdgeSpec}
use agent_graph_studio.Registry.{
  NodeDefinition, NodeRegistry, InputSlotSpec, effective_inputs, get_type,
}
use agent_graph_studio.Execution.Trace.{TraceRecord, Resource}

abbrev pub SlotKey : Type 0
SlotKey = String × Option String

-- What a run fixes before its first round. `times` gives the start and finish of a node's call.
pub record Setup : Type 0 where
  pub nodes_by_id : Dict String NodeSpec
  pub incoming_by_slot : Dict SlotKey EdgeSpec
  pub registry : NodeRegistry
  pub resources : Dict String Resource
  pub run_id : String
  pub times : String → String × String

pub data RunError : Type 0 where
  no_such_node no_such_type no_such_input : String → RunError

-- `on_round_start` and `on_trace_record`
pub data Event : Type 0 where
  round_start : List String → Event
  recorded : TraceRecord → Event

-- The records that the events carry.
abbrev pub recorded_of : List Event → List TraceRecord
recorded_of [] = []
recorded_of (round_start ids ∷ events) = recorded_of events
recorded_of (recorded t ∷ events) = t ∷ recorded_of events

pub record RunState : Type 0 where
  pub available : Dict SlotKey Value
  pub trace : List TraceRecord
  pub result : Dict String Value
  pub pending : List String
  pub finished : List String
  pub events : List Event

-- What `gather_inputs` returns.
pub data Readiness : Type 0 where
  blocked waiting : Readiness
  ready : Dict String Value → Readiness

-- One turn of the loop in `gather_inputs`: return, `continue`, or a gathered value.
pub data SlotStep : Type 0 where
  stop_at : Readiness → SlotStep
  skip_slot : SlotStep
  take_value : Value → SlotStep

abbrev pub optional_step : Bool → SlotStep
optional_step required = if required then stop_at blocked else skip_slot

module _ (available : Dict SlotKey Value) (finished : List String) where
  -- the slot has no edge
  unfoldable pub literal_step : Option Value → Bool → SlotStep
  literal_step (some v) required = take_value v
  literal_step none required = optional_step required

  -- the slot's edge starts at `(source, slot)`
  unfoldable pub edge_step : Option Value → String → Bool → SlotStep
  edge_step (some v) source required = take_value v
  edge_step none source required =
      if contains finished source then optional_step required else stop_at waiting

  unfoldable pub slot_step : Option EdgeSpec → Option Value → Bool → SlotStep
  unfolding literal_step edge_step
  slot_step none literal required = literal_step literal required
  slot_step (some e) literal required =
      edge_step (get available (e.from_.node, e.from_.slot)) e.from_.node required

  module _ (incoming : Dict SlotKey EdgeSpec) (node : NodeSpec) where
    unfoldable pub input_step : InputSlotSpec → SlotStep
    unfolding slot_step
    input_step slot =
        slot_step (get incoming (node.id, some slot.name)) (get node.input_values slot.name)
          slot.required

    unfoldable pub gather_slots : Dict String Value → List InputSlotSpec → Readiness
    gather_slots gathered [] = ready gathered
    gather_slots gathered (slot ∷ slots) = elim (input_step slot) [
      | stop_at r ↦ r
      | skip_slot ↦ gather_slots gathered slots
      | take_value v ↦ gather_slots (put gathered slot.name v) slots
    ]

-- `effective_inputs(definition, node) or []`
abbrev pub or_empty {ℓ} : {A : Type ℓ} → Option (List A) → List A
or_empty none = []
or_empty (some xs) = xs

pub data Gathered : Type 0 where
  gathered : Readiness → Gathered
  lookup_failed : RunError → Gathered

unfoldable pub definition_of : Setup → NodeSpec → Option NodeDefinition
definition_of setup node = get_type setup.registry node.type

unfoldable pub gather_node : Setup → RunState → List String → Option NodeSpec → String → Gathered
gather_node setup s finished none node_id = lookup_failed (no_such_node node_id)
gather_node setup s finished (some node) node_id = elim (definition_of setup node) [
  | none ↦ lookup_failed (no_such_type node.type)
  | some d ↦ gathered (
      gather_slots s.available finished setup.incoming_by_slot node []
        (or_empty (effective_inputs d node)))
]

unfoldable pub gather_inputs : Setup → RunState → List String → String → Gathered
unfolding gather_node
gather_inputs setup s finished node_id =
    gather_node setup s finished (get setup.nodes_by_id node_id) node_id
