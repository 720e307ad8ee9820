-- ===== src/Registry.antt =====
-- backend/registry/base.py: node definitions and their registry.
-- What a node type brings along (its config model, its `execute`, its slot resolver) is a function
-- in its definition, as in the source.
pub mod Laws
use agent_graph_studio.Prelude.{
  if◌then◌else◌, is_some, ◌==◌, string_eq, any, String, Bool, not, ◌&&◌, Option, none, some, List,
}
use agent_graph_studio.Prelude.Dict.{Dict, get, put, pop, has, keys}
use agent_graph_studio.Schema.Value.{Value}
use agent_graph_studio.Schema.Types.{SlotTypeSpec}
use agent_graph_studio.Schema.Models.{NodeSpec}
use agent_graph_studio.Execution.Trace.{ExecutionContext, Execution}

pub record InputSlotSpec : Type 0 where
  pub name : String
  pub type : SlotTypeSpec
  pub required : Bool

pub record OutputSlotSpec : Type 0 where
  pub name : String
  pub type : SlotTypeSpec

-- `Literal["one", "zero_or_one", "many"]`
pub data Cardinality : Type 0 where
  one zero_or_one many : Cardinality

pub record SubNodeSlotSpec : Type 0 where
  pub cardinality : Cardinality
  pub accepts_role : Option String

abbrev pub ResolveSlots : Type 0
ResolveSlots = NodeSpec → Option (List InputSlotSpec × List OutputSlotSpec)

-- `config_model` is its `model_validate`: the text of the validation error, if there is one.
-- The palette fields `category`, `integration` and `capability_group` are not read by any check.
pub record NodeDefinition : Type 0 where
  pub type_name : String
  pub inputs : List InputSlotSpec
  pub outputs : List OutputSlotSpec
  pub config_model : Dict String Value → Option String
  pub execute : ExecutionContext → Execution
  pub category : String
  pub result_slot : Option String
  pub resolve_slots : Option ResolveSlots
  pub sub_node_slots : Option (Dict String SubNodeSlotSpec)
  pub sub_node_role : Option String
  pub resolve_slots_from_sub_node : Option String
  pub integration : Option String
  pub capability_group : Option String

abbrev first {ℓ κ} : {A : Type ℓ} {B : Type κ} → Option (A × B) → Option A
first none = none
first (some (a, b)) = some a

abbrev second {ℓ κ} : {A : Type ℓ} {B : Type κ} → Option (A × B) → Option B
second none = none
second (some (a, b)) = some b

unfoldable pub effective_inputs : NodeDefinition → NodeSpec → Option (List InputSlotSpec)
effective_inputs definition node = elim (definition.resolve_slots) [
  | none ↦ some definition.inputs
  | some resolve ↦ first (resolve node)
]

unfoldable pub effective_outputs : NodeDefinition → NodeSpec → Option (List OutputSlotSpec)
effective_outputs definition node = elim (definition.resolve_slots) [
  | none ↦ some definition.outputs
  | some resolve ↦ second (resolve node)
]

-- `NodeRegistry._defs`
abbrev pub NodeRegistry : Type 0
NodeRegistry = Dict String NodeDefinition

-- The two `ValueError`s of `register`.
pub data Registration : Type 0 where
  registered : NodeRegistry → Registration
  duplicate_type : String → Registration
  no_such_result_slot : String → String → Registration

-- `result_slot` names no static input slot
result_slot_missing : NodeDefinition → String → Bool
result_slot_missing definition slot =
    not (is_some definition.resolve_slots)
    && not (any (λ (s : InputSlotSpec). s.name == slot) definition.inputs)

add_checked : NodeRegistry → NodeDefinition → Option String → Registration
unfolding result_slot_missing
add_checked defs definition none = registered (put defs definition.type_name definition)
add_checked defs definition (some slot) =
    if result_slot_missing definition slot
    then no_such_result_slot definition.type_name slot
    else registered (put defs definition.type_name definition)

unfoldable pub register : NodeRegistry → NodeDefinition → Registration
unfolding add_checked
register defs definition =
    if has defs definition.type_name
    then duplicate_type definition.type_name
    else add_checked defs definition definition.result_slot

unfoldable pub unregister : NodeRegistry → String → NodeRegistry
unregister defs type_name = pop defs type_name

unfoldable pub get_type : NodeRegistry → String → Option NodeDefinition
get_type defs type_name = get defs type_name

pub all_types : NodeRegistry → List String
all_types defs = keys defs
