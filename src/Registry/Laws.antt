-- ===== src/Registry/Laws.antt =====
-- backend/registry/base.py: lookups after registering and unregistering a type.
use agent_graph_studio.Prelude.{
  if◌then◌else◌, ◌==◌, ==_iff, string_eq, any, String, ◌≡◌, true, none, some, arith,
}
use agent_graph_studio.Prelude.Dict.{get-put, get-pop}
use agent_graph_studio.Registry.{
  NodeDefinition, NodeRegistry, registered, register, unregister, get_type, add_checked,
  result_slot_missing, InputSlotSpec,
}

-- A registration that succeeds found no such type, adds the definition under its own name, and
-- leaves the lookup of every other name as it was.
pub get_type-register :
    (defs defs' : NodeRegistry) (d : NodeDefinition) (t : String)
    → register defs d ≡ registered defs'
    → (get_type defs d.type_name ≡ none)
      × (get_type defs' t ≡ (if d.type_name == t then some d else get_type defs t))
unfolding register get_type
get_type-register defs defs' d t h = ground (arith, get-put defs d.type_name t d)

-- Every definition stands under its own name, and its result slot, if it has static slots, is one
-- of its inputs.
pub record IsConsistent (defs : NodeRegistry) : Type 0 where
  pub named : (t : String) (d : NodeDefinition) → get_type defs t ≡ some d → d.type_name ≡ t
  pub result_slots :
      (t slot : String) (d : NodeDefinition)
      → get_type defs t ≡ some d
      → d.result_slot ≡ some slot
      → d.resolve_slots ≡ none
      → any (λ (s : InputSlotSpec). s.name == slot) d.inputs ≡ true

add_checked-result_slot :
    (defs defs' : NodeRegistry) (d : NodeDefinition) (slot : String)
    → add_checked defs d (some slot) ≡ registered defs'
    → d.resolve_slots ≡ none
    → any (λ (s : InputSlotSpec). s.name == slot) d.inputs ≡ true
unfolding add_checked result_slot_missing
add_checked-result_slot defs defs' d slot h e = ground arith

register-result_slot :
    (defs defs' : NodeRegistry) (d : NodeDefinition) (slot : String)
    → register defs d ≡ registered defs'
    → d.result_slot ≡ some slot
    → d.resolve_slots ≡ none
    → any (λ (s : InputSlotSpec). s.name == slot) d.inputs ≡ true
unfolding register
register-result_slot defs defs' d slot h e r =
    ground (arith, add_checked-result_slot defs defs' d slot)

-- Registering a type keeps the registry consistent.
pub register-IsConsistent :
    (defs defs' : NodeRegistry) (d : NodeDefinition)
    → IsConsistent defs
    → register defs d ≡ registered defs'
    → IsConsistent defs'
register-IsConsistent defs defs' d v h = record {
  named = λ t d' e.
      ground (arith, get_type-register defs defs' d t h, ==_iff d.type_name t, v.named t d');
  result_slots = λ t slot d' e r s. ground (
    arith,
    get_type-register defs defs' d t h,
    v.result_slots t slot d',
    register-result_slot defs defs' d slot h,
  );
}

-- Unregistering a type keeps the registry consistent.
pub unregister-IsConsistent :
    (defs : NodeRegistry) (name : String) → IsConsistent defs → IsConsistent (unregister defs name)
unfolding unregister get_type
unregister-IsConsistent defs name v = record {
  named = λ t d e. ground (arith, get-pop defs name t, v.named t d);
  result_slots = λ t slot d e r s. ground (arith, get-pop defs name t, v.result_slots t slot d);
}
