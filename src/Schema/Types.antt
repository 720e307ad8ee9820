-- ===== src/Schema/Types.antt =====
-- backend/schema/types.py: slot types and their compatibility.
use agent_graph_studio.Prelude.{◌≡◌, ◌↔◌, Bool, true, false, ◌&&◌, arith}

pub data SlotType : Type 0 where
  text json file_ref embedding image boolean list : SlotType

-- `element_type` is absent in `plain` and present in `of`.
pub data SlotTypeSpec : Type 0 where
  plain : SlotType → SlotTypeSpec
  of : SlotType → SlotTypeSpec → SlotTypeSpec

pub base : SlotTypeSpec → SlotType
base (plain t) = t
base (of t e) = t

slot_type_beq : SlotType → SlotType → Bool
slot_type_beq text text = true
slot_type_beq json json = true
slot_type_beq file_ref file_ref = true
slot_type_beq embedding embedding = true
slot_type_beq image image = true
slot_type_beq boolean boolean = true
slot_type_beq list list = true
slot_type_beq _ _ = false

-- `self == other`, field by field
unfoldable pub is_compatible_with : SlotTypeSpec → SlotTypeSpec → Bool
unfolding slot_type_beq
is_compatible_with (plain s) (plain t) = slot_type_beq s t
is_compatible_with (of s e) (of t f) = slot_type_beq s t && is_compatible_with e f
is_compatible_with _ _ = false

abbrev pub text_slot : SlotTypeSpec
text_slot = plain text

slot_type_beq_iff : (s t : SlotType) → (slot_type_beq s t ≡ true) ↔ (s ≡ t)
unfolding slot_type_beq
slot_type_beq_iff s t = ground arith

-- Two slot types are compatible exactly when they are the same type, element types included.
pub is_compatible_with_iff : (s t : SlotTypeSpec) → (is_compatible_with s t ≡ true) ↔ (s ≡ t)
unfolding is_compatible_with
is_compatible_with_iff (plain s) (plain t) = ground (arith, slot_type_beq_iff s t)
is_compatible_with_iff (of s e) (of t f) =
    ground (arith, slot_type_beq_iff s t, is_compatible_with_iff e f)
is_compatible_with_iff (plain s) (of t f) = ground arith
is_compatible_with_iff (of s e) (plain t) = ground arith
