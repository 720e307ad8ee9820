-- ===== src/Execution/Engine/Gathering.antt =====
-- backend/execution/engine.py: what `gather_inputs` hands to a node that it calls ready.
use agent_graph_studio.Prelude.{
  Bool-cases, ◌==◌, ==_iff, string_eq, All, String, ◌≡◌, refl, subst, ◌≢◌, ◌⊎◌, inl, inr, Bool,
  true, false, Option, none, some, List, [], ◌∷◌, arith,
}
use agent_graph_studio.Prelude.{pair_eq, option_eq}
use agent_graph_studio.Prelude.Dict.{Dict, get, put, has, get-put, get-put_self}
use agent_graph_studio.Schema.Value.{Value}
use agent_graph_studio.Schema.Models.{NodeSpec, EdgeSpec}
use agent_graph_studio.Registry.{InputSlotSpec}
use agent_graph_studio.Execution.Engine.Gather.{
  SlotKey, blocked, waiting, ready, SlotStep, stop_at, skip_slot, take_value, literal_step,
  edge_step, slot_step, input_step, gather_slots,
}

-- `v` is the node's literal value for a slot with no edge, or the published value at the start of
-- the slot's edge.
abbrev pub ComesFrom :
    Dict SlotKey Value → Dict SlotKey EdgeSpec → NodeSpec → String → Value → Type 0
ComesFrom available incoming node slot v =
    ((get incoming (node.id, some slot) ≡ none) × (get node.input_values slot ≡ some v))
    ⊎ ((e : EdgeSpec) × (get incoming (node.id, some slot) ≡ some e)
        × (get available (e.from_.node, e.from_.slot) ≡ some v))

abbrev pub IsFilled : Dict String Value → InputSlotSpec → Type 0
IsFilled inputs slot = slot.required ≡ true → has inputs slot.name ≡ true

module _ (available : Dict SlotKey Value) (finished : List String) where
  literal_step-take :
      (o : Option Value) (required : Bool) (v : Value)
      → literal_step available finished o required ≡ take_value v
      → o ≡ some v
  unfolding literal_step
  literal_step-take (some w) required v h = ground arith
  literal_step-take none true v h = cc
  literal_step-take none false v h = cc

  edge_step-take :
      (o : Option Value) (source : String) (required : Bool) (v : Value)
      → edge_step available finished o source required ≡ take_value v
      → o ≡ some v
  unfolding edge_step
  edge_step-take (some w) source required v h = ground arith
  edge_step-take none source required v h = ground arith

  literal_step-skip :
      (o : Option Value) (required : Bool)
      → literal_step available finished o required ≡ skip_slot
      → required ≡ false
  unfolding literal_step
  literal_step-skip (some w) required h = cc
  literal_step-skip none required h = ground arith

  edge_step-skip :
      (o : Option Value) (source : String) (required : Bool)
      → edge_step available finished o source required ≡ skip_slot
      → required ≡ false
  unfolding edge_step
  edge_step-skip (some w) source required h = cc
  edge_step-skip none source required h = ground arith

  literal_step-ne-ready :
      (o : Option Value) (required : Bool) (g : Dict String Value)
      → literal_step available finished o required ≢ stop_at (ready g)
  unfolding literal_step
  literal_step-ne-ready o required g h = ground arith

  edge_step-ne-ready :
      (o : Option Value) (source : String) (required : Bool) (g : Dict String Value)
      → edge_step available finished o source required ≢ stop_at (ready g)
  unfolding edge_step
  edge_step-ne-ready o source required g h = ground arith

  module _ (incoming : Dict SlotKey EdgeSpec) (node : NodeSpec) where
    -- What one turn for `slot` says, when it neither blocks nor waits.
    abbrev StepFacts : InputSlotSpec → Option EdgeSpec → SlotStep → Type 0
    StepFacts slot o (stop_at (ready g)) = ⊥
    StepFacts slot o (stop_at blocked) = Unit
    StepFacts slot o (stop_at waiting) = Unit
    StepFacts slot o skip_slot = slot.required ≡ false
    StepFacts slot o (take_value v) = ComesFrom available incoming node slot.name v

    slot_step-facts :
        (slot : InputSlotSpec) (o : Option EdgeSpec) (t : SlotStep)
        → get incoming (node.id, some slot.name) ≡ o
        → slot_step available finished o (get node.input_values slot.name) slot.required ≡ t
        → StepFacts slot o t
    unfolding slot_step
    slot_step-facts slot none (stop_at (ready g)) e h = literal_step-ne-ready _ _ g h
    slot_step-facts slot none (stop_at blocked) e h = tt
    slot_step-facts slot none (stop_at waiting) e h = tt
    slot_step-facts slot none skip_slot e h = literal_step-skip _ _ h
    slot_step-facts slot none (take_value v) e h = inl (e, literal_step-take _ _ v h)
    slot_step-facts slot (some x) (stop_at (ready g)) e h = edge_step-ne-ready _ _ _ g h
    slot_step-facts slot (some x) (stop_at blocked) e h = tt
    slot_step-facts slot (some x) (stop_at waiting) e h = tt
    slot_step-facts slot (some x) skip_slot e h = edge_step-skip _ _ _ h
    slot_step-facts slot (some x) (take_value v) e h = inr (x, e, edge_step-take _ _ _ v h)

    input_step-facts :
        (slot : InputSlotSpec) (t : SlotStep)
        → input_step available finished incoming node slot ≡ t
        → StepFacts slot (get incoming (node.id, some slot.name)) t
    unfolding input_step
    input_step-facts slot t h = slot_step-facts slot _ t refl h

    -- One turn of the loop that ends in `ready`.
    gather_step :
        (slot : InputSlotSpec) (slots : List InputSlotSpec) (acc g : Dict String Value)
        (t : SlotStep)
        → input_step available finished incoming node slot ≡ t
        → gather_slots available finished incoming node acc (slot ∷ slots) ≡ ready g
        → ((slot.required ≡ false)
            × (gather_slots available finished incoming node acc slots ≡ ready g))
          ⊎ ((v : Value) × ComesFrom available incoming node slot.name v
              × (gather_slots available finished incoming node (put acc slot.name v) slots
                  ≡ ready g))
    gather_step slot slots acc g (stop_at r) e h =
        let same : r ≡ ready g = unfold gather_slots in rw (e, gather_slots) at h in
        absurd (
          subst (λ q. StepFacts slot (get incoming (node.id, some slot.name)) (stop_at q)) same
            (input_step-facts slot (stop_at r) e))
    gather_step slot slots acc g skip_slot e h =
        inl (input_step-facts slot skip_slot e, unfold gather_slots in rw (e, gather_slots) at h)
    gather_step slot slots acc g (take_value v) e h = inr (
      v,
      input_step-facts slot (take_value v) e,
      unfold gather_slots in rw (e, gather_slots) at h,
    )

    put-ComesFrom :
        (acc : Dict String Value) (slot name : String) (v w : Value)
        → ((n : String) (u : Value) → get acc n ≡ some u → ComesFrom available incoming node n u)
        → ComesFrom available incoming node slot v
        → get (put acc slot v) name ≡ some w
        → ComesFrom available incoming node name w
    put-ComesFrom acc slot name v w old new h = elim (Bool-cases (slot == name)) [
      | inl p ↦
          let same : v ≡ w = ground (arith, get-put acc slot name v) in
          subst (λ u. ComesFrom available incoming node name u) same
            (subst (λ n. ComesFrom available incoming node n v) ((==_iff slot name).0 p) new)
      | inr p ↦ old name w (ground (arith, get-put acc slot name v))
    ]

    pub gather_slots-ComesFrom :
        (slots : List InputSlotSpec) (acc g : Dict String Value)
        → gather_slots available finished incoming node acc slots ≡ ready g
        → ((n : String) (u : Value) → get acc n ≡ some u → ComesFrom available incoming node n u)
        → (name : String) (v : Value) → get g name ≡ some v
        → ComesFrom available incoming node name v
    gather_slots-ComesFrom [] acc g h old name v e =
        old name v (unfold gather_slots in ground arith)
    gather_slots-ComesFrom (slot ∷ slots) acc g h old name v e =
        elim (gather_step slot slots acc g _ refl h) [
          | inl (_, h') ↦ gather_slots-ComesFrom slots acc g h' old name v e
          | inr (w, from, h') ↦
              gather_slots-ComesFrom slots (put acc slot.name w) g h'
                (λ n u. put-ComesFrom acc slot.name n w u old from) name v e
        ]

    gather_slots-has :
        (slots : List InputSlotSpec) (acc g : Dict String Value) (name : String)
        → gather_slots available finished incoming node acc slots ≡ ready g
        → has acc name ≡ true
        → has g name ≡ true
    gather_slots-has [] acc g name h old = unfold gather_slots in ground arith
    gather_slots-has (slot ∷ slots) acc g name h old =
        elim (gather_step slot slots acc g _ refl h) [
          | inl (_, h') ↦ gather_slots-has slots acc g name h' old
          | inr (w, from, h') ↦
              gather_slots-has slots (put acc slot.name w) g name h'
                (ground (arith, get-put acc slot.name name w))
        ]

    pub gather_slots-IsFilled :
        (slots : List InputSlotSpec) (acc g : Dict String Value)
        → gather_slots available finished incoming node acc slots ≡ ready g
        → All (IsFilled g) slots
    gather_slots-IsFilled [] acc g h = tt
    gather_slots-IsFilled (slot ∷ slots) acc g h = elim (gather_step slot slots acc g _ refl h) [
      | inl (optional, h') ↦ (λ r. cc, gather_slots-IsFilled slots acc g h')
      | inr (w, from, h') ↦ (
        λ r.
            gather_slots-has slots (put acc slot.name w) g slot.name h'
              (ground (arith, get-put_self acc slot.name w)),
        gather_slots-IsFilled slots (put acc slot.name w) g h',
      )
    ]
