-- ===== src/Api/Contract/Names.antt =====
-- backend/api/app.py: the names in the contract of a graph, told from its nodes.
use agent_graph_studio.Prelude.{
  if◌then◌else◌, is_some, Bool-cases, ◌==◌, ==_iff, ==_refl, string_eq, any, All, Distinct,
  contains, String, ◌≡◌, refl, sym, subst, ◌∙◌, ◌⊎◌, inl, inr, Bool, true, false, not, ◌&&◌, ◌||◌,
  Option, none, some, List, [], ◌∷◌, ◌++◌, map, arith, nat_eq, pair_eq, option_eq,
}
use agent_graph_studio.Prelude.Dict.{Dict, get, has, get-put}
use agent_graph_studio.Schema.Value.{Value}
use agent_graph_studio.Schema.Models.{NodeSpec}
use agent_graph_studio.Api.Contract.{
  Contract, InvokeContractField, external_name, input_field, and_truthy, contract_node,
  contract_nodes, then_contract,
}

-- The node with the id of the table, if there is one.
abbrev pub is_entry : Option String → NodeSpec → Bool
is_entry none node = false
is_entry (some id) node = node.id == id

module _ (truthy : Value → Option String) where
  -- The node is a text input that callers know by the name.
  abbrev pub is_input : String → NodeSpec → Bool
  is_input name node = node.type == "text_input" && external_name truthy node == name

  -- A text input has a value of its own, or is given one.
  abbrev pub has_value : Dict String String → NodeSpec → Bool
  has_value supplied node =
      not (node.type == "text_input")
      || (is_some (and_truthy truthy (get node.config "value"))
          || has supplied (external_name truthy node))

  -- What one node does to the table of the inputs, if it is no second input of a name.
  get-contract_node :
      (c e : Contract) (node : NodeSpec) (name : String)
      → contract_node truthy c node ≡ inl e
      → get e.input_ids name ≡ (if is_input name node then some node.id else get c.input_ids name)
  unfolding contract_node
  get-contract_node c e node name h = elim (Bool-cases (node.type == "text_input")) [
    | inl t ↦ elim (Bool-cases (has c.input_ids (external_name truthy node))) [
      | inl d ↦ let k = rw (t, d) at h in absurd (ground arith)
      | inr d ↦
          let k = rw (t, d) at h in
          rw t (ground (arith, k, get-put c.input_ids (external_name truthy node) name node.id))
    ]
    | inr t ↦ elim (Bool-cases (node.type == "text_output")) [
      | inl u ↦ elim (Bool-cases (has c.output_ids (external_name truthy node))) [
        | inl d ↦ let k = rw (t, u, d) at h in absurd (ground arith)
        | inr d ↦ let k = rw (t, u, d) at h in rw t (ground (arith, k))
      ]
      | inr u ↦ let k = rw (t, u) at h in rw t (ground (arith, k))
    ]
  ]

  -- An input that is accepted has a new name.
  contract_node-new :
      (c e : Contract) (node : NodeSpec) (name : String)
      → contract_node truthy c node ≡ inl e
      → is_input name node ≡ true
      → get c.input_ids name ≡ none
  unfolding contract_node
  contract_node-new c e node name h i =
      let t : (node.type == "text_input") ≡ true = ground arith in
      elim (Bool-cases (has c.input_ids (external_name truthy node))) [
        | inl d ↦ let k = rw (t, d) at h in absurd (ground arith)
        | inr d ↦ ground (arith, i, d, ==_iff (external_name truthy node) name)
      ]

  -- The loop in two steps.
  then_contract-inl :
      (r : Contract ⊎ String) (nodes : List NodeSpec) (d : Contract)
      → then_contract r (λ e. contract_nodes truthy e nodes) ≡ inl d
      → (e : Contract) × (r ≡ inl e) × (contract_nodes truthy e nodes ≡ inl d)
  then_contract-inl (inl e) nodes d h = (e, refl, h)
  then_contract-inl (inr x) nodes d h = absurd (ground arith)

  contract_nodes-kept :
      (nodes : List NodeSpec) (c d : Contract) (name id : String)
      → contract_nodes truthy c nodes ≡ inl d
      → get c.input_ids name ≡ some id
      → get d.input_ids name ≡ some id
  unfolding contract_nodes
  contract_nodes-kept [] c d name id h k = ground arith
  contract_nodes-kept (node ∷ nodes) c d name id h k =
      let (e, first, rest) = then_contract-inl (contract_node truthy c node) nodes d h in
      contract_nodes-kept nodes e d name id rest (elim (Bool-cases (is_input name node)) [
        | inl i ↦ let new = contract_node-new c e node name first i in absurd (ground arith)
        | inr i ↦ get-contract_node c e node name first ∙ rw i k
      ])

  -- A name of the table was there before, or its id is that of a node.
  contract_nodes-from :
      (nodes : List NodeSpec) (c d : Contract) (name id : String)
      → contract_nodes truthy c nodes ≡ inl d
      → get d.input_ids name ≡ some id
      → (get c.input_ids name ≡ some id) ⊎ (contains (map (λ (n : NodeSpec). n.id) nodes) id ≡ true)
  unfolding contract_nodes
  contract_nodes-from [] c d name id h k = inl (ground arith)
  contract_nodes-from (node ∷ nodes) c d name id h k =
      let (e, first, rest) = then_contract-inl (contract_node truthy c node) nodes d h in
      elim (contract_nodes-from nodes e d name id rest k) [
        | inr later ↦ inr (ground arith)
        | inl at_node ↦ elim (Bool-cases (is_input name node)) [
          | inl i ↦
              let same : some node.id ≡ some id =
                sym (get-contract_node c e node name first ∙ rw i refl) ∙ at_node in
              inr (ground (arith, same, ==_iff node.id id))
          | inr i ↦ inl (sym (get-contract_node c e node name first ∙ rw i refl) ∙ at_node)
        ]
      ]

  -- The table names a node by a name exactly if it is a text input that is known by it.
  pub contract_nodes-is_entry :
      (nodes : List NodeSpec) (c d : Contract) (name : String)
      → contract_nodes truthy c nodes ≡ inl d
      → Distinct (map (λ (n : NodeSpec). n.id) nodes)
      → All (λ (n : NodeSpec). is_entry (get c.input_ids name) n ≡ false) nodes
      → All (λ (n : NodeSpec). is_entry (get d.input_ids name) n ≡ is_input name n) nodes
  unfolding contract_nodes
  contract_nodes-is_entry [] c d name h dist apart = tt
  contract_nodes-is_entry (node ∷ nodes) c d name h dist apart =
      let (e, first, rest) = then_contract-inl (contract_node truthy c node) nodes d h in
      elim (Bool-cases (is_input name node)) [
        | inl i ↦
            let at_e : get e.input_ids name ≡ some node.id =
              get-contract_node c e node name first ∙ rw i refl in
            (
              rw (contract_nodes-kept nodes e d name node.id rest at_e, i) (==_refl node.id),
              contract_nodes-is_entry nodes e d name rest dist.1
                  (rw at_e (others nodes node.id dist.0)),
            )
        | inr i ↦
            let at_e : get e.input_ids name ≡ get c.input_ids name =
              get-contract_node c e node name first ∙ rw i refl in
            (
              rw i (
                  head_apart c e d name node nodes (get d.input_ids name) refl at_e rest dist.0
                    apart.0),
              contract_nodes-is_entry nodes e d name rest dist.1 (rw at_e apart.1),
            )
      ]
    where
      others :
          (ns : List NodeSpec) (id : String)
          → contains (map (λ (n : NodeSpec). n.id) ns) id ≡ false
          → All (λ (n : NodeSpec). (n.id == id) ≡ false) ns
      others [] id h = tt
      others (n ∷ ns) id h = (ground arith, others ns id (ground arith))

      head_apart :
          (c e d : Contract) (name : String) (n : NodeSpec) (ns : List NodeSpec) (o : Option String)
          → get d.input_ids name ≡ o
          → get e.input_ids name ≡ get c.input_ids name
          → contract_nodes truthy e ns ≡ inl d
          → contains (map (λ (n : NodeSpec). n.id) ns) n.id ≡ false
          → is_entry (get c.input_ids name) n ≡ false
          → is_entry o n ≡ false
      head_apart c e d name n ns none g same rest fresh apart = refl
      head_apart c e d name n ns (some id) g same rest fresh apart =
          elim (contract_nodes-from ns e d name id rest g) [
            | inl before ↦
                let k : get c.input_ids name ≡ some id = sym same ∙ before in rw k at apart
            | inr later ↦ elim (Bool-cases (n.id == id)) [
              | inr ne ↦ ne
              | inl eq ↦
                  let same_id : n.id ≡ id = (==_iff n.id id).0 eq in
                  absurd (
                    ground (
                      arith,
                      subst (λ (x : String). contains (map (λ (m : NodeSpec). m.id) ns) x ≡ true)
                          (sym same_id) later,
                    ))
            ]
          ]

  -- The fields of the inputs are told node by node.
  abbrev pub unsupplied : Dict String String → List InvokeContractField → Bool
  unsupplied supplied fields =
      any (λ (f : InvokeContractField). f.required && not (has supplied f.name)) fields

  any-snoc :
      (p : InvokeContractField → Bool) (fs : List InvokeContractField) (f : InvokeContractField)
      → any p (fs ++ f ∷ []) ≡ (any p fs || p f)
  any-snoc p [] f = ground arith
  any-snoc p (g ∷ fs) f = ground (arith, any-snoc p fs f)

  contract_node-has_value :
      (c e : Contract) (node : NodeSpec) (supplied : Dict String String)
      → contract_node truthy c node ≡ inl e
      → unsupplied supplied e.input_fields
        ≡ (unsupplied supplied c.input_fields || not (has_value supplied node))
  unfolding contract_node
  contract_node-has_value c e node supplied h = elim (Bool-cases (node.type == "text_input")) [
    | inl t ↦ elim (Bool-cases (has c.input_ids (external_name truthy node))) [
      | inl d ↦ let k = rw (t, d) at h in absurd (ground arith)
      | inr d ↦
          let k = rw (t, d) at h in
          rw t (
            ground (
              arith,
              k,
              any-snoc (λ (f : InvokeContractField). f.required && not (has supplied f.name))
                  c.input_fields (input_field truthy node),
            ))
    ]
    | inr t ↦ elim (Bool-cases (node.type == "text_output")) [
      | inl u ↦ elim (Bool-cases (has c.output_ids (external_name truthy node))) [
        | inl d ↦ let k = rw (t, u, d) at h in absurd (ground arith)
        | inr d ↦ let k = rw (t, u, d) at h in rw t (ground (arith, k))
      ]
      | inr u ↦ let k = rw (t, u) at h in rw t (ground (arith, k))
    ]
  ]

  -- If no required field is left out, every text input has a value of its own or is given one.
  pub contract_nodes-has_value :
      (nodes : List NodeSpec) (c d : Contract) (supplied : Dict String String)
      → contract_nodes truthy c nodes ≡ inl d
      → unsupplied supplied d.input_fields ≡ false
      → (unsupplied supplied c.input_fields ≡ false)
        × All (λ (n : NodeSpec). has_value supplied n ≡ true) nodes
  unfolding contract_nodes
  contract_nodes-has_value [] c d supplied h k =
      let same : c ≡ d = ground arith in
      (subst (λ (x : Contract). unsupplied supplied x.input_fields ≡ false) (sym same) k, tt)
  contract_nodes-has_value (node ∷ nodes) c d supplied h k =
      let (e, first, rest) = then_contract-inl (contract_node truthy c node) nodes d h in
      let (at_e, all) = contract_nodes-has_value nodes e d supplied rest k in
      let both = sym (contract_node-has_value c e node supplied first) ∙ at_e in
      (ground arith, (ground arith, all))

  -- Every name of the table was there before or is that of a text input.
  pub contract_nodes-known :
      (nodes : List NodeSpec) (c d : Contract) (name : String)
      → contract_nodes truthy c nodes ≡ inl d
      → has d.input_ids name ≡ (has c.input_ids name || any (is_input name) nodes)
  unfolding contract_nodes
  contract_nodes-known [] c d name h =
      let same : c ≡ d = ground arith in
      subst (λ (x : Contract). has x.input_ids name ≡ (has c.input_ids name || false)) same
        (ground arith)
  contract_nodes-known (node ∷ nodes) c d name h =
      let (e, first, rest) = then_contract-inl (contract_node truthy c node) nodes d h in
      contract_nodes-known nodes e d name rest
      ∙ rw (get-contract_node c e node name first) (elim (Bool-cases (is_input name node)) [
        | inl i ↦ rw i (ground arith)
        | inr i ↦ rw i (ground arith)
      ])
