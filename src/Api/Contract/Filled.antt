-- ===== src/Api/Contract/Filled.antt =====
-- backend/api/app.py: the graph that an invocation runs, told from the stored nodes and the request.
use agent_graph_studio.Prelude.{
  if◌then◌else◌, Bool-cases, ◌==◌, ==_iff, string_eq, any, All, Distinct, contains, String, ◌≡◌,
  refl, sym, ap, subst, ◌∙◌, ◌⊎◌, inl, inr, true, false, Option, none, some, List, [], ◌∷◌, map,
  arith, nat_eq, pair_eq, option_eq,
}
use agent_graph_studio.Prelude.Dict.{Dict, get, put, keys, get-put}
use agent_graph_studio.Schema.Value.{Value, text}
use agent_graph_studio.Schema.Models.{NodeSpec}
use agent_graph_studio.Api.Contract.{
  Contract, no_contract, contract_nodes, external_name, set_value, apply_at, apply_inputs,
}
use agent_graph_studio.Api.Contract.Names.{is_input, is_entry, contract_nodes-is_entry}

abbrev pub with_value : String → NodeSpec → NodeSpec
with_value value node = record node { config = put node.config "value" (text value) }

abbrev pub ids_of : List NodeSpec → List String
ids_of ns = map (λ (n : NodeSpec). n.id) ns

abbrev set_at : Option String → String → NodeSpec → NodeSpec
set_at o value node = if is_entry o node then with_value value node else node

any-id :
    (ns : List NodeSpec) (id : String)
    → any (λ (n : NodeSpec). n.id == id) ns ≡ contains (ids_of ns) id
any-id [] id = refl
any-id (n ∷ ns) id = ground (arith, any-id ns id)

set_value-map :
    (ns : List NodeSpec) (id value : String)
    → Distinct (ids_of ns)
    → set_value ns id value ≡ map (set_at (some id) value) ns
unfolding set_value
set_value-map [] id value d = refl
set_value-map (n ∷ ns) id value d = elim (Bool-cases (n.id == id)) [
  | inl e ↦
      let fresh : any (λ (m : NodeSpec). m.id == n.id) ns ≡ false = any-id ns n.id ∙ d.0 in
      let other : any (λ (m : NodeSpec). m.id == id) ns ≡ false =
        subst (λ (x : String). any (λ (m : NodeSpec). m.id == x) ns ≡ false) ((==_iff n.id id).0 e)
          fresh in
      rw (e, other) (ap (λ rest. with_value value n ∷ rest) (set_value-map ns id value d.1))
  | inr e ↦ rw e (ap (λ rest. n ∷ rest) (set_value-map ns id value d.1))
]

map-set_none : (ns : List NodeSpec) (value : String) → ns ≡ map (set_at none value) ns
map-set_none [] value = refl
map-set_none (n ∷ ns) value = ap (λ rest. n ∷ rest) (map-set_none ns value)

apply_at-map :
    (ns : List NodeSpec) (o : Option String) (value : String)
    → Distinct (ids_of ns)
    → apply_at ns o value ≡ map (set_at o value) ns
apply_at-map ns none value d = map-set_none ns value
apply_at-map ns (some id) value d = set_value-map ns id value d

id-set_at : (o : Option String) (value : String) (n : NodeSpec) → (set_at o value n).id ≡ n.id
id-set_at o value n = elim (Bool-cases (is_entry o n)) [ inl e ↦ rw e refl | inr e ↦ rw e refl ]

ids_of-map :
    (ns : List NodeSpec) (o : Option String) (value : String)
    → ids_of (map (set_at o value) ns) ≡ ids_of ns
ids_of-map [] o value = refl
ids_of-map (n ∷ ns) o value = rw (id-set_at o value n, ids_of-map ns o value) refl

-- All that the loop does to one node.
abbrev pub fill : Dict String String → Dict String String → NodeSpec → NodeSpec
fill ids [] n = n
fill ids ((name, value) ∷ supplied) n = fill ids supplied (set_at (get ids name) value n)

map-fill :
    (ids : Dict String String) (supplied : Dict String String) (o : Option String) (value : String)
    (ns : List NodeSpec)
    → map (fill ids supplied) (map (set_at o value) ns)
      ≡ map (λ (n : NodeSpec). fill ids supplied (set_at o value n)) ns
map-fill ids supplied o value [] = refl
map-fill ids supplied o value (n ∷ ns) = rw (map-fill ids supplied o value ns) refl

map_self : (ns : List NodeSpec) → ns ≡ map (λ (n : NodeSpec). n) ns
map_self [] = refl
map_self (n ∷ ns) = ap (λ rest. n ∷ rest) (map_self ns)

pub apply_inputs-fill :
    (supplied : Dict String String) (ns : List NodeSpec) (ids : Dict String String)
    → Distinct (ids_of ns)
    → apply_inputs ns ids supplied ≡ map (fill ids supplied) ns
unfolding apply_inputs
apply_inputs-fill [] ns ids d = map_self ns
apply_inputs-fill ((name, value) ∷ supplied) ns ids d =
    ap (λ ms. apply_inputs ms ids supplied) (apply_at-map ns (get ids name) value d)
    ∙ apply_inputs-fill supplied (map (set_at (get ids name) value) ns) ids
        (subst Distinct (sym (ids_of-map ns (get ids name) value)) d)
    ∙ map-fill ids supplied (get ids name) value ns

is_entry-with_value :
    (o : Option String) (value : String) (n : NodeSpec)
    → is_entry o (with_value value n) ≡ is_entry o n
is_entry-with_value none value n = refl
is_entry-with_value (some id) value n = refl

module _ (truthy : Value → Option String) where
  abbrev pub filled_by : Option String → NodeSpec → NodeSpec
  filled_by none n = n
  filled_by (some value) n = with_value value n

  -- A text input gets the value that is supplied under its name.
  abbrev pub filled : Dict String String → NodeSpec → NodeSpec
  filled supplied n =
      if n.type == "text_input" then filled_by (get supplied (external_name truthy n)) n else n

  is_input-with_value :
      (name value : String) (n : NodeSpec)
      → is_input truthy name (with_value value n) ≡ is_input truthy name n
  is_input-with_value name value n = rw (get-put n.config "value" "label" (text value)) refl

  -- Without its own name among those that are left, a node stays.
  fill-other :
      (supplied : Dict String String) (ids : Dict String String) (n : NodeSpec)
      → ((name : String) → is_entry (get ids name) n ≡ is_input truthy name n)
      → (contains (keys supplied) (external_name truthy n) ≡ false)
        ⊎ ((n.type == "text_input") ≡ false)
      → fill ids supplied n ≡ n
  fill-other [] ids n f h = refl
  fill-other ((name, value) ∷ supplied) ids n f h =
      let off : is_entry (get ids name) n ≡ false = f name ∙ elim h [
        | inl k ↦
            ground
              (arith, ==_iff name (external_name truthy n), ==_iff (external_name truthy n) name)
        | inr k ↦ ground arith
      ] in
      rw off (fill-other supplied ids n f (elim h [ inl k ↦ inl (ground arith) | inr k ↦ inr k ]))

  pub fill-filled :
      (supplied : Dict String String) (ids : Dict String String) (n : NodeSpec)
      → ((name : String) → is_entry (get ids name) n ≡ is_input truthy name n)
      → Distinct (keys supplied)
      → fill ids supplied n ≡ filled supplied n
  unfolding get
  fill-filled [] ids n f d = elim (Bool-cases (n.type == "text_input")) [
    | inl t ↦ rw t refl
    | inr t ↦ rw t refl
  ]
  fill-filled ((name, value) ∷ supplied) ids n f d = elim (Bool-cases (n.type == "text_input")) [
    | inr t ↦ fill-other ((name, value) ∷ supplied) ids n f (inr t) ∙ rw t refl
    | inl t ↦ elim (Bool-cases (name == external_name truthy n)) [
      | inl e ↦
          let on : is_entry (get ids name) n ≡ true =
            f name
            ∙ ground (
              arith,
              t,
              ==_iff name (external_name truthy n),
              ==_iff (external_name truthy n) name,
            ) in
          rw (on, t, e)
            (fill-other supplied ids (with_value value n)
              (λ m.
                is_entry-with_value (get ids m) value n ∙ f m ∙ sym (is_input-with_value m value n))
              (inl (
                rw (get-put n.config "value" "label" (text value)) (
                  subst (λ (x : String). contains (keys supplied) x ≡ false)
                    ((==_iff name (external_name truthy n)).0 e) d.0))))
      | inr e ↦
          let off : is_entry (get ids name) n ≡ false =
            f name
            ∙ ground (
              arith,
              e,
              ==_iff name (external_name truthy n),
              ==_iff (external_name truthy n) name,
            ) in
          rw (off, e) (fill-filled supplied ids n f d.1)
    ]
  ]

  map-fill_filled :
      (supplied ids : Dict String String) (ns : List NodeSpec)
      → ((name : String)
          → All (λ (n : NodeSpec). is_entry (get ids name) n ≡ is_input truthy name n) ns)
      → Distinct (keys supplied)
      → map (fill ids supplied) ns ≡ map (filled supplied) ns
  map-fill_filled supplied ids [] f d = refl
  map-fill_filled supplied ids (n ∷ ns) f d =
      rw
        (
          fill-filled supplied ids n (λ name. (f name).0) d,
          map-fill_filled supplied ids ns (λ name. (f name).1) d,
        )
        refl

  no_entry : (ns : List NodeSpec) → All (λ (n : NodeSpec). is_entry none n ≡ false) ns
  no_entry [] = tt
  no_entry (n ∷ ns) = (refl, no_entry ns)

  -- Writing a request with distinct names into a graph with distinct ids, by its contract, gives every text
  -- input the value that is supplied under its name, and leaves all else.
  pub apply_inputs-filled :
      (ns : List NodeSpec) (d : Contract) (supplied : Dict String String)
      → contract_nodes truthy no_contract ns ≡ inl d
      → Distinct (ids_of ns)
      → Distinct (keys supplied)
      → apply_inputs ns d.input_ids supplied ≡ map (filled supplied) ns
  apply_inputs-filled ns d supplied h ids names =
      apply_inputs-fill supplied ns d.input_ids ids
      ∙ map-fill_filled supplied d.input_ids ns
          (λ name.
            contract_nodes-is_entry truthy ns no_contract d name h ids (unfold get in no_entry ns))
          names
