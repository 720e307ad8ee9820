-- ===== src/Validation/Verdict.antt =====
-- backend/validation/validator.py: what a graph without issues satisfies.
use mathlib.Core.List.{cons≢nil}
use mathlib.Core.Path.{subst₂}
use agent_graph_studio.Prelude.{
  Bool-cases, is_some, string_eq, filter_list, All, String, ◌≡◌, refl, subst, inl, inr, true, ◌&&◌,
  Option, List, [], ◌∷◌,
}
use agent_graph_studio.Prelude.Dict.{Dict}
use agent_graph_studio.Schema.Models.{GraphSpec, EdgeSpec, NodeSpec, is_data, node_ids}
use agent_graph_studio.Schema.Topo.{kahn_order}
use agent_graph_studio.Registry.{NodeRegistry, get_type}
use agent_graph_studio.Connections.Store.{ConnectionProfile}
use agent_graph_studio.Connections.Resolver.{resolved, resolve_connection_profiles}
use agent_graph_studio.Validation.Slots.{
  check_structural, check_unregistered_types, unregistered_nodes, sub_node_referenced_ids,
  check_required_inputs, check_config_schema,
}
use agent_graph_studio.Validation.Flow.{check_type_mismatches, check_cycles, cycle_issue}
use agent_graph_studio.Validation.Names.{check_missing_connections}
use agent_graph_studio.Validation.Edges.{has_ends, check_structural_lem}
use agent_graph_studio.Validation.Inputs.{AllFed, append-nil_iff, check_required_inputs_lem}
use agent_graph_studio.Validation.Resolvable.{check_missing_connections-resolved}
use agent_graph_studio.Validation.Types.{WellTyped, check_type_mismatches_lem}
use agent_graph_studio.Validation.Validator.{validate_graph}

cycle_issue-nil : (ids : List String) → cycle_issue ids ≡ [] → ids ≡ []
cycle_issue-nil [] h = refl
cycle_issue-nil (i ∷ ids) h = cc

unregistered_nodes-nil :
    (registry : NodeRegistry) (ns : List NodeSpec)
    → (unregistered_nodes registry ns).0 ≡ []
    → ((unregistered_nodes registry ns).1 ≡ [])
      × All (λ (n : NodeSpec). is_some (get_type registry n.type) ≡ true) ns
unfolding unregistered_nodes
unregistered_nodes-nil registry [] h = (refl, tt)
unregistered_nodes-nil registry (n ∷ ns) h =
    elim (Bool-cases (is_some (get_type registry n.type))) [
      | inl e ↦
          let (none_left, rest) =
            unregistered_nodes-nil registry ns (rw (e, unregistered_nodes) at h) in
          (rw e none_left, (e, rest))
      | inr e ↦ absurd (cons≢nil (rw e at h))
    ]

registered_types :
    (g : GraphSpec) (registry : NodeRegistry)
    → (check_unregistered_types g registry).0 ≡ []
    → ((check_unregistered_types g registry).1 ≡ [])
      × All (λ (n : NodeSpec). is_some (get_type registry n.type) ≡ true) g.nodes
unfolding check_unregistered_types
registered_types g registry h = unregistered_nodes-nil registry g.nodes h

no_cycles :
    (g : GraphSpec) (edges : List EdgeSpec)
    → check_cycles g edges ≡ []
    → (kahn_order (node_ids g) edges).1 ≡ []
unfolding check_cycles
no_cycles g edges h = cycle_issue-nil (kahn_order (node_ids g) edges).1 h

-- What every graph without issues satisfies.
pub record IsSound (g : GraphSpec) (registry : NodeRegistry) (store : List ConnectionProfile)
    (user_id : Option String) (mappings : Option (Dict String String)) : Type 0 where
  pub registered : All (λ (n : NodeSpec). is_some (get_type registry n.type) ≡ true) g.nodes
  pub ends : All (λ e. has_ends (node_ids g) e ≡ true) g.edges
  pub all_fed :
      AllFed registry
        (filter_list (λ (e : EdgeSpec). has_ends (node_ids g) e && is_data e.kind) g.edges)
        []
        (sub_node_referenced_ids g)
        g.nodes
  pub typed :
      All
        (WellTyped g registry [])
        (filter_list (λ (e : EdgeSpec). has_ends (node_ids g) e && is_data e.kind) g.edges)
  pub acyclic :
      (kahn_order
        (node_ids g)
        (filter_list (λ (e : EdgeSpec). has_ends (node_ids g) e && is_data e.kind) g.edges)).1
      ≡ []
  pub connected :
      (d : Dict String ConnectionProfile) × (resolve_connection_profiles user_id mappings store g
        ≡ resolved d)

-- A graph that passes validation has registered types only; every edge joins nodes of the graph; every
-- required slot of a node that is no sub-node has a literal value or a valid data edge; the valid data
-- edges join slots of the same type, where both nodes' slots are known; Kahn's algorithm leaves no node
-- of the valid data edges over; and all connections that the graph refers to to resolve.
pub validate_graph-IsSound :
    (g : GraphSpec) (registry : NodeRegistry) (store : List ConnectionProfile)
    (user_id : Option String) (mappings : Option (Dict String String))
    → validate_graph g registry store user_id mappings ≡ []
    → IsSound g registry store user_id mappings
unfolding validate_graph
validate_graph-IsSound g registry store user_id mappings h =
    let (issues, edges) = check_structural g in
    let (unregistered, ids) = check_unregistered_types g registry in
    let subs = sub_node_referenced_ids g in
    let (structural, h₁) = (append-nil_iff issues _).0 h in
    let (types, h₂) = (append-nil_iff unregistered _).0 h₁ in
    let (inputs, h₃) = (append-nil_iff (check_required_inputs g registry edges ids subs) _).0 h₂ in
    let (slots, h₄) = (append-nil_iff (check_type_mismatches g registry edges ids) _).0 h₃ in
    let (cycles, h₅) = (append-nil_iff (check_cycles g edges) _).0 h₄ in
    let (configs, h₆) = (append-nil_iff (check_config_schema g registry ids) _).0 h₅ in
    let (missing, sub_nodes) =
      (append-nil_iff (check_missing_connections user_id mappings store g) _).0 h₆ in
    let valid = (check_structural_lem g).1 in
    let (none_left, all_registered) = registered_types g registry types in
    record {
      registered = all_registered;
      ends = (check_structural_lem g).0.0 structural;
      all_fed =
          subst₂ (λ es is. AllFed registry es is subs g.nodes) valid none_left
            ((check_required_inputs_lem g registry edges ids subs).0 inputs);
      typed =
          subst₂ (λ es is. All (WellTyped g registry is) es) valid none_left
            ((check_type_mismatches_lem g registry ids edges).0 slots);
      acyclic = subst (λ es. (kahn_order (node_ids g) es).1 ≡ []) valid (no_cycles g edges cycles);
      connected = check_missing_connections-resolved user_id mappings store g missing;
    }
