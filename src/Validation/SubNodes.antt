-- ===== src/Validation/SubNodes.antt =====
-- backend/validation/rules.py: `check_sub_node_edges`.
use agent_graph_studio.Prelude.{
  ltb, if◌then◌else◌, ◌==◌, string_eq, length, filter_list, contains, ℕ, String, Bool, false, not,
  ◌||◌, Option, none, some, List, [], ◌∷◌, ◌++◌, map,
}
use agent_graph_studio.Prelude.{option_eq, nat_eq}
use agent_graph_studio.Prelude.Dict.{Dict, get, put}
use agent_graph_studio.Schema.Models.{
  EdgeSpec, NodeSpec, GraphSpec, is_data, is_sub_node, index_nodes,
}
use agent_graph_studio.Registry.{
  NodeDefinition, NodeRegistry, SubNodeSlotSpec, Cardinality, one, zero_or_one, many, get_type,
}
use agent_graph_studio.Validation.Issue.{
  ValidationIssue, issue, unknown_sub_node_slot, incompatible_sub_node_type,
  sub_node_has_conflicting_edges, sub_node_cardinality, no_sub_node_slot, wrong_role,
  conflicting_edges, not_exactly_one, more_than_one,
}

-- `connections`: root id, then slot, to the connected sub-nodes
abbrev pub SlotUsers : Type 0
SlotUsers = Dict (Option String) (List String)

abbrev pub Users : Type 0
Users = Dict String SlotUsers

abbrev pub users_of : Users → String → SlotUsers
users_of users root = elim (get users root) [ none ↦ [] | some slots ↦ slots ]

abbrev pub in_slot : SlotUsers → Option String → List String
in_slot slots slot = elim (get slots slot) [ none ↦ [] | some ids ↦ ids ]

-- `connections.setdefault(root, {}).setdefault(slot, []).append(sub)`
unfoldable pub connect : Users → String → Option String → String → Users
connect users root slot sub =
    let slots = users_of users root in
    put users root (put slots slot (in_slot slots slot ++ sub ∷ []))

-- `(d or {})`
abbrev pub slots_of : NodeDefinition → Dict String SubNodeSlotSpec
slots_of d = elim (d.sub_node_slots) [ none ↦ [] | some slots ↦ slots ]

-- `.get(edge.slot)`
unfoldable pub declared_slot : NodeDefinition → Option String → Option SubNodeSlotSpec
declared_slot d none = none
declared_slot d (some slot) = get (slots_of d) slot

-- `slot_spec.accepts_role is not None and sub_def.sub_node_role != slot_spec.accepts_role`
unfoldable pub refuses : SubNodeSlotSpec → NodeDefinition → Bool
refuses spec d = elim (spec.accepts_role) [
  | none ↦ false
  | some role ↦ not (d.sub_node_role == some role)
]

abbrev pub role_of : SubNodeSlotSpec → String
role_of spec = elim (spec.accepts_role) [ none ↦ "" | some role ↦ role ]

-- One `sub_node` edge between registered nodes: its issues, and the new `connections`.
unfoldable pub check_role :
    List String
    → Users
    → EdgeSpec
    → NodeSpec
    → NodeSpec
    → NodeDefinition
    → SubNodeSlotSpec
    → List ValidationIssue × Users
unfolding refuses connect
check_role data_targets users edge root sub sub_def spec =
    if refuses spec sub_def
    then (
      issue incompatible_sub_node_type (some root.id)
            (wrong_role edge.slot (role_of spec) sub.id sub_def.sub_node_role)
          ∷ [],
      users,
    )
    else (
      (if contains data_targets sub.id
          then issue sub_node_has_conflicting_edges (some root.id) (conflicting_edges sub.id) ∷ []
          else []),
      connect users root.id edge.slot sub.id,
    )

unfoldable pub check_slot :
    List String
    → Users
    → EdgeSpec
    → NodeSpec
    → NodeSpec
    → NodeDefinition
    → Option SubNodeSlotSpec
    → List ValidationIssue × Users
unfolding check_role
check_slot data_targets users edge root sub sub_def none =
    (issue unknown_sub_node_slot (some root.id) (no_sub_node_slot root.type edge.slot) ∷ [], users)
check_slot data_targets users edge root sub sub_def (some spec) =
    check_role data_targets users edge root sub sub_def spec

-- A node that passes the test on `unregistered_ids` has a definition.
unfoldable pub check_defined :
    List String
    → Users
    → EdgeSpec
    → NodeSpec
    → NodeSpec
    → Option NodeDefinition
    → Option NodeDefinition
    → List ValidationIssue × Users
unfolding check_slot declared_slot
check_defined data_targets users edge root sub (some root_def) (some sub_def) =
    check_slot data_targets users edge root sub sub_def (declared_slot root_def edge.slot)
check_defined data_targets users edge root sub none sub_def = ([], users)
check_defined data_targets users edge root sub (some root_def) none = ([], users)

-- `continue` for a dangling end
unfoldable pub check_ends :
    NodeRegistry
    → List String
    → List String
    → Users
    → EdgeSpec
    → Option NodeSpec
    → Option NodeSpec
    → List ValidationIssue × Users
unfolding check_defined
check_ends registry unregistered_ids data_targets users edge (some root) (some sub) =
    if contains unregistered_ids edge.to.node || contains unregistered_ids edge.from_.node
    then ([], users)
    else check_defined data_targets users edge root sub (get_type registry root.type)
        (get_type registry sub.type)
check_ends registry unregistered_ids data_targets users edge none sub = ([], users)
check_ends registry unregistered_ids data_targets users edge (some root) none = ([], users)

unfoldable pub sub_node_edges :
    NodeRegistry
    → List String
    → List String
    → Dict String NodeSpec
    → Users
    → List EdgeSpec
    → List ValidationIssue × Users
unfolding check_ends
sub_node_edges registry unregistered_ids data_targets node_by_id users [] = ([], users)
sub_node_edges registry unregistered_ids data_targets node_by_id users (edge ∷ edges) =
    let (issues, users') =
      (if is_sub_node edge.kind
        then check_ends registry unregistered_ids data_targets users edge
            (get node_by_id edge.to.node) (get node_by_id edge.from_.node)
        else ([], users)) in
    let (rest, last) =
      sub_node_edges registry unregistered_ids data_targets node_by_id users' edges in
    (issues ++ rest, last)

unfoldable pub cardinality_issue : String → String → Cardinality → ℕ → List ValidationIssue
cardinality_issue id slot one count =
    if count == 1
    then []
    else issue sub_node_cardinality (some id) (not_exactly_one slot count) ∷ []
cardinality_issue id slot zero_or_one count =
    if ltb 1 count then issue sub_node_cardinality (some id) (more_than_one slot count) ∷ [] else []
cardinality_issue id slot many count = []

unfoldable pub slot_counts : String → SlotUsers → Dict String SubNodeSlotSpec → List ValidationIssue
unfolding cardinality_issue
slot_counts id users [] = []
slot_counts id users ((slot, spec) ∷ slots) =
    cardinality_issue id slot spec.cardinality (length (in_slot users (some slot)))
    ++ slot_counts id users slots

unfoldable pub node_counts : NodeSpec → Users → Option NodeDefinition → List ValidationIssue
unfolding slot_counts
node_counts node users none = []
node_counts node users (some d) = slot_counts node.id (users_of users node.id) (slots_of d)

unfoldable pub all_counts :
    NodeRegistry → List String → Users → List NodeSpec → List ValidationIssue
unfolding node_counts
all_counts registry unregistered_ids users [] = []
all_counts registry unregistered_ids users (node ∷ nodes) =
    (if contains unregistered_ids node.id
      then []
      else node_counts node users (get_type registry node.type))
    ++ all_counts registry unregistered_ids users nodes

-- `{e.to.node for e in graph.edges if e.kind == "data"}`
abbrev pub data_edge_targets : List EdgeSpec → List String
data_edge_targets es = map (λ e. e.to.node) (filter_list (λ (e : EdgeSpec). is_data e.kind) es)

unfoldable pub check_sub_node_edges : GraphSpec → NodeRegistry → List String → List ValidationIssue
unfolding sub_node_edges all_counts
check_sub_node_edges g registry unregistered_ids =
    let (issues, users) =
      sub_node_edges registry unregistered_ids (data_edge_targets g.edges) (index_nodes [] g.nodes)
        [] g.edges in
    issues ++ all_counts registry unregistered_ids users g.nodes
