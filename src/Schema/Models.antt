-- ===== src/Schema/Models.antt =====
-- backend/schema/models.py: edges, nodes and graphs, with the checks that pydantic runs after
-- the fields are read. A check returns the text of the error that it raises.
use agent_graph_studio.Prelude.{
  if◌then◌else◌, is_some, string_eq, contains, String, Bool, true, false, not, ◌&&◌, ◌||◌, Option,
  none, some, List, [], ◌∷◌, map,
}
use agent_graph_studio.Prelude.Dict.{Dict, put}
use agent_graph_studio.Schema.Value.{Value}

pub record EdgeEndpoint : Type 0 where
  pub node : String
  pub slot : Option String

-- `Literal["data", "sub_node"]`
pub data EdgeKind : Type 0 where
  data_flow sub_node : EdgeKind

abbrev pub is_data : EdgeKind → Bool
is_data data_flow = true
is_data sub_node = false

abbrev pub is_sub_node : EdgeKind → Bool
is_sub_node data_flow = false
is_sub_node sub_node = true

pub record EdgeSpec : Type 0 where
  pub kind : EdgeKind
  pub from_ : EdgeEndpoint
  pub to : EdgeEndpoint
  pub slot : Option String

pub record NodeSpec : Type 0 where
  pub id : String
  pub type : String
  pub config : Dict String Value
  pub input_values : Dict String Value

pub record GraphSpec : Type 0 where
  pub version : String
  pub nodes : List NodeSpec
  pub edges : List EdgeSpec

pub data ShapeError : Type 0 where
  data_requires_slots data_sets_slot sub_node_requires_slot sub_node_sets_slots : ShapeError
  duplicate_ids : List String → ShapeError

-- `EdgeSpec._check_shape_matches_kind`; `none` returns `self`
check_shape : EdgeKind → Option String → Option String → Option String → Option ShapeError
check_shape data_flow from_slot to_slot slot =
    if not (is_some from_slot) || not (is_some to_slot)
    then some data_requires_slots
    else if is_some slot
    then some data_sets_slot
    else none
check_shape sub_node from_slot to_slot slot =
    if not (is_some slot)
    then some sub_node_requires_slot
    else if is_some from_slot || is_some to_slot
    then some sub_node_sets_slots
    else none

pub check_shape_matches_kind : EdgeSpec → Option ShapeError
unfolding check_shape
check_shape_matches_kind e = check_shape e.kind e.from_.slot e.to.slot e.slot

-- the loop of `GraphSpec._check_unique_node_ids`; sets are kept as lists without repetition
duplicate_node_ids : List String → List String → List NodeSpec → List String
duplicate_node_ids seen duplicates [] = duplicates
duplicate_node_ids seen duplicates (node ∷ nodes) =
    duplicate_node_ids (if contains seen node.id then seen else node.id ∷ seen)
      (if contains seen node.id && not (contains duplicates node.id)
        then node.id ∷ duplicates
        else duplicates)
      nodes

abbrev pub node_ids : GraphSpec → List String
node_ids g = map (λ n. n.id) g.nodes

pub check_unique_node_ids : GraphSpec → Option ShapeError
unfolding duplicate_node_ids
check_unique_node_ids g = elim (duplicate_node_ids [] [] g.nodes) [
  | [] ↦ none
  | d ∷ ds ↦ some (duplicate_ids (d ∷ ds))
]

-- `{n.id: n for n in graph.nodes}`
unfoldable pub index_nodes : Dict String NodeSpec → List NodeSpec → Dict String NodeSpec
index_nodes d [] = d
index_nodes d (n ∷ ns) = index_nodes (put d n.id n) ns
