-- ===== src/Validation/Names.antt =====
-- backend/validation/rules.py: `check_missing_connections`, with its cache of looked-up names.
use agent_graph_studio.Prelude.{
  if◌then◌else◌, is_some, string_eq, String, Bool, false, Option, none, some, List, [], ◌∷◌, ◌++◌,
}
use agent_graph_studio.Prelude.Dict.{Dict, get, put, has}
use agent_graph_studio.Schema.Models.{NodeSpec, GraphSpec}
use agent_graph_studio.Connections.Store.{ConnectionProfile}
use agent_graph_studio.Connections.Resolver.{connection_reference_names, resolve_slot_aware}
use agent_graph_studio.Validation.Issue.{ValidationIssue, issue, missing_connection, not_configured}

-- `known`, filled at the first sight of a name
abbrev pub Known : Type 0
Known = Dict String Bool

module _ (user_id : Option String) (mappings : Option (Dict String String))
    (store : List ConnectionProfile) where
  unfoldable pub is_known : String → Bool
  is_known name = is_some (resolve_slot_aware name user_id mappings store)

  -- `if name not in known: known[name] = …`
  unfoldable pub remember : Known → String → Known
  unfolding is_known
  remember known name = if has known name then known else put known name (is_known name)

  -- `known[name]`, which `remember` has put there
  abbrev pub recall : Known → String → Bool
  recall known name = elim (get known name) [ none ↦ false | some b ↦ b ]

  unfoldable pub name_issues : NodeSpec → Known → List String → List ValidationIssue × Known
  unfolding remember
  name_issues node known [] = ([], known)
  name_issues node known (name ∷ names) =
      let known' = remember known name in
      let (issues, last) = name_issues node known' names in
      (
        (if recall known' name
              then []
              else issue missing_connection (some node.id) (not_configured name) ∷ [])
            ++ issues,
        last,
      )

  unfoldable pub node_issues : Known → List NodeSpec → List ValidationIssue
  unfolding name_issues
  node_issues known [] = []
  node_issues known (node ∷ nodes) =
      let (issues, known') = name_issues node known (connection_reference_names node.config) in
      issues ++ node_issues known' nodes

  unfoldable pub check_missing_connections : GraphSpec → List ValidationIssue
  unfolding node_issues
  check_missing_connections g = node_issues [] g.nodes
