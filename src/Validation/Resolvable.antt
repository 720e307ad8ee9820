-- ===== src/Validation/Resolvable.antt =====
-- backend/validation/rules.py: `check_missing_connections` against the lookup without a cache, and
-- what it promises to the resolver.
use mathlib.Core.List.{cons≢nil}
use agent_graph_studio.Prelude.{
  if◌then◌else◌, Bool-cases, is_some, ==_iff, string_eq, All, String, ◌≡◌, refl, sym, ap, ◌∙◌, inl,
  inr, Bool, true, Option, none, some, List, [], ◌∷◌, ◌++◌, arith,
}
use agent_graph_studio.Prelude.{bool_eq}
use agent_graph_studio.Prelude.Dict.{Dict, get, get-put, get-put_self}
use agent_graph_studio.Schema.Models.{NodeSpec, GraphSpec}
use agent_graph_studio.Connections.Store.{ConnectionProfile}
use agent_graph_studio.Connections.Resolver.{
  connection_reference_names, resolve_slot_aware, resolved, resolve_connection_profiles,
}
use agent_graph_studio.Connections.Resolver.Sound.{
  resolve_connection_profiles-resolved, referenced_connection_names-All,
}
use agent_graph_studio.Validation.Issue.{ValidationIssue, issue, missing_connection, not_configured}
use agent_graph_studio.Validation.Names.{
  Known, is_known, remember, recall, name_issues, node_issues, check_missing_connections,
}

module _ (user_id : Option String) (mappings : Option (Dict String String))
    (store : List ConnectionProfile) where
  abbrev pub known_name : String → Bool
  known_name = is_known user_id mappings store

  -- The cache holds what a lookup would say.
  abbrev IsCoherent : Known → Type 0
  IsCoherent known = (n : String) (b : Bool) → get known n ≡ some b → b ≡ known_name n

  remember-IsCoherent :
      (known : Known) (name : String)
      → IsCoherent known
      → IsCoherent (remember user_id mappings store known name)
  unfolding remember
  remember-IsCoherent known name v = λ n b h. ground (
    arith,
    v n b,
    get-put known name n (known_name name),
    ==_iff name n,
    ap (λ (x : String). known_name x) {x = name} {y = n},
  )

  recall-remember_on :
      (known : Known) (name : String) (o : Option Bool)
      → IsCoherent known
      → get known name ≡ o
      → recall user_id mappings store (remember user_id mappings store known name) name
        ≡ known_name name
  unfolding remember
  recall-remember_on known name none v h = ground (arith, get-put_self known name (known_name name))
  recall-remember_on known name (some b) v h = ground (arith, v name b)

  abbrev pub plain_issues : NodeSpec → List String → List ValidationIssue
  plain_issues node [] = []
  plain_issues node (name ∷ names) =
      (if known_name name
        then []
        else issue missing_connection (some node.id) (not_configured name) ∷ [])
      ++ plain_issues node names

  name_issues-plain :
      (node : NodeSpec) (names : List String) (known : Known)
      → IsCoherent known
      → ((name_issues user_id mappings store node known names).0 ≡ plain_issues node names)
        × IsCoherent (name_issues user_id mappings store node known names).1
  unfolding name_issues
  name_issues-plain node [] known v = (refl, v)
  name_issues-plain node (name ∷ names) known v =
      let known' = remember user_id mappings store known name in
      let (same, w) = name_issues-plain node names known' (remember-IsCoherent known name v) in
      (
        rw (recall-remember_on known name (get known name) v refl) (
            ap
              (λ l.
                (if known_name name
                  then []
                  else issue missing_connection (some node.id) (not_configured name) ∷ [])
                ++ l)
              same),
        w,
      )

  -- The issues with no cache, node by node.
  abbrev pub plain_node_issues : List NodeSpec → List ValidationIssue
  plain_node_issues [] = []
  plain_node_issues (node ∷ nodes) =
      plain_issues node (connection_reference_names node.config) ++ plain_node_issues nodes

  node_issues-plain :
      (nodes : List NodeSpec) (known : Known)
      → IsCoherent known
      → node_issues user_id mappings store known nodes ≡ plain_node_issues nodes
  unfolding node_issues
  node_issues-plain [] known v = refl
  node_issues-plain (node ∷ nodes) known v =
      let names = connection_reference_names node.config in
      let (same, w) = name_issues-plain node names known v in
      cc (same, node_issues-plain nodes (name_issues user_id mappings store node known names).1 w)

  plain_issues-nil :
      (node : NodeSpec) (names : List String) (rest : List ValidationIssue)
      → plain_issues node names ++ rest ≡ []
      → All (λ n. known_name n ≡ true) names × (rest ≡ [])
  plain_issues-nil node [] rest h = (tt, h)
  plain_issues-nil node (name ∷ names) rest h = elim (Bool-cases (known_name name)) [
    | inl e ↦ let (more, r) = plain_issues-nil node names rest (rw e at h) in ((e, more), r)
    | inr e ↦ absurd (cons≢nil (rw e at h))
  ]

  plain_node_issues-nil :
      (nodes : List NodeSpec)
      → plain_node_issues nodes ≡ []
      → All
          (λ (node : NodeSpec).
            All (λ n. known_name n ≡ true) (connection_reference_names node.config))
          nodes
  plain_node_issues-nil [] h = tt
  plain_node_issues-nil (node ∷ nodes) h =
      let (here, r) =
        plain_issues-nil node (connection_reference_names node.config) (plain_node_issues nodes)
          h in
      (here, plain_node_issues-nil nodes r)

  -- The cache of looked-up names does not change what the rule reports.
  pub check_missing_connections_lem :
      (g : GraphSpec)
      → check_missing_connections user_id mappings store g ≡ plain_node_issues g.nodes
  unfolding check_missing_connections
  check_missing_connections_lem g = node_issues-plain g.nodes [] (λ n b h. unfold get in cc)

  -- If the rule reports nothing, then resolving the graph's connections for the same user, mappings
  -- and store succeeds: no connection of a validated graph is found missing afterwards.
  pub check_missing_connections-resolved :
      (g : GraphSpec)
      → check_missing_connections user_id mappings store g ≡ []
      → (d : Dict String ConnectionProfile) × (resolve_connection_profiles user_id mappings store g
          ≡ resolved d)
  unfolding is_known
  check_missing_connections-resolved g h =
      resolve_connection_profiles-resolved user_id mappings store g (
        referenced_connection_names-All
          (λ n. is_some (resolve_slot_aware n user_id mappings store) ≡ true) g
          (plain_node_issues-nil g.nodes (sym (check_missing_connections_lem g) ∙ h)))
