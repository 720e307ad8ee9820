-- ===== src/Validation/Edges.antt =====
-- backend/validation/rules.py: `check_structural` against a plain description of a good edge.
use agent_graph_studio.Prelude.{
  if◌then◌else◌, string_eq, filter_list, All, contains, String, ◌≡◌, refl, ap, ◌∙◌, ◌↔◌, Bool, true,
  ◌&&◌, none, List, [], ◌∷◌, ◌++◌, map, arith,
}
use agent_graph_studio.Schema.Models.{EdgeSpec, GraphSpec, is_data, node_ids}
use agent_graph_studio.Validation.Issue.{ValidationIssue, issue, IssueMessage, structural}
use agent_graph_studio.Validation.Slots.{
  edge_problems, keep_edge, structural_edges, check_structural,
}

-- Both ends of the edge are nodes.
abbrev pub has_ends : List String → EdgeSpec → Bool
has_ends ids e = contains ids e.from_.node && contains ids e.to.node

edge_problems-nil :
    (ids : List String) (e : EdgeSpec) → (edge_problems ids e ≡ []) ↔ (has_ends ids e ≡ true)
unfolding edge_problems
edge_problems-nil ids e = ground arith

keep_edge-on :
    (ids : List String) (e : EdgeSpec) (ps : List IssueMessage) (es : List EdgeSpec)
    → edge_problems ids e ≡ ps
    → keep_edge ps e es ≡ (if has_ends ids e && is_data e.kind then e ∷ es else es)
unfolding keep_edge
keep_edge-on ids e [] es h = ground (arith, edge_problems-nil ids e)
keep_edge-on ids e (p ∷ ps) es h = ground (arith, edge_problems-nil ids e)

structural_edges-valid :
    (ids : List String) (es : List EdgeSpec)
    → (structural_edges ids es).1 ≡ filter_list (λ e. has_ends ids e && is_data e.kind) es
unfolding structural_edges
structural_edges-valid ids [] = refl
structural_edges-valid ids (e ∷ es) =
    keep_edge-on ids e (edge_problems ids e) (structural_edges ids es).1 refl
    ∙ ap (λ l. if has_ends ids e && is_data e.kind then e ∷ l else l)
        (structural_edges-valid ids es)

issues-nil :
    (ids : List String) (e : EdgeSpec) (ps : List IssueMessage) (rest : List ValidationIssue)
    → edge_problems ids e ≡ ps
    → (map (λ p. issue structural none p) ps ++ rest ≡ []) ↔ ((has_ends ids e ≡ true) × (rest ≡ []))
issues-nil ids e [] rest h = ground (arith, edge_problems-nil ids e)
issues-nil ids e (p ∷ ps) rest h = ground (arith, edge_problems-nil ids e)

structural_edges-nil :
    (ids : List String) (es : List EdgeSpec)
    → ((structural_edges ids es).0 ≡ []) ↔ All (λ e. has_ends ids e ≡ true) es
unfolding structural_edges
structural_edges-nil ids [] = (λ h. tt, λ h. refl)
structural_edges-nil ids (e ∷ es) =
    let k = issues-nil ids e (edge_problems ids e) (structural_edges ids es).0 refl in
    let rest = structural_edges-nil ids es in
    (λ h. ((k.0 h).0, rest.0 (k.0 h).1), λ h. k.1 (h.0, rest.1 h.1))

-- The structural check reports nothing exactly when both ends of every edge are nodes of the graph,
-- and the edges that it passes on are, in order, the data edges whose ends are nodes.
pub check_structural_lem :
    (g : GraphSpec)
    → (((check_structural g).0 ≡ []) ↔ All (λ e. has_ends (node_ids g) e ≡ true) g.edges)
      × ((check_structural g).1
          ≡ filter_list (λ e. has_ends (node_ids g) e && is_data e.kind) g.edges)
unfolding check_structural
check_structural_lem g =
    (structural_edges-nil (node_ids g) g.edges, structural_edges-valid (node_ids g) g.edges)
