-- ===== src/Examples/Types.antt =====
-- The rule on the types at the ends of an edge, at a chain of two nodes.
use agent_graph_studio.Prelude.{string_eq, All, ◌≡◌, ◌↔◌, [], nat_eq, pair_eq, option_eq}
use agent_graph_studio.Validation.Flow.{check_type_mismatches}
use agent_graph_studio.Validation.Types.{WellTyped, check_type_mismatches_lem}
use agent_graph_studio.Examples.Graphs.{types, chain}

check_type_mismatches_lem_example :
    (check_type_mismatches chain types chain.edges [] ≡ [])
    ↔ All (WellTyped chain types []) chain.edges
check_type_mismatches_lem_example = check_type_mismatches_lem chain types [] chain.edges
