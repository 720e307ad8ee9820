-- ===== src/Validation/Issue.antt =====
-- backend/validation/errors.py: an issue that a rule reports. A message is kept as its f-string's
-- template with the values that it interpolates.
use agent_graph_studio.Prelude.{string_eq, ℕ, String, Option, List}

pub data Rule : Type 0 where
  structural unregistered_type missing_required_input type_mismatch cycle : Rule
  missing_connection unknown_sub_node_slot incompatible_sub_node_type : Rule
  sub_node_has_conflicting_edges sub_node_cardinality invalid_config : Rule

pub data IssueMessage : Type 0 where
  unknown_source unknown_destination : String → IssueMessage
  not_registered : String → IssueMessage
  no_incoming_edge : String → IssueMessage
  no_output_slot no_input_slot : Option String → IssueMessage
  -- the two ends, as node and slot
  mismatched : String → Option String → String → Option String → IssueMessage
  cycle_involving : List String → IssueMessage
  config_error : String → IssueMessage
  not_configured : String → IssueMessage
  -- the root's type and the slot
  no_sub_node_slot : String → Option String → IssueMessage
  -- the slot, the role that it wants, the sub-node and its role
  wrong_role : Option String → String → String → Option String → IssueMessage
  conflicting_edges : String → IssueMessage
  -- the slot and the number of sub-nodes found
  not_exactly_one more_than_one : String → ℕ → IssueMessage

pub record ValidationIssue : Type 0 where
  pub rule : Rule
  pub node_id : Option String
  pub message : IssueMessage

-- `ValidationIssue(rule, node_id, message)`
abbrev pub issue : Rule → Option String → IssueMessage → ValidationIssue
issue r n m = record { rule = r; node_id = n; message = m }
