-- ===== src/Execution/Trace.antt =====
-- backend/execution/trace.py and backend/execution/types.py: what a node returns and what a run
-- records of it. Times are opaque texts.
use agent_graph_studio.Prelude.{string_eq, ℕ, String, Bool, Option, List}
use agent_graph_studio.Prelude.Dict.{Dict}
use agent_graph_studio.Schema.Value.{Value}
use agent_graph_studio.Schema.Models.{NodeSpec}
use agent_graph_studio.Connections.Store.{ConnectionProfile}

pub record TokenCost : Type 0 where
  pub input_tokens : ℕ
  pub output_tokens : ℕ

abbrev pub no_cost : TokenCost
no_cost = record { input_tokens = 0; output_tokens = 0 }

-- A trace record without its nested traces.
pub record TraceEntry : Type 0 where
  pub run_id : String
  pub node_id : String
  pub node_type : String
  pub started_at : String
  pub finished_at : String
  pub inputs : Dict String Value
  pub outputs : Dict String Value
  pub token_cost : TokenCost
  pub side_effect : Bool
  pub error : Option String

-- `TraceRecord`; `child_traces` is `list[list[TraceRecord]] | None`.
mutual
  pub data TraceRecord : Type 0 where
    trace_record : TraceEntry → ChildTraces → TraceRecord

  pub data ChildTraces : Type 0 where
    no_children : ChildTraces
    children : TraceLists → ChildTraces

  pub data TraceLists : Type 0 where
    no_lists : TraceLists
    list_then : Traces → TraceLists → TraceLists

  pub data Traces : Type 0 where
    no_traces : Traces
    trace_then : TraceRecord → Traces → Traces

abbrev pub entry : TraceRecord → TraceEntry
entry (trace_record e c) = e

pub record NodeResult : Type 0 where
  pub outputs : Dict String Value
  pub token_cost : TokenCost
  pub side_effect : Bool
  pub child_traces : ChildTraces

-- What stands in the `resources` bag: a value or the resolved profiles from the caller, or the two
-- tables of `run_graph`.
pub data Resource : Type 0 where
  given : Value → Resource
  profile_table : Dict String ConnectionProfile → Resource
  node_table : Dict String NodeSpec → Resource
  sub_node_table : Dict (String × Option String) (List String) → Resource

pub record ExecutionContext : Type 0 where
  pub node : NodeSpec
  pub inputs : Dict String Value
  pub resources : Dict String Resource

-- A call of a node's `execute`: its result, or the text of the exception that it raised.
pub data Execution : Type 0 where
  returned : NodeResult → Execution
  raised : String → Execution
