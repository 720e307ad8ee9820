-- ===== src/Api/Runs.antt =====
-- backend/api/runs.py: the record of a run, as its worker updates it. The observers' calls are the
-- events of the run. Times are opaque texts, and a result's JSON is a parameter.
pub mod Progress
pub mod Activity
pub mod Worker
use agent_graph_studio.Prelude.{
  string_eq, remove, ◌+◌, String, Option, none, some, List, [], ◌∷◌, ◌++◌,
}
use agent_graph_studio.Prelude.Dict.{Dict, get}
use agent_graph_studio.Schema.Value.{Value}
use agent_graph_studio.Validation.Issue.{ValidationIssue}
use agent_graph_studio.Execution.Trace.{TraceRecord, entry}
use agent_graph_studio.Execution.Engine.Gather.{RunError, Event, round_start, recorded}
use agent_graph_studio.Execution.Engine.Loop.{RunEnd, ended, raised_error}
use agent_graph_studio.Execution.RunGraph.{RunOutcome, invalid, ran}

pub record RunRecord : Type 0 where
  pub run_id : String
  pub status : String
  pub graph_id : Option String
  pub trigger_source : String
  pub started_at : String
  pub finished_at : Option String
  pub running_node_ids : List String
  pub active_sub_node_ids : List String
  pub trace : List TraceRecord
  pub result : Option (Dict String Value)
  pub error : Option String
  pub run_by : Option String

-- `_runs`
abbrev pub RunTable : Type 0
RunTable = Dict String RunRecord

abbrev pub new_record : String → Option String → String → Option String → String → RunRecord
new_record run_id graph_id trigger_source run_by started_at = record {
  run_id = run_id;
  status = "running";
  graph_id = graph_id;
  trigger_source = trigger_source;
  started_at = started_at;
  finished_at = none;
  running_node_ids = [];
  active_sub_node_ids = [];
  trace = [];
  result = none;
  error = none;
  run_by = run_by;
}

-- Records are values here, so the copy is the record itself.
unfoldable pub get_run_snapshot : RunTable → String → Option RunRecord
get_run_snapshot runs run_id = get runs run_id

-- `on_round_start` and `on_trace_record`
pub observe : RunRecord → Event → RunRecord
observe r (round_start ids) = record r { running_node_ids = ids }
observe r (recorded t) = record r {
  running_node_ids = remove r.running_node_ids (entry t).node_id;
  trace = r.trace ++ t ∷ [];
}

pub observe_all : RunRecord → List Event → RunRecord
unfolding observe
observe_all r [] = r
observe_all r (e ∷ events) = observe_all (observe r e) events

-- The text of a run's exception, by its class.
pub record ErrorText : Type 0 where
  pub of_issues : List ValidationIssue → String
  pub of_error : RunError → String

module _ (texts : ErrorText) where
  failed_record : RunRecord → String → RunRecord
  failed_record r message = record r { status = "failed"; error = some message }

  -- `try … except`
  settle_end : RunRecord → Option RunEnd → RunRecord
  unfolding failed_record observe_all
  settle_end r none = r
  settle_end r (some (ended s)) = record (observe_all r s.events) {
    result = some s.result;
    status = "completed";
  }
  settle_end r (some (raised_error e events)) =
      failed_record (observe_all r events) (texts.of_error e)

  settle_outcome : RunRecord → RunOutcome → RunRecord
  unfolding failed_record settle_end
  settle_outcome r (invalid issues) = failed_record r (texts.of_issues issues)
  settle_outcome r (ran end) = settle_end r end

  -- `finally`, on the record: nothing is running any more
  pub finish_run : RunRecord → RunOutcome → String → RunRecord
  unfolding settle_outcome
  finish_run r outcome finished_at = record (settle_outcome r outcome) {
    running_node_ids = [];
    active_sub_node_ids = [];
    finished_at = some finished_at;
  }
