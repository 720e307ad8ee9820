-- ===== src/Api/Runs/Progress.antt =====
-- backend/api/runs.py: what a record shows at the end of its run.
use agent_graph_studio.Prelude.{
  string_eq, String, ◌≡◌, refl, sym, ◌∙◌, some, List, [], ◌∷◌, ◌++◌, append-nil, append_assoc,
}
use agent_graph_studio.Prelude.Dict.{Dict}
use agent_graph_studio.Schema.Models.{GraphSpec}
use agent_graph_studio.Registry.{NodeRegistry}
use agent_graph_studio.Execution.Trace.{Resource}
use agent_graph_studio.Execution.Engine.Gather.{
  RunState, RunError, Event, round_start, recorded, recorded_of,
}
use agent_graph_studio.Execution.Engine.Loop.{ended, raised_error, run_graph_async}
use agent_graph_studio.Execution.Engine.Events.{run_graph_async-recorded}
use agent_graph_studio.Execution.RunGraph.{ran}
use agent_graph_studio.Api.Runs.{
  RunRecord, observe, observe_all, ErrorText, failed_record, settle_end, settle_outcome, finish_run,
}

trace-observe_all :
    (events : List Event) (r : RunRecord)
    → (observe_all r events).trace ≡ r.trace ++ recorded_of events
unfolding observe_all observe
trace-observe_all [] r = sym (append-nil r.trace)
trace-observe_all (round_start ids ∷ events) r = trace-observe_all events _
trace-observe_all (recorded t ∷ events) r =
    trace-observe_all events _ ∙ append_assoc r.trace (t ∷ []) (recorded_of events)

-- When a run ends normally, its record, which had no trace before, is completed, has the run's result, shows nothing as running,
-- and its trace, put together by the observers record by record, is the trace that the run returns.
pub finish_run-ended :
    (texts : ErrorText) (r : RunRecord) (g : GraphSpec) (registry : NodeRegistry)
    (resources : Dict String Resource) (run_id : String) (times : String → String × String)
    (s : RunState) (now : String)
    → r.trace ≡ []
    → run_graph_async g registry resources run_id times ≡ some (ended s)
    → let e = finish_run texts r (ran (run_graph_async g registry resources run_id times)) now in
      (e.trace ≡ s.trace)
      × (e.status ≡ "completed")
      × (e.result ≡ some s.result)
      × (e.running_node_ids ≡ [])
      × (e.finished_at ≡ some now)
unfolding finish_run settle_outcome settle_end
finish_run-ended texts r g registry resources run_id times s now fresh run = rw run (
  trace-observe_all s.events r
      ∙ cc (fresh, run_graph_async-recorded g registry resources run_id times s run),
  refl,
  refl,
  refl,
  refl,
)

-- A run that raises leaves a failed record with the error's text and the records made so far.
pub finish_run-raised :
    (texts : ErrorText) (r : RunRecord) (e : RunError) (events : List Event) (now : String)
    → let f = finish_run texts r (ran (some (raised_error e events))) now in
      (f.status ≡ "failed")
      × (f.error ≡ some (texts.of_error e))
      × (f.trace ≡ r.trace ++ recorded_of events)
      × (f.running_node_ids ≡ [])
unfolding finish_run settle_outcome settle_end failed_record
finish_run-raised texts r e events now = (refl, refl, trace-observe_all events r, refl)
