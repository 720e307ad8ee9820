-- ===== src/Execution/Engine/Events.antt =====
-- backend/execution/engine.py: the calls of `on_trace_record` beside the trace.
use agent_graph_studio.Prelude.{
  string_eq, length, String, ◌≡◌, refl, ap, ◌∙◌, some, List, [], ◌∷◌, ◌++◌, append-nil,
}
use agent_graph_studio.Prelude.Dict.{Dict}
use agent_graph_studio.Schema.Models.{GraphSpec}
use agent_graph_studio.Registry.{NodeRegistry}
use agent_graph_studio.Execution.Trace.{Resource}
use agent_graph_studio.Execution.Engine.Gather.{
  Setup, RunState, Event, round_start, recorded, recorded_of,
}
use agent_graph_studio.Execution.Engine.Round.{after_start}
use agent_graph_studio.Execution.Engine.Launches.{collect_ind, publish_result-Settled}
use agent_graph_studio.Execution.Engine.Rules.{Went, Broke, rounds_ind}
use agent_graph_studio.Execution.Engine.Loop.{ended, initial_state, setup_of, run_graph_async}

recorded_of-append : (a b : List Event) → recorded_of (a ++ b) ≡ recorded_of a ++ recorded_of b
recorded_of-append [] b = refl
recorded_of-append (round_start ids ∷ a) b = recorded_of-append a b
recorded_of-append (recorded t ∷ a) b = ap (λ l. t ∷ l) (recorded_of-append a b)

abbrev IsObserved : RunState → Type 0
IsObserved s = recorded_of s.events ≡ s.trace

module _ (setup : Setup) where
  Went-IsObserved : (s s' : RunState) → IsObserved s → Went setup s s' → IsObserved s'
  Went-IsObserved s s' v w =
      collect_ind setup (λ cs u. IsObserved u)
        (λ c cs u u' p e.
          let done = publish_result-Settled setup u u' c c.node_result e in
          rw (done.events, done.trace, recorded_of-append) (ap (λ l. l ++ c.trace_entry ∷ []) p))
        w.calls (after_start s w.lists) s'
        (recorded_of-append s.events _ ∙ append-nil (recorded_of s.events) ∙ v) w.collected

  Broke-IsObserved : (s s' : RunState) → IsObserved s → Broke setup s s' → IsObserved s'
  Broke-IsObserved s s' v b = rw b.left v

-- In a run that ends normally the records handed to the observer are the trace.
pub run_graph_async-recorded :
    (g : GraphSpec) (registry : NodeRegistry) (resources : Dict String Resource) (run_id : String)
    (times : String → String × String) (s : RunState)
    → run_graph_async g registry resources run_id times ≡ some (ended s)
    → recorded_of s.events ≡ s.trace
unfolding run_graph_async
run_graph_async-recorded g registry resources run_id times s h =
    let setup = setup_of g registry resources run_id times in
    rounds_ind setup IsObserved (Went-IsObserved setup) (Broke-IsObserved setup) (length g.nodes)
      (initial_state g) s (unfold initial_state in refl) h
