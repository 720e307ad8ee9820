-- ===== src/Examples/Runs.antt =====
-- The scheduler's theorems at concrete graphs.
use agent_graph_studio.Prelude.{
  string_eq, contains, Distinct, String, ◌≡◌, refl, ◌≢◌, inl, true, false, Option, none, some, [],
  ◌∷◌,
}
use agent_graph_studio.Prelude.{pair_eq, option_eq}
use agent_graph_studio.Prelude.Dict.{get, put}
use agent_graph_studio.Schema.Value.{text}
use agent_graph_studio.Schema.Models.{GraphSpec, node_ids, index_nodes}
use agent_graph_studio.Registry.{effective_inputs, get_type}
use agent_graph_studio.Execution.Engine.Gather.{
  RunState, gather_inputs, gather_slots, input_step, definition_of,
}
use agent_graph_studio.Execution.Engine.Round.{
  round, scan, place, launch, execute_node, record_of, collect, publish, capture,
}
use agent_graph_studio.Execution.Engine.Loop.{
  RunEnd, ended, initial_state, setup_of, run_graph_async, sub_node_sources,
}
use agent_graph_studio.Execution.Engine.Pending.{traced_ids}
use agent_graph_studio.Execution.Engine.Once.{run_graph_async-ne-none, run_graph_async-once}
use agent_graph_studio.Execution.Engine.Supply.{AllSupplied}
use agent_graph_studio.Execution.Engine.Flow.{
  Needs, Failed, run_graph_async-AllSupplied, run_graph_async-propagates,
  run_graph_async-sub_node_starves,
}
use agent_graph_studio.Execution.Engine.Loop.{index_edges}
use agent_graph_studio.Execution.Engine.Gather.{Setup}
use agent_graph_studio.Execution.RunGraph.{ran}
use agent_graph_studio.Execution.Approvals.Gate.{remembers}
use agent_graph_studio.Storage.Table.{select}
use agent_graph_studio.Storage.Runs.{RunRow, get_run_record}
use agent_graph_studio.Api.Runs.Worker.{Server, create_run, execute_run, execute_run-stored}
use agent_graph_studio.Api.Runs.{get_run_snapshot, RunRecord, ErrorText, new_record, finish_run}
use agent_graph_studio.Api.Runs.Progress.{finish_run-ended}
use agent_graph_studio.Examples.Graphs.{
  chain, broken, starved, types, no_times, node, data_edge, dst_definition, in_input,
}

abbrev state_of : Option RunEnd → RunState → RunState
state_of (some (ended s)) default = s
state_of other default = default

abbrev run_of : GraphSpec → Option RunEnd
run_of g = run_graph_async g types [] "run" no_times

abbrev end_of : GraphSpec → RunState
end_of g = state_of (run_of g) (initial_state g)

-- `b` is listed first, and runs second, on the output of `a`.
chain_order : traced_ids (end_of chain).trace ≡ "a" ∷ "b" ∷ []
unfolding run_graph_async round scan gather_inputs gather_slots input_step place launch execute_node
    record_of collect publish capture effective_inputs get_type definition_of get put
chain_order = refl

chain_result : (end_of chain).result ≡ ("b", text "hi") ∷ []
unfolding run_graph_async round scan gather_inputs gather_slots input_step place launch execute_node
    record_of collect publish capture effective_inputs get_type definition_of get put
chain_result = refl

chain_ended : run_of chain ≡ some (ended (end_of chain))
unfolding run_graph_async round scan gather_inputs gather_slots input_step place launch execute_node
    record_of collect publish capture effective_inputs get_type definition_of get put
chain_ended = refl

broken_ended : run_of broken ≡ some (ended (end_of broken))
unfolding run_graph_async round scan gather_inputs gather_slots input_step place launch execute_node
    record_of collect publish capture effective_inputs get_type definition_of get put
broken_ended = refl

starved_ended : run_of starved ≡ some (ended (end_of starved))
unfolding run_graph_async round scan gather_inputs gather_slots input_step place launch execute_node
    record_of collect publish capture effective_inputs get_type definition_of get put
starved_ended = refl

broken_ids : Distinct (node_ids broken)
broken_ids = (refl, (refl, tt))

starved_ids : Distinct (node_ids starved)
starved_ids = (refl, (refl, (refl, tt)))

abbrev setup : GraphSpec → Setup
setup g = setup_of g types [] "run" no_times

b-Needs_a : Needs (setup broken) (node "b" "dst") (data_edge "a" "b")
unfolding setup_of index_nodes index_edges definition_of get_type effective_inputs get put
b-Needs_a = record {
  definition = dst_definition;
  slot = in_input;
  stored = refl;
  registered = refl;
  listed = inl refl;
  required = refl;
  wired = refl;
}

starved_b-Needs_a : Needs (setup starved) (node "b" "dst") (data_edge "a" "b")
unfolding setup_of index_nodes index_edges definition_of get_type effective_inputs get put
starved_b-Needs_a = record {
  definition = dst_definition;
  slot = in_input;
  stored = refl;
  registered = refl;
  listed = inl refl;
  required = refl;
  wired = refl;
}

a-Failed : Failed (end_of broken).trace "a"
unfolding run_graph_async round scan gather_inputs gather_slots input_step place launch execute_node
    record_of collect publish capture effective_inputs get_type definition_of get put
a-Failed = inl (refl, ("no", refl))

run_graph_async-AllSupplied_example : AllSupplied (setup chain) [] (end_of chain).trace
run_graph_async-AllSupplied_example =
    run_graph_async-AllSupplied chain types [] "run" no_times (end_of chain) chain_ended

run_graph_async-once_example :
    Distinct (traced_ids (end_of starved).trace)
    × ((x : String)
        → contains (traced_ids (end_of starved).trace) x ≡ true
        → (contains (node_ids starved) x ≡ true)
          × (contains (sub_node_sources starved.edges) x ≡ false))
run_graph_async-once_example =
    run_graph_async-once starved types [] "run" no_times (end_of starved) starved_ids starved_ended

run_graph_async-ne-none_example : run_graph_async broken types [] "run" no_times ≢ none
run_graph_async-ne-none_example = run_graph_async-ne-none broken types [] "run" no_times broken_ids

run_graph_async-propagates_example : contains (traced_ids (end_of broken).trace) "b" ≡ false
run_graph_async-propagates_example =
    run_graph_async-propagates broken types [] "run" no_times (end_of broken) broken_ended
      (node "b" "dst") (data_edge "a" "b") broken_ids b-Needs_a a-Failed

run_graph_async-sub_node_starves_example : contains (traced_ids (end_of starved).trace) "b" ≡ false
run_graph_async-sub_node_starves_example =
    run_graph_async-sub_node_starves starved types [] "run" no_times (end_of starved) starved_ended
      (node "b" "dst") (data_edge "a" "b") starved_ids starved_b-Needs_a refl

-- The record of the run of `chain`, with the texts of errors left blank.
abbrev blank : ErrorText
blank = record { of_issues = λ is. "invalid"; of_error = λ e. "error" }

abbrev fresh_record : RunRecord
fresh_record = new_record "run" (some "g") "ui" none "t"

finish_run-ended_example :
    let e = finish_run blank fresh_record (ran (run_of chain)) "end" in
    (e.trace ≡ (end_of chain).trace)
    × (e.status ≡ "completed")
    × (e.result ≡ some (end_of chain).result)
    × (e.running_node_ids ≡ [])
    × (e.finished_at ≡ some "end")
finish_run-ended_example =
    finish_run-ended blank fresh_record chain types [] "run" no_times (end_of chain) "end" refl
      chain_ended

abbrev idle : Server
idle = record { runs = []; history = []; approvals = record { pending = []; remembered = [] } }

execute_run-stored_example :
    (s' : Server) × (r : RunRecord) × (row : RunRow) × (execute_run blank
        (λ s. "{}")
        false
        (create_run false idle "run" (some "g") "ui" none "t").0
        "run"
        (ran (run_of broken))
        "end"
      ≡ some s')
    × (get_run_snapshot s'.runs "run" ≡ some r)
    × (get_run_record s'.history "run" ≡ some row)
    × (row.status ≡ r.status)
    × (row.error ≡ r.error)
    × (row.finished_at ≡ r.finished_at)
    × ((tool : String) → remembers s'.approvals "run" tool ≡ none)
execute_run-stored_example =
    execute_run-stored blank (λ s. "{}") idle "run" (some "g") "ui" none "t" (ran (run_of broken))
      "end" (unfold get_run_record select in refl)
