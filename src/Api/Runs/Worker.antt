-- ===== src/Api/Runs/Worker.antt =====
-- backend/api/runs.py: `create_run` and `execute_run` on all that they change: the table of runs, the
-- stored history and the remembered approvals. `result_json` is the JSON of a run's result.
use agent_graph_studio.Prelude.{
  string_eq, String, ◌≡◌, refl, sym, ◌∙◌, Bool, false, Option, none, some, List, [], ◌∷◌, arith,
  ==_refl,
}
use agent_graph_studio.Prelude.Dict.{get, put, get-put_self}
use agent_graph_studio.Execution.Engine.Gather.{Event, round_start, recorded, RunState}
use agent_graph_studio.Execution.Engine.Loop.{ended, raised_error}
use agent_graph_studio.Execution.RunGraph.{RunOutcome, invalid, ran}
use agent_graph_studio.Execution.Approvals.{Approvals, clear_remembered_for_run}
use agent_graph_studio.Execution.Approvals.Gate.{remembers, clear_remembered_for_run-remembers}
use agent_graph_studio.Storage.Runs.{
  RunRow, create_run_record, complete_run_record, get_run_record, get_run_record-lifecycle,
}
use agent_graph_studio.Api.Runs.{
  RunRecord, RunTable, new_record, observe, observe_all, ErrorText, failed_record, settle_end,
  settle_outcome, finish_run, get_run_snapshot,
}

pub record Server : Type 0 where
  pub runs : RunTable
  pub history : List RunRow
  pub approvals : Approvals

-- `fails` says that the write to the history failed, which is logged and swallowed.
unfoldable pub create_run :
    Bool → Server → String → Option String → String → Option String → String → Server × RunRecord
create_run fails s run_id graph_id trigger_source run_by started_at =
    let r = new_record run_id graph_id trigger_source run_by started_at in
    (
      record s {
        runs = put s.runs run_id r;
        history =
            create_run_record fails s.history run_id graph_id trigger_source started_at run_by;
      },
      r,
    )

module _ (texts : ErrorText) (result_json : RunState → String) where
  -- the local `result_json`
  abbrev pub json_of : RunOutcome → Option String
  json_of (ran (some (ended s))) = some (result_json s)
  json_of (ran (some (raised_error e events))) = none
  json_of (ran none) = none
  json_of (invalid issues) = none

  -- the local `error`
  abbrev pub error_of : RunOutcome → Option String
  error_of (ran (some (ended s))) = none
  error_of (ran (some (raised_error e events))) = some (texts.of_error e)
  error_of (ran none) = none
  error_of (invalid issues) = some (texts.of_issues issues)

  -- What the worker leaves when the record has come to its end.
  abbrev after_run : Bool → Server → String → RunOutcome → String → RunRecord → Server
  after_run fails s run_id outcome finished_at end = record {
    runs = put s.runs run_id end;
    history =
        complete_run_record fails s.history run_id end.status finished_at (json_of outcome)
          (error_of outcome);
    approvals = clear_remembered_for_run s.approvals run_id;
  }

  -- `none` is the KeyError of `_runs[run_id]`
  unfoldable pub execute_run : Bool → Server → String → RunOutcome → String → Option Server
  execute_run fails s run_id outcome finished_at = elim (get s.runs run_id) [
    | none ↦ none
    | some r ↦
        some (after_run fails s run_id outcome finished_at (finish_run texts r outcome finished_at))
  ]

  error-observe_all : (events : List Event) (r : RunRecord) → (observe_all r events).error ≡ r.error
  unfolding observe_all observe
  error-observe_all [] r = refl
  error-observe_all (round_start ids ∷ events) r = error-observe_all events _
  error-observe_all (recorded t ∷ events) r = error-observe_all events _

  error-finish_run :
      (r : RunRecord) (outcome : RunOutcome) (now : String)
      → r.error ≡ none
      → (finish_run texts r outcome now).error ≡ error_of outcome
  unfolding finish_run settle_outcome settle_end failed_record
  error-finish_run r (ran (some (ended s))) now h = error-observe_all s.events r ∙ h
  error-finish_run r (ran (some (raised_error e events))) now h = refl
  error-finish_run r (ran none) now h = h
  error-finish_run r (invalid issues) now h = refl

  finished_at-finish_run :
      (r : RunRecord) (outcome : RunOutcome) (now : String)
      → (finish_run texts r outcome now).finished_at ≡ some now
  unfolding finish_run
  finished_at-finish_run r outcome now = refl

  -- However a run that was started ends, its record and its row in the history show the same status,
  -- error and time of the end, and no decision is remembered for it; this is for a new id, and with no
  -- failing write.
  pub execute_run-stored :
      (s : Server) (run_id : String) (graph_id : Option String) (source : String)
      (by : Option String) (started : String) (outcome : RunOutcome) (now : String)
      → get_run_record s.history run_id ≡ none
      → (s' : Server) × (r : RunRecord) × (row : RunRow) × (execute_run false
            (create_run false s run_id graph_id source by started).0
            run_id
            outcome
            now
          ≡ some s')
        × (get_run_snapshot s'.runs run_id ≡ some r)
        × (get_run_record s'.history run_id ≡ some row)
        × (row.status ≡ r.status)
        × (row.error ≡ r.error)
        × (row.finished_at ≡ r.finished_at)
        × ((tool : String) → remembers s'.approvals run_id tool ≡ none)
  unfolding create_run execute_run get_run_snapshot
  execute_run-stored s run_id graph_id source by started outcome now new =
      let r = new_record run_id graph_id source by started in
      let end = finish_run texts r outcome now in
      (
        after_run false (create_run false s run_id graph_id source by started).0 run_id outcome now
            end,
        end,
        _,
        rw (execute_run, get-put_self s.runs run_id r) refl,
        get-put_self (put s.runs run_id r) run_id end,
        get_run_record-lifecycle false s.history run_id graph_id source started by end.status now
            (json_of outcome) (error_of outcome) new,
        refl,
        sym (error-finish_run r outcome now refl),
        sym (finished_at-finish_run r outcome now),
        λ tool.
            clear_remembered_for_run-remembers s.approvals run_id run_id tool
            ∙ ground (arith, ==_refl run_id),
      )
