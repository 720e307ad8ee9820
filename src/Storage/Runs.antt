-- ===== src/Storage/Runs.antt =====
-- backend/storage/runs_store.py: the history of runs. `fails` says that SQLite raised an error, which
-- the two writes log and swallow. `newest_first` is SQL's ORDER BY.
use agent_graph_studio.Prelude.{
  drop, if◌then◌else◌, ◌==◌, ==_refl, string_eq, length, filter_list, ℕ, zero, suc, String, ◌≡◌,
  refl, Bool, true, false, ◌&&◌, Option, none, some, List, [], ◌∷◌, ◌++◌,
}
use agent_graph_studio.Prelude.{option_eq}
use agent_graph_studio.Storage.Table.{
  select, insert, update, select-update, select-insert, insert-some,
}

pub record RunRow : Type 0 where
  pub run_id : String
  pub graph_id : Option String
  pub status : String
  pub trigger_source : String
  pub started_at : String
  pub finished_at : Option String
  pub result_json : Option String
  pub error : Option String
  pub run_by : Option String

abbrev pub run_key : RunRow → String
run_key r = r.run_id

abbrev or_unchanged : List RunRow → Option (List RunRow) → List RunRow
or_unchanged t none = t
or_unchanged t (some t') = t'

pub create_run_record :
    Bool → List RunRow → String → Option String → String → String → Option String → List RunRow
create_run_record fails t run_id graph_id trigger_source started_at run_by =
    let row : RunRow = record {
      run_id = run_id;
      graph_id = graph_id;
      status = "running";
      trigger_source = trigger_source;
      started_at = started_at;
      finished_at = none;
      result_json = none;
      error = none;
      run_by = run_by;
    } in
    if fails then t else or_unchanged t (insert run_key t row)

abbrev pub completed : String → String → Option String → Option String → RunRow → RunRow
completed status finished_at result_json error r = record r {
  status = status;
  finished_at = some finished_at;
  result_json = result_json;
  error = error;
}

pub complete_run_record :
    Bool → List RunRow → String → String → String → Option String → Option String → List RunRow
complete_run_record fails t run_id status finished_at result_json error =
    if fails then t else update run_key t run_id (completed status finished_at result_json error)

unfoldable pub get_run_record : List RunRow → String → Option RunRow
get_run_record t run_id = select run_key t run_id

-- `column = ?`, for a filter that is given
abbrev passes {ℓ} : {A : Type ℓ} → (A → Bool) → Option A → Bool
passes test none = true
passes test (some a) = test a

selected : Option String → Option String → Option String → RunRow → Bool
selected graph_id status trigger_source r =
    passes (λ g. r.graph_id == some g) graph_id
    && passes (λ s. r.status == s) status
    && passes (λ s. r.trigger_source == s) trigger_source

-- `LIMIT` and `OFFSET`
abbrev take {ℓ} : {A : Type ℓ} → ℕ → List A → List A
take zero xs = []
take (suc n) [] = []
take (suc n) (x ∷ xs) = x ∷ take n xs

module _ (newest_first : List RunRow → List RunRow) where
  -- The page and the number of all rows that match.
  pub list_run_records :
      List RunRow → Option String → Option String → Option String → ℕ → ℕ → List RunRow × ℕ
  unfolding selected
  list_run_records t graph_id status trigger_source limit offset =
      let rows = filter_list (selected graph_id status trigger_source) t in
      (take limit (drop offset (newest_first rows)), length rows)

-- What is left to be read of a run with a new id after its start and its completion: the status, the
-- result and the error of the completion, with the graph and the user of the start. A start whose write fails, with
-- no older row of that id, leaves nothing to read.
pub get_run_record-lifecycle :
    (start_fails : Bool) (t : List RunRow) (run_id : String) (graph_id : Option String)
    (source started : String) (by : Option String) (status finished : String)
    (result error : Option String)
    → get_run_record t run_id ≡ none
    → get_run_record
        (complete_run_record false
          (create_run_record start_fails t run_id graph_id source started by)
          run_id
          status
          finished
          result
          error)
        run_id
      ≡ (if start_fails
          then none
          else some (record {
            run_id = run_id;
            graph_id = graph_id;
            status = status;
            trigger_source = source;
            started_at = started;
            finished_at = some finished;
            result_json = result;
            error = error;
            run_by = by;
          }))
unfolding get_run_record complete_run_record create_run_record
get_run_record-lifecycle true t run_id graph_id source started by status finished result error h =
    rw (
      select-update run_key (completed status finished result error) (λ q. refl) t run_id run_id,
      ==_refl run_id,
      h,
    )
get_run_record-lifecycle false t run_id graph_id source started by status finished result error h =
    let row : RunRow = record {
      run_id = run_id;
      graph_id = graph_id;
      status = "running";
      trigger_source = source;
      started_at = started;
      finished_at = none;
      result_json = none;
      error = none;
      run_by = by;
    } in
    let there = insert-some run_key t row h in
    rw there (
      rw (
        select-update run_key (completed status finished result error) (λ q. refl) (t ++ row ∷ [])
            run_id run_id,
        ==_refl run_id,
        select-insert run_key t (t ++ row ∷ []) row run_id there,
        ==_refl run_id,
      ))
