-- ===== src/Storage/Graphs.antt =====
-- backend/storage/graphs_store.py: saved graphs and their activation state. A statement of SQL is an
-- operation on the table. `fails` says that SQLite raised an error: the two activation writes log it
-- and go on, the others let it propagate and are given here for a call that succeeds.
pub mod Laws
use agent_graph_studio.Prelude.{
  if◌then◌else◌, string_eq, filter_list, String, Bool, false, Option, none, some, List,
}
use agent_graph_studio.Storage.Table.{select, insert, update, delete, deletes, upsert}

pub record GraphRow : Type 0 where
  pub graph_id : String
  pub name : String
  pub spec_json : String
  pub is_active : Bool
  pub created_at : String
  pub updated_at : String
  pub created_by : Option String
  pub sharing : String

abbrev pub graph_key : GraphRow → String
graph_key r = r.graph_id

-- The new table and the row that is returned; `none` is the error of an id that is taken.
abbrev with_row : GraphRow → Option (List GraphRow) → Option (List GraphRow × GraphRow)
with_row r none = none
with_row r (some t) = some (t, r)

unfoldable pub create_graph :
    List GraphRow
    → String
    → String
    → String
    → String
    → Option String
    → String
    → Option (List GraphRow × GraphRow)
create_graph t graph_id name spec_json created_at created_by sharing =
    let row : GraphRow = record {
      graph_id = graph_id;
      name = name;
      spec_json = spec_json;
      is_active = false;
      created_at = created_at;
      updated_at = created_at;
      created_by = created_by;
      sharing = sharing;
    } in
    with_row row (insert graph_key t row)

unfoldable pub get_graph : List GraphRow → String → Option GraphRow
get_graph t graph_id = select graph_key t graph_id

-- `value if value is not None else old`
abbrev pub or_old : Option String → String → String
or_old none old = old
or_old (some value) old = value

-- The row that `update_graph` returns.
abbrev pub patched : String → Option String → Option String → Option String → GraphRow → GraphRow
patched updated_at name spec_json sharing existing = record existing {
  name = or_old name existing.name;
  spec_json = or_old spec_json existing.spec_json;
  updated_at = updated_at;
  sharing = or_old sharing existing.sharing;
}

-- The `UPDATE` sets its columns to the values that were computed from the row read before.
abbrev overwrite : GraphRow → GraphRow → GraphRow
overwrite new r = record r {
  name = new.name;
  spec_json = new.spec_json;
  updated_at = new.updated_at;
  sharing = new.sharing;
}

update_found :
    List GraphRow
    → String
    → String
    → Option String
    → Option String
    → Option String
    → Option GraphRow
    → List GraphRow × Option GraphRow
update_found t graph_id updated_at name spec_json sharing none = (t, none)
update_found t graph_id updated_at name spec_json sharing (some existing) =
    let new = patched updated_at name spec_json sharing existing in
    (update graph_key t graph_id (overwrite new), some new)

pub update_graph :
    List GraphRow
    → String
    → String
    → Option String
    → Option String
    → Option String
    → List GraphRow × Option GraphRow
unfolding update_found get_graph
update_graph t graph_id updated_at name spec_json sharing =
    update_found t graph_id updated_at name spec_json sharing (get_graph t graph_id)

pub delete_graph : List GraphRow → String → List GraphRow × Bool
delete_graph t graph_id = (delete graph_key t graph_id, deletes graph_key t graph_id)

unfoldable pub list_active_graphs : List GraphRow → List GraphRow
list_active_graphs t = filter_list (λ (r : GraphRow). r.is_active) t

pub set_active_state : Bool → List GraphRow → String → String → Bool → String → List GraphRow
set_active_state fails t graph_id spec_json is_active updated_at =
    let row : GraphRow = record {
      graph_id = graph_id;
      name = graph_id;
      spec_json = spec_json;
      is_active = is_active;
      created_at = updated_at;
      updated_at = updated_at;
      created_by = none;
      sharing = "private";
    } in
    if fails
    then t
    else upsert graph_key t row
        (λ r. record r { spec_json = spec_json; is_active = is_active; updated_at = updated_at })

pub set_is_active : Bool → List GraphRow → String → Bool → String → List GraphRow
set_is_active fails t graph_id is_active updated_at =
    if fails
    then t
    else update graph_key t graph_id
        (λ r. record r { is_active = is_active; updated_at = updated_at })
