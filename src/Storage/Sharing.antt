-- ===== src/Storage/Sharing.antt =====
-- backend/storage/graph_sharing_store.py: declared connection slots of shared graphs, and each user's
-- mapping of them to the user's own connections.
pub mod Laws
use agent_graph_studio.Prelude.{
  ◌==◌, string_eq, filter_list, String, not, ◌&&◌, Option, none, some, List, [], ◌∷◌,
}
use agent_graph_studio.Prelude.{pair_eq}
use agent_graph_studio.Prelude.Dict.{Dict, put}
use agent_graph_studio.Storage.Table.{select, insert, upsert, map_option}

pub record SlotRow : Type 0 where
  pub graph_id : String
  pub slot_name : String
  pub connection_type : String

pub record MappingRow : Type 0 where
  pub user_id : String
  pub graph_id : String
  pub slot_name : String
  pub connection_name : String

pub record SharingTables : Type 0 where
  pub slots : List SlotRow
  pub mappings : List MappingRow

abbrev pub slot_key : SlotRow → String × String
slot_key r = (r.graph_id, r.slot_name)

abbrev pub MappingKey : Type 0
MappingKey = String × (String × String)

abbrev pub mapping_key : MappingRow → MappingKey
mapping_key r = (r.user_id, (r.graph_id, r.slot_name))

-- `executemany`; `none` is the error of a slot name that is given twice, which undoes the statements
insert_slots : List SlotRow → String → List (String × String) → Option (List SlotRow)
insert_slots t graph_id [] = some t
insert_slots t graph_id ((slot_name, connection_type) ∷ slots) =
    elim (insert slot_key t
      (record { graph_id = graph_id; slot_name = slot_name; connection_type = connection_type })) [
        | none ↦ none
        | some t' ↦ insert_slots t' graph_id slots
      ]

abbrev with_slots : SharingTables → Option (List SlotRow) → Option SharingTables
with_slots s none = none
with_slots s (some slots) = some (record s { slots = slots })

pub set_slots : SharingTables → String → List (String × String) → Option SharingTables
unfolding insert_slots
set_slots s graph_id slots = with_slots s (
    insert_slots (filter_list (λ (r : SlotRow). not (r.graph_id == graph_id)) s.slots) graph_id
      slots)

unfoldable pub list_slots : SharingTables → String → List SlotRow
list_slots s graph_id = filter_list (λ (r : SlotRow). r.graph_id == graph_id) s.slots

pub clear_slots : SharingTables → String → SharingTables
clear_slots s graph_id = record {
  slots = filter_list (λ (r : SlotRow). not (r.graph_id == graph_id)) s.slots;
  mappings = filter_list (λ (r : MappingRow). not (r.graph_id == graph_id)) s.mappings;
}

pub set_mapping : SharingTables → String → String → String → String → SharingTables
set_mapping s user_id graph_id slot_name connection_name = record s {
  mappings =
      upsert mapping_key s.mappings
        (record {
          user_id = user_id;
          graph_id = graph_id;
          slot_name = slot_name;
          connection_name = connection_name;
        })
        (λ r. record r { connection_name = connection_name });
}

pub get_mapping : SharingTables → String → String → String → Option String
get_mapping s user_id graph_id slot_name =
    map_option (λ (r : MappingRow). r.connection_name)
      (select mapping_key s.mappings (user_id, (graph_id, slot_name)))

-- `{slot_name: connection_name for …}`
mappings_dict : Dict String String → List MappingRow → Dict String String
mappings_dict d [] = d
mappings_dict d (r ∷ rows) = mappings_dict (put d r.slot_name r.connection_name) rows

unfoldable pub get_mappings_for_user : SharingTables → String → String → Dict String String
unfolding mappings_dict
get_mappings_for_user s user_id graph_id =
    mappings_dict []
      (filter_list (λ (r : MappingRow). r.user_id == user_id && r.graph_id == graph_id) s.mappings)
