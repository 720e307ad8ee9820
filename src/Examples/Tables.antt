-- ===== src/Examples/Tables.antt =====
-- The theorems on the tables of the database, at concrete rows.
use agent_graph_studio.Prelude.{
  string_eq, String, ◌≡◌, refl, false, none, some, List, [], ◌∷◌, ◌++◌,
}
use agent_graph_studio.Prelude.{pair_eq, option_eq}
use agent_graph_studio.Storage.Table.{insert}
use agent_graph_studio.Storage.Graphs.{GraphRow, create_graph}
use agent_graph_studio.Storage.InvokeKeys.{InvokeKeyRow, generate_invoke_key}

abbrev graphs : List GraphRow
graphs =
    record {
      graph_id = "g";
      name = "G";
      spec_json = "{}";
      is_active = false;
      created_at = "1";
      updated_at = "1";
      created_by = none;
      sharing = "private";
    }
    ∷ []

abbrev new_graph : GraphRow
new_graph = record {
  graph_id = "n";
  name = "N";
  spec_json = "{}";
  is_active = false;
  created_at = "2";
  updated_at = "2";
  created_by = some "u";
  sharing = "private";
}

row_created :
    create_graph graphs "n" "N" "{}" "2" (some "u") "private"
    ≡ some (graphs ++ new_graph ∷ [], new_graph)
unfolding create_graph insert
row_created = refl

-- A stand-in for the hash, which only has to be a function.
abbrev marked : String → String
marked token = String.◌∷◌ "#" token

abbrev key_row : InvokeKeyRow
key_row = record {
  key_id = "k";
  graph_id = "g";
  label = "l";
  key_hash = "#token";
  key_prefix = "token";
  timeout_seconds = 60;
  created_at = "1";
  created_by = none;
  last_used_at = none;
}

generated :
    generate_invoke_key marked [] "g" "l" "1" 60 none "token" "k"
    ≡ some (key_row ∷ [], (key_row, "token"))
unfolding generate_invoke_key insert
generated = refl
