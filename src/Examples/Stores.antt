-- ===== src/Examples/Stores.antt =====
-- The theorems on the stores and on approvals, at concrete states.
use agent_graph_studio.Prelude.{
  string_eq, String, ◌≡◌, refl, true, false, Option, none, some, List, [], ◌∷◌,
}
use agent_graph_studio.Prelude.{pair_eq, option_eq}
use agent_graph_studio.Prelude.Dict.{get, put}
use agent_graph_studio.Connections.Store.{
  ConnectionProfile, after, add_connection, resolve_connection_for_user,
}
use agent_graph_studio.Connections.Store.Unique.{perform, IsUnique, perform-IsUnique, set_owner}
use agent_graph_studio.Connections.Store.File.{
  Vault, load_all, loaded, with_store, Holds, with_store-Holds, answer,
}
use agent_graph_studio.Execution.Approvals.{
  Approvals, PendingApproval, request_approval, wake, resolve_approval,
}
use agent_graph_studio.Execution.Approvals.History.{GateReach, start, asks, decides, asked, decided}
use agent_graph_studio.Execution.Approvals.Decided.{returns, at_once, wake-decided}

abbrev asked_i : PendingApproval
asked_i = record {
  approval_id = "i";
  run_id = "r";
  tool_name = "t";
  arguments = [];
  event_set = false;
  decision = none;
}

abbrev approved_once : Approvals
approved_once = record {
  pending = ("i", record asked_i { event_set = true; decision = some true }) ∷ [];
  remembered = (("r", "t"), true) ∷ [];
}

approved_once_reached : GateReach (decided "i" true true ∷ asked "i" "r" "t" ∷ []) approved_once
unfolding request_approval resolve_approval get put
approved_once_reached = decides "i" true true (asks "i" "r" "t" [] refl refl start)

wake-decided_example :
    (returns (wake approved_once "i") ≡ some true)
    × (at_once (request_approval approved_once "j" "r" "t" []) ≡ some true)
wake-decided_example =
    wake-decided (decided "i" true true ∷ asked "i" "r" "t" ∷ []) approved_once "i" "j" "r" "t" []
      approved_once_reached

abbrev profile : String → Option String → ConnectionProfile
profile name user = record { name = name; type = "postgres"; config = []; user_id = user }

-- `u` and everybody have a connection `db`.
abbrev two_dbs : List ConnectionProfile
two_dbs = profile "db" (some "u") ∷ profile "db" none ∷ []

perform-IsUnique_example : IsUnique (perform (set_owner "db" (some "u") none) two_dbs)
perform-IsUnique_example =
    perform-IsUnique (set_owner "db" (some "u") none) two_dbs (refl, (refl, tt))

u_has_db : resolve_connection_for_user "db" (some "u") two_dbs ≡ some (profile "db" (some "u"))
unfolding resolve_connection_for_user
u_has_db = refl

-- A file is plain or a cipher of a file, and a plain text is blank or a list of profiles.
data Bytes : Type 0 where
  blank_bytes : Bytes
  plain_bytes : List ConnectionProfile → Bytes
  cipher : Bytes → Bytes

vault : Vault Bytes
vault = record {
  is_blank = λ b. elim b [ blank_bytes ↦ true | plain_bytes ps ↦ false | cipher c ↦ false ];
  encrypt = cipher;
  decrypt = λ b. elim b [ blank_bytes ↦ none | plain_bytes ps ↦ none | cipher c ↦ some c ];
  dumps = plain_bytes;
  loads = λ b. elim b [ blank_bytes ↦ none | plain_bytes ps ↦ some ps | cipher c ↦ none ];
  decrypt-encrypt = λ b. refl;
  loads-dumps = λ ps. refl;
  is_blank-encrypt = λ b. refl;
}

-- A plain file of an old version is read, and written back as a cipher.
old_file_read :
    load_all vault (some (plain_bytes two_dbs))
    ≡ loaded two_dbs (some (cipher (plain_bytes two_dbs)))
unfolding load_all vault
old_file_read = refl

with_store-Holds_example :
    let op = add_connection "new" "postgres" [] none in
    Holds vault (with_store vault op (some (plain_bytes two_dbs))).1 (after two_dbs (op two_dbs))
    × ((with_store vault op (some (plain_bytes two_dbs))).0 ≡ answer (op two_dbs))
with_store-Holds_example =
    with_store-Holds vault (add_connection "new" "postgres" [] none) (some (plain_bytes two_dbs))
      two_dbs (some (cipher (plain_bytes two_dbs)), old_file_read)
