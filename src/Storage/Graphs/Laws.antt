-- ===== src/Storage/Graphs/Laws.antt =====
-- backend/storage/graphs_store.py: what an update and an activation leave to be read.
use agent_graph_studio.Prelude.{
  if◌then◌else◌, is_some, ◌==◌, ==_iff, string_eq, String, ◌≡◌, refl, sym, subst, ◌∙◌, ◌↔◌, Bool,
  true, false, not, ◌&&◌, Option, none, some, List, arith,
}
use agent_graph_studio.Storage.Table.{
  insert-none, merged, map_option, select, IsKeyed, select-insert, select-update, select-upsert,
  update-IsKeyed, delete-IsKeyed, upsert-IsKeyed,
}
use agent_graph_studio.Storage.Graphs.{
  GraphRow, graph_key, with_row, create_graph, get_graph, patched, overwrite, update_found,
  update_graph, delete_graph, set_active_state, set_is_active,
}

update_found-get_graph :
    (t : List GraphRow) (id updated_at : String) (name spec sharing : Option String)
    (o : Option GraphRow) (j : String)
    → get_graph t id ≡ o
    → let r = update_found t id updated_at name spec sharing o in
      (r.1 ≡ map_option (patched updated_at name spec sharing) o)
      × (get_graph r.0 j ≡ (if id == j then r.1 else get_graph t j))
unfolding update_found get_graph
update_found-get_graph t id updated_at name spec sharing none j h =
    (refl, ground (arith, ==_iff id j))
update_found-get_graph t id updated_at name spec sharing (some r) j h = (
  refl,
  select-update graph_key (overwrite (patched updated_at name spec sharing r)) (λ q. refl) t id j
      ∙ ground (arith, ==_iff id j),
)

-- An update returns the stored row with the given fields replaced, or nothing for an unknown id, and
-- what it returns is what is read afterwards under that id; every other graph is read as before.
pub update_graph-get_graph :
    (t : List GraphRow) (id updated_at : String) (name spec sharing : Option String) (j : String)
    → let r = update_graph t id updated_at name spec sharing in
      (r.1 ≡ map_option (patched updated_at name spec sharing) (get_graph t id))
      × (get_graph r.0 j ≡ (if id == j then r.1 else get_graph t j))
unfolding update_graph
update_graph-get_graph t id updated_at name spec sharing j =
    update_found-get_graph t id updated_at name spec sharing (get_graph t id) j refl

-- The row of a graph that `set_active_state` leaves, from the row before.
abbrev pub activated : String → String → Bool → String → Option GraphRow → GraphRow
activated id spec active now none = record {
  graph_id = id;
  name = id;
  spec_json = spec;
  is_active = active;
  created_at = now;
  updated_at = now;
  created_by = none;
  sharing = "private";
}
activated id spec active now (some r) = record r {
  spec_json = spec;
  is_active = active;
  updated_at = now;
}

-- An activation that is persisted creates the graph's row, named after its id, or changes only the
-- spec, the flag and the time of the row that is there; one whose write fails changes nothing; no
-- other graph is touched.
pub set_active_state-get_graph :
    (fails : Bool) (t : List GraphRow) (id spec : String) (active : Bool) (now j : String)
    → get_graph (set_active_state fails t id spec active now) j ≡ (
        if not fails && id == j
        then some (activated id spec active now (get_graph t id))
        else get_graph t j)
unfolding set_active_state get_graph
set_active_state-get_graph true t id spec active now j = refl
set_active_state-get_graph false t id spec active now j =
    select-upsert graph_key
      (λ r. record r { spec_json = spec; is_active = active; updated_at = now }) (λ q. refl) t
      (activated id spec active now none) j
    ∙ merged_row (select graph_key t id)
  where
    merged_row :
        (o : Option GraphRow)
        → (if id == j
            then some (
                merged
                  (λ (r : GraphRow). record r {
                    spec_json = spec;
                    is_active = active;
                    updated_at = now;
                  })
                  (activated id spec active now none)
                  o)
            else select graph_key t j)
          ≡ (if id == j then some (activated id spec active now o) else select graph_key t j)
    merged_row none = refl
    merged_row (some r) = refl

with_row-some :
    (row r : GraphRow) (t' : List GraphRow) (o : Option (List GraphRow))
    → with_row row o ≡ some (t', r)
    → (o ≡ some t') × (r ≡ row)
with_row-some row r t' none h = cc
with_row-some row r t' (some u) h = ground arith

-- A graph that is created is read back under its id, inactive, and was not there before; the other
-- graphs are read as before.
pub create_graph-get_graph :
    (t t' : List GraphRow) (id name spec now : String) (by : Option String) (sharing j : String)
    (r : GraphRow)
    → create_graph t id name spec now by sharing ≡ some (t', r)
    → (get_graph t' j ≡ (if id == j then some r else get_graph t j))
      × (get_graph t id ≡ none)
      × (r.is_active ≡ false)
unfolding create_graph get_graph
create_graph-get_graph t t' id name spec now by sharing j r h =
    let (inserted, same) = with_row-some _ r t' _ h in
    (
      subst (λ x. select graph_key t' j ≡ (if id == j then some x else select graph_key t j))
          (sym same) (select-insert graph_key t t' _ j inserted),
      fresh (select graph_key t id) (insert-none graph_key t _) inserted,
      cc same,
    )
  where
    fresh :
        (o : Option GraphRow) {x : Option (List GraphRow)}
        → (x ≡ none) ↔ (is_some o ≡ true)
        → x ≡ some t'
        → o ≡ none
    fresh none k e = refl
    fresh (some q) k e = cc (k.1 refl)

-- Every write of the store keeps the graph ids unique.
pub data Write : Type 0 where
  update_row : String → String → Option String → Option String → Option String → Write
  delete_row : String → Write
  activate : Bool → String → String → Bool → String → Write
  set_flag : Bool → String → Bool → String → Write

abbrev pub perform : Write → List GraphRow → List GraphRow
perform (update_row id now name spec sharing) t = (update_graph t id now name spec sharing).0
perform (delete_row id) t = (delete_graph t id).0
perform (activate fails id spec active now) t = set_active_state fails t id spec active now
perform (set_flag fails id active now) t = set_is_active fails t id active now

update_found-IsKeyed :
    (t : List GraphRow) (id now : String) (name spec sharing : Option String) (o : Option GraphRow)
    → IsKeyed graph_key t
    → IsKeyed graph_key (update_found t id now name spec sharing o).0
unfolding update_found
update_found-IsKeyed t id now name spec sharing none v = v
update_found-IsKeyed t id now name spec sharing (some r) v =
    update-IsKeyed graph_key (overwrite (patched now name spec sharing r)) (λ q. refl) t id v

perform-IsKeyed :
    (w : Write) (t : List GraphRow) → IsKeyed graph_key t → IsKeyed graph_key (perform w t)
unfolding update_graph delete_graph set_active_state set_is_active
perform-IsKeyed (update_row id now name spec sharing) t v =
    update_found-IsKeyed t id now name spec sharing (get_graph t id) v
perform-IsKeyed (delete_row id) t v = delete-IsKeyed graph_key t id v
perform-IsKeyed (activate true id spec active now) t v = v
perform-IsKeyed (activate false id spec active now) t v =
    upsert-IsKeyed graph_key
      (λ r. record r { spec_json = spec; is_active = active; updated_at = now }) (λ q. refl) t _ v
perform-IsKeyed (set_flag true id active now) t v = v
perform-IsKeyed (set_flag false id active now) t v =
    update-IsKeyed graph_key (λ r. record r { is_active = active; updated_at = now }) (λ q. refl) t
      id v
