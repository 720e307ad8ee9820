-- ===== src/Storage/Sharing/Laws.antt =====
-- backend/storage/graph_sharing_store.py: reading mappings after a change.
use agent_graph_studio.Prelude.{
  if◌then◌else◌, ◌==◌, ==_iff, string_eq, filter_list, String, ◌≡◌, refl, not, ◌&&◌, Option, none,
  some, List, [], ◌∷◌, arith,
}
use agent_graph_studio.Prelude.{pair_eq}
use agent_graph_studio.Storage.Table.{merged, select, map_option, select-upsert}
use agent_graph_studio.Storage.Sharing.{
  MappingRow, SharingTables, mapping_key, set_mapping, get_mapping, clear_slots,
}

-- A mapping that is set is read back, and replaces the one before; every other user, graph and slot
-- reads as before.
pub get_mapping-set_mapping :
    (s : SharingTables) (user graph slot name : String) (u g n : String)
    → get_mapping (set_mapping s user graph slot name) u g n
      ≡ (if user == u && graph == g && slot == n then some name else get_mapping s u g n)
unfolding get_mapping set_mapping
get_mapping-set_mapping s user graph slot name u g n =
    rw
      (select-upsert mapping_key (λ r. record r { connection_name = name }) (λ q. refl) s.mappings
        (record { user_id = user; graph_id = graph; slot_name = slot; connection_name = name })
        (u, (g, n)))
      (named (select mapping_key s.mappings (user, (graph, slot))))
  where
    named :
        (o : Option MappingRow)
        → map_option
            (λ (r : MappingRow). r.connection_name)
            (if user == u && (graph == g && slot == n)
              then some (
                  merged
                    (λ (r : MappingRow). record r { connection_name = name })
                    (record {
                      user_id = user;
                      graph_id = graph;
                      slot_name = slot;
                      connection_name = name;
                    })
                    o)
              else select mapping_key s.mappings (u, (g, n)))
          ≡ (if user == u && graph == g && slot == n
              then some name
              else map_option
                  (λ (r : MappingRow). r.connection_name)
                  (select mapping_key s.mappings (u, (g, n))))
    named none = ground arith
    named (some r) = ground arith

select-filter_graph :
    (t : List MappingRow) (graph u g n : String)
    → select mapping_key (filter_list (λ (r : MappingRow). not (r.graph_id == graph)) t) (u, (g, n))
      ≡ (if graph == g then none else select mapping_key t (u, (g, n)))
unfolding select
select-filter_graph [] graph u g n = ground arith
select-filter_graph (r ∷ t) graph u g n = ground (
  arith,
  select-filter_graph t graph u g n,
  ==_iff r.graph_id graph,
  ==_iff r.graph_id g,
  ==_iff graph g,
)

-- Taking a graph back to private forgets every user's mappings for it, and no others.
pub get_mapping-clear_slots :
    (s : SharingTables) (graph u g n : String)
    → get_mapping (clear_slots s graph) u g n ≡ (if graph == g then none else get_mapping s u g n)
unfolding get_mapping clear_slots
get_mapping-clear_slots s graph u g n = ground (arith, select-filter_graph s.mappings graph u g n)
