-- ===== src/Schema/Topo.antt =====
-- backend/schema/topo.py: Kahn's algorithm. The theorems stand in the modules below.
pub mod Fuel
use agent_graph_studio.Prelude.{
  if◌then◌else◌, string_eq, nat_eq, bool_eq, option_eq, pair_eq, length, filter_list, contains, ℕ,
  zero, suc, ◌+◌, String, not, ◌||◌, Option, none, some, List, [], ◌∷◌, ◌++◌,
}
use agent_graph_studio.Prelude.Dict.{Dict, get, put, has}
use agent_graph_studio.Prelude.Int.{ℤ, pos, increment, decrement, is_zero}
use agent_graph_studio.Schema.Models.{EdgeSpec}

-- `d[k]`, at a key that the code has put in before
abbrev targets : Dict String (List String) → String → List String
targets adjacency n = elim (get adjacency n) [ none ↦ [] | some ts ↦ ts ]

abbrev degree : Dict String ℤ → String → ℤ
degree indegree n = elim (get indegree n) [ none ↦ pos 0 | some d ↦ d ]

-- `{n: 0 for n in node_ids}` and `{n: [] for n in node_ids}`
fill {ℓ} : {V : Type ℓ} → V → Dict String V → List String → Dict String V
fill v d [] = d
fill v d (n ∷ ns) = fill v (put d n v) ns

pub record Counts : Type 0 where
  pub indegree : Dict String ℤ
  pub adjacency : Dict String (List String)

-- the body of `for e in edges`
count_edge : Counts → EdgeSpec → Counts
count_edge c e =
    if not (has c.adjacency e.from_.node) || not (has c.indegree e.to.node) then c else record {
      indegree = put c.indegree e.to.node (increment (degree c.indegree e.to.node));
      adjacency = put c.adjacency e.from_.node (targets c.adjacency e.from_.node ++ e.to.node ∷ []);
    }

count_edges : Counts → List EdgeSpec → Counts
count_edges c [] = c
count_edges c (e ∷ es) = count_edges (count_edge c e) es

-- the body of `for m in adjacency[n]`, over the counters and the queue
relax : Dict String ℤ → List String → List String → Dict String ℤ × List String
relax indegree queue [] = (indegree, queue)
relax indegree queue (m ∷ ms) =
    let left = decrement (degree indegree m) in
    relax (put indegree m left) (if is_zero left then queue ++ m ∷ [] else queue) ms

-- `while queue`, on fuel; `none` means that the fuel ran out
drain :
    ℕ → Dict String (List String) → Dict String ℤ → List String → List String → Option (List String)
drain fuel adjacency indegree [] order = some order
drain zero adjacency indegree (n ∷ queue) order = none
drain (suc fuel) adjacency indegree (n ∷ queue) order =
    let (indegree', queue') = relax indegree queue (targets adjacency n) in
    drain fuel adjacency indegree' queue' (order ++ n ∷ [])

initial_counts : List String → List EdgeSpec → Counts
unfolding fill count_edges count_edge
initial_counts ids edges =
    count_edges (record { indegree = fill (pos 0) [] ids; adjacency = fill [] [] ids }) edges

-- Each node is queued at the start or when its counter reaches zero.
abbrev kahn_fuel : List String → ℕ
kahn_fuel ids = length ids + length ids

kahn_queue : List String → Dict String ℤ → List String
kahn_queue ids indegree = filter_list (λ n. is_zero (degree indegree n)) ids

-- `order`, at the end of the loop
pub kahn_loop : List String → List EdgeSpec → Option (List String)
unfolding initial_counts kahn_queue drain relax
kahn_loop ids edges =
    let c = initial_counts ids edges in
    drain (kahn_fuel ids) c.adjacency c.indegree (kahn_queue ids c.indegree) []

-- The fuel does not run out (`kahn_loop-ne-none`), so the fallback is never taken.
abbrev order_or : Option (List String) → List String
order_or none = []
order_or (some order) = order

-- `(order, remaining)`
unfoldable pub kahn_order : List String → List EdgeSpec → List String × List String
unfolding kahn_loop
kahn_order ids edges =
    let order = order_or (kahn_loop ids edges) in
    (order, filter_list (λ n. not (contains order n)) ids)
