-- ===== src/Schema/Topo/Fuel.antt =====
-- backend/schema/topo.py: the fuel of Kahn's loop. A node enters the queue at the start, or when its
-- counter goes from one to zero, which happens once.
use agent_graph_studio.Prelude.{
  length-filter_list_le, if◌then◌else◌, Bool-cases, ◌==◌, string_eq, length, length-append, ℕ, zero,
  suc, ◌+◌, ◌≤◌, String, ◌≡◌, refl, ◌≢◌, ◌⊎◌, inl, inr, Bool, true, false, none, List, [], ◌∷◌,
  ◌++◌, arith,
}
use agent_graph_studio.Prelude.Dict.{Dict, get, put, has}
use agent_graph_studio.Prelude.Int.{ℤ, pos, negsuc, increment, decrement, is_zero, is_positive}
use agent_graph_studio.Schema.Models.{EdgeSpec}
use agent_graph_studio.Schema.Topo.{
  targets, degree, fill, Counts, count_edge, count_edges, relax, drain, initial_counts, kahn_fuel,
  kahn_queue, kahn_loop,
}

-- How many counters are above zero.
abbrev positives : Dict String ℤ → ℕ
positives [] = 0
positives ((n, d) ∷ ds) = (if is_positive d then 1 else 0) + positives ds

abbrev bit : Bool → ℕ
bit b = if b then 1 else 0

-- One step down takes a counter out of the positive ones exactly when it reaches zero.
bit-decrement :
    (d : ℤ) → bit (is_positive (decrement d)) + bit (is_zero (decrement d)) ≡ bit (is_positive d)
bit-decrement (pos zero) = refl
bit-decrement (pos (suc zero)) = refl
bit-decrement (pos (suc (suc n))) = refl
bit-decrement (negsuc n) = refl

degree-cons :
    (n : String) (d : ℤ) (ds : Dict String ℤ) (m : String)
    → degree ((n, d) ∷ ds) m ≡ (if n == m then d else degree ds m)
unfolding get
degree-cons n d ds m = ground arith

positives-put_cons :
    (n : String) (d : ℤ) (ds : Dict String ℤ) (m : String) (e : ℤ)
    → positives (put ((n, d) ∷ ds) m e) ≡ (
        if n == m
        then bit (is_positive e) + positives ds
        else bit (is_positive d) + positives (put ds m e))
unfolding put
positives-put_cons n d ds m e = ground arith

positives-relax_one :
    (ds : Dict String ℤ) (m : String)
    → positives (put ds m (decrement (degree ds m))) + bit (is_zero (decrement (degree ds m)))
      ≤ positives ds
positives-relax_one [] m = unfold put get in omega arith
positives-relax_one ((n, d) ∷ ds) m =
    rw (degree-cons, positives-put_cons) (on (Bool-cases (n == m)) (positives-relax_one ds m))
  where
    on :
        ((n == m) ≡ true) ⊎ ((n == m) ≡ false)
        → positives (put ds m (decrement (degree ds m))) + bit (is_zero (decrement (degree ds m)))
          ≤ positives ds
        → (let e = if n == m then d else degree ds m in
            (if n == m
                then bit (is_positive (decrement e)) + positives ds
                else bit (is_positive d) + positives (put ds m (decrement e)))
              + bit (is_zero (decrement e))
            ≤ positives ((n, d) ∷ ds))
    on (inl h) ih = rw h (omega (arith, bit-decrement d))
    on (inr h) ih = rw h (omega (arith, ih))

length-queue_if :
    (z : Bool) (queue : List String) (m : String)
    → length (if z then queue ++ m ∷ [] else queue) ≡ length queue + bit z
length-queue_if true queue m = length-append queue (m ∷ [])
length-queue_if false queue m = omega arith

-- The queue grows by no more than the counters that leave the positive ones.
relax-measure :
    (ds : Dict String ℤ) (queue ms : List String)
    → length (relax ds queue ms).1 + positives (relax ds queue ms).0 ≤ length queue + positives ds
unfolding relax
relax-measure ds queue [] = omega arith
relax-measure ds queue (m ∷ ms) =
    let left = decrement (degree ds m) in
    let queue' = if is_zero left then queue ++ m ∷ [] else queue in
    omega (
      arith,
      positives-relax_one ds m,
      length-queue_if (is_zero left) queue m,
      relax-measure (put ds m left) queue' ms,
    )

drain-ne-none :
    (fuel : ℕ) (adjacency : Dict String (List String)) (ds : Dict String ℤ)
    (queue order : List String)
    → length queue + positives ds ≤ fuel
    → drain fuel adjacency ds queue order ≢ none
unfolding drain
drain-ne-none zero adjacency ds [] order le h = cc
drain-ne-none (suc fuel) adjacency ds [] order le h = cc
drain-ne-none zero adjacency ds (n ∷ queue) order le h = absurd (omega arith)
drain-ne-none (suc fuel) adjacency ds (n ∷ queue) order le h =
    drain-ne-none fuel adjacency (relax ds queue (targets adjacency n)).0
      (relax ds queue (targets adjacency n)).1 (order ++ n ∷ [])
      (omega (arith, relax-measure ds queue (targets adjacency n))) h

positives_le : (ds : Dict String ℤ) → positives ds ≤ length ds
positives_le [] = omega arith
positives_le ((n, d) ∷ ds) = ground (arith, positives_le ds)

length-put_present :
    (ds : Dict String ℤ) (n : String) (d : ℤ) → has ds n ≡ true → length (put ds n d) ≡ length ds
unfolding put get
length-put_present [] n d h = cc
length-put_present ((m, e) ∷ ds) n d h = ground (arith, length-put_present ds n d)

length-put_le : (ds : Dict String ℤ) (n : String) (d : ℤ) → length (put ds n d) ≤ suc (length ds)
unfolding put
length-put_le [] n d = omega arith
length-put_le ((m, e) ∷ ds) n d = ground (arith, length-put_le ds n d)

length-fill_le :
    (d : ℤ) (ds : Dict String ℤ) (ids : List String)
    → length (fill d ds ids) ≤ length ds + length ids
unfolding fill
length-fill_le d ds [] = omega arith
length-fill_le d ds (n ∷ ids) =
    omega (arith, length-fill_le d (put ds n d) ids, length-put_le ds n d)

length-count_edge :
    (c : Counts) (e : EdgeSpec) → length (count_edge c e).indegree ≡ length c.indegree
unfolding count_edge
length-count_edge c e =
    ground
      (arith, length-put_present c.indegree e.to.node (increment (degree c.indegree e.to.node)))

length-count_edges :
    (c : Counts) (es : List EdgeSpec) → length (count_edges c es).indegree ≡ length c.indegree
unfolding count_edges
length-count_edges c [] = refl
length-count_edges c (e ∷ es) =
    omega (arith, length-count_edges (count_edge c e) es, length-count_edge c e)

-- The loop always ends within its fuel, whatever the ids and the edges are.
pub kahn_loop-ne-none : (ids : List String) (edges : List EdgeSpec) → kahn_loop ids edges ≢ none
unfolding kahn_loop
kahn_loop-ne-none ids edges =
    let c = initial_counts ids edges in
    drain-ne-none (kahn_fuel ids) c.adjacency c.indegree (kahn_queue ids c.indegree) [] (
      unfold initial_counts kahn_queue in
      omega (
        arith,
        positives_le c.indegree,
        length-count_edges (record { indegree = fill (pos 0) [] ids; adjacency = fill [] [] ids })
            edges,
        length-fill_le (pos 0) [] ids,
        length-filter_list_le (λ n. is_zero (degree c.indegree n)) ids,
      ))
