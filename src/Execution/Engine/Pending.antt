-- ===== src/Execution/Engine/Pending.antt =====
-- backend/execution/engine.py: the invariant of `while pending`, on what is pending and what is traced.
use agent_graph_studio.Prelude.{
  ==_iff, ==_refl, string_eq, length, contains, Distinct, contains-append, length-remove,
  contains-remove_le, contains-remove_ne, contains-remove_self, Distinct-remove, Distinct-snoc,
  map-append, ℕ, zero, suc, ◌+◌, ◌≤◌, ◌<◌, String, ◌≡◌, refl, ap, ◌≢◌, true, false, none, some,
  List, [], ◌∷◌, ◌++◌, map, arith,
}
use agent_graph_studio.Prelude.Dict.{Dict}
use agent_graph_studio.Schema.Value.{Value}
use agent_graph_studio.Execution.Trace.{TraceRecord, entry}
use agent_graph_studio.Execution.Engine.Gather.{Setup, RunState}
use agent_graph_studio.Execution.Engine.Round.{
  Completed, Step, next, stopped, crashed, after_start, round,
}
use agent_graph_studio.Execution.Engine.Scans.{ready_ids, scan-ScanShape}
use agent_graph_studio.Execution.Engine.Launches.{
  IsIndexed, AreCallsOf, node_id-IsCallOf, collect_ind, Settled, publish_result-Settled,
}
use agent_graph_studio.Execution.Engine.Rules.{Went, Broke, round-next, rounds_ind}
use agent_graph_studio.Execution.Engine.Loop.{ended, rounds}

abbrev pub traced_ids : List TraceRecord → List String
traced_ids trace = map (λ r. (entry r).node_id) trace

abbrev call_ids : List Completed → List String
call_ids cs = map (λ c. c.node_id) cs

-- Each completed call is recorded under its own id.
abbrev AreNamed : List Completed → Type 0
AreNamed [] = Unit
AreNamed (c ∷ cs) = ((entry c.trace_entry).node_id ≡ c.node_id) × AreNamed cs

call_ids-AreCallsOf :
    (setup : Setup) (ns : List (String × Dict String Value)) (cs : List Completed)
    → IsIndexed setup
    → AreCallsOf setup ns cs
    → (call_ids cs ≡ ready_ids ns) × AreNamed cs
call_ids-AreCallsOf setup [] [] v h = (refl, tt)
call_ids-AreCallsOf setup [] (c ∷ cs) v h = absurd h
call_ids-AreCallsOf setup (n ∷ ns) [] v h = absurd h
call_ids-AreCallsOf setup ((id, inputs) ∷ ns) (c ∷ cs) v h =
    ground (arith, node_id-IsCallOf setup v id inputs c h.0, call_ids-AreCallsOf setup ns cs v h.1)

-- `initial` are the nodes that were pending at the start.
pub record IsOnce (initial : List String) (s : RunState) : Type 0 where
  pub pending_distinct : Distinct s.pending
  pub traced_distinct : Distinct (traced_ids s.trace)
  pub apart : (x : String) → contains (traced_ids s.trace) x ≡ true → contains s.pending x ≡ false
  pub traced : (x : String) → contains (traced_ids s.trace) x ≡ true → contains initial x ≡ true
  pub waits : (x : String) → contains s.pending x ≡ true → contains initial x ≡ true

-- The same, while the calls `cs` are still to be settled.
record IsMidway (initial : List String) (cs : List Completed) (s : RunState) : Type 0 where
  once : IsOnce initial s
  named : AreNamed cs
  calls_distinct : Distinct (call_ids cs)
  calls_pending : (x : String) → contains (call_ids cs) x ≡ true → contains s.pending x ≡ true

Settled-IsMidway :
    (initial : List String) (c : Completed) (cs : List Completed) (s s' : RunState)
    → IsMidway initial (c ∷ cs) s
    → Settled s c s'
    → IsMidway initial cs s'
Settled-IsMidway initial c cs s s' m k =
    let more : traced_ids s'.trace ≡ traced_ids s.trace ++ c.node_id ∷ [] = cc (
      m.named.0,
      map-append (λ (r : TraceRecord). (entry r).node_id) s.trace (c.trace_entry ∷ []),
      ap (λ t. map (λ (r : TraceRecord). (entry r).node_id) t) k.trace,
    ) in
    let here : contains s.pending c.node_id ≡ true =
      m.calls_pending c.node_id (ground (arith, ==_refl c.node_id)) in
    record {
      once = record {
        pending_distinct =
            rw k.pending (Distinct-remove s.pending c.node_id m.once.pending_distinct);
        traced_distinct = rw more (
            Distinct-snoc (traced_ids s.trace) c.node_id m.once.traced_distinct
              (ground (arith, m.once.apart c.node_id)));
        apart = λ x h. ground (
          arith,
          more,
          k.pending,
          contains-append (traced_ids s.trace) (c.node_id ∷ []) x,
          m.once.apart x,
          contains-remove_le s.pending c.node_id x,
          ==_iff c.node_id x,
          contains-remove_self s.pending c.node_id m.once.pending_distinct,
        );
        traced = λ x h. ground (
          arith,
          more,
          contains-append (traced_ids s.trace) (c.node_id ∷ []) x,
          m.once.traced x,
          m.once.waits x,
          ==_iff c.node_id x,
        );
        waits = λ x h.
            ground (arith, k.pending, contains-remove_le s.pending c.node_id x, m.once.waits x);
      };
      named = m.named.1;
      calls_distinct = m.calls_distinct.1;
      calls_pending = λ x h. ground (
        arith,
        k.pending,
        contains-remove_ne s.pending c.node_id x,
        m.calls_pending x,
        ==_iff c.node_id x,
        m.calls_distinct.0,
      );
    }

module _ (setup : Setup) (indexed : IsIndexed setup) (initial : List String) where
  -- The calls of a round, before the first is settled.
  start-IsMidway :
      (s s' : RunState) (w : Went setup s s')
      → IsOnce initial s
      → IsMidway initial w.calls (after_start s w.lists)
  start-IsMidway s s' w v =
      let shape = scan-ScanShape setup s w.lists v.pending_distinct w.scan_done in
      let (ids, named) = call_ids-AreCallsOf setup w.lists.ready_nodes w.calls indexed w.calls_of in
      record {
        once = record {
          pending_distinct = shape.distinct;
          traced_distinct = v.traced_distinct;
          apart = λ x h. ground (arith, v.apart x, shape.shrinks x);
          traced = v.traced;
          waits = λ x h. v.waits x (shape.shrinks x h);
        };
        named = named;
        calls_distinct = rw ids shape.ready_distinct;
        calls_pending = λ x h. shape.ready_pending x (ground (arith, ids));
      }

  Went-IsMidway :
      (s s' : RunState) (w : Went setup s s')
      → IsOnce initial s
      → IsMidway initial [] s' × (length s'.pending + length w.calls ≡ length w.lists.pending + 0)
  Went-IsMidway s s' w v =
      collect_ind setup
        (λ cs u.
          IsMidway initial cs u
          × (length u.pending + length w.calls ≡ length w.lists.pending + length cs))
        (λ c cs u u' p e.
          let k = publish_result-Settled setup u u' c c.node_result e in
          (
            Settled-IsMidway initial c cs u u' p.0 k,
            rw k.pending (
                omega (
                  arith,
                  p.1,
                  length-remove u.pending c.node_id
                      (p.0.calls_pending c.node_id (ground (arith, ==_refl c.node_id))),
                )),
          ))
        w.calls (after_start s w.lists) s' (start-IsMidway s s' w v, omega arith) w.collected

  Went-IsOnce : (s s' : RunState) → IsOnce initial s → Went setup s s' → IsOnce initial s'
  Went-IsOnce s s' v w = (Went-IsMidway s s' w v).0.once

  Broke-IsOnce : (s s' : RunState) → IsOnce initial s → Broke setup s s' → IsOnce initial s'
  Broke-IsOnce s s' v b =
      let shape = scan-ScanShape setup s b.lists v.pending_distinct b.scan_done in
      rw b.left (record {
        pending_distinct = shape.distinct;
        traced_distinct = v.traced_distinct;
        apart = λ x h. ground (arith, v.apart x, shape.shrinks x);
        traced = v.traced;
        waits = λ x h. v.waits x (shape.shrinks x h);
      })

  pub rounds-IsOnce :
      (fuel : ℕ) (s s' : RunState)
      → IsOnce initial s
      → rounds fuel setup s ≡ some (ended s')
      → IsOnce initial s'
  rounds-IsOnce fuel s s' v h =
      rounds_ind setup (IsOnce initial) Went-IsOnce Broke-IsOnce fuel s s' v h

  -- A round that goes on settles at least one node.
  Went-shorter :
      (s s' : RunState) → IsOnce initial s → Went setup s s' → length s'.pending < length s.pending
  Went-shorter s s' v w =
      let shape = scan-ScanShape setup s w.lists v.pending_distinct w.scan_done in
      let (ids, named) = call_ids-AreCallsOf setup w.lists.ready_nodes w.calls indexed w.calls_of in
      some_calls w.lists.ready_nodes w.calls w.some_ready ids shape.shorter
        (Went-IsMidway s s' w v).1
    where
      some_calls :
          (ns : List (String × Dict String Value)) (cs : List Completed)
          → ns ≢ []
          → call_ids cs ≡ ready_ids ns
          → length w.lists.pending ≤ length s.pending
          → length s'.pending + length cs ≡ length w.lists.pending + 0
          → length s'.pending < length s.pending
      some_calls [] cs h ids le e = absurd (h refl)
      some_calls (n ∷ ns) [] h ids le e = cc
      some_calls (n ∷ ns) (c ∷ cs) h ids le e = omega arith

  rounds-ne-none_on :
      (fuel : ℕ) (s : RunState) (id : String) (ids : List String) (t : Step)
      → s.pending ≡ id ∷ ids
      → round setup s ≡ t
      → ((u : RunState) → round setup s ≡ next u → rounds fuel setup u ≢ none)
      → rounds (suc fuel) setup s ≢ none
  rounds-ne-none_on fuel s id ids (stopped u) q e ih h = unfold rounds in ground arith
  rounds-ne-none_on fuel s id ids (crashed x y) q e ih h = unfold rounds in ground arith
  rounds-ne-none_on fuel s id ids (next u) q e ih h =
      ih u e (unfold rounds in rw (q, e, rounds) at h)

  pub rounds-ne-none :
      (fuel : ℕ) (s : RunState) (ids : List String)
      → s.pending ≡ ids
      → length s.pending ≤ fuel
      → IsOnce initial s
      → rounds fuel setup s ≢ none
  rounds-ne-none zero s [] q le v h = unfold rounds in ground arith
  rounds-ne-none (suc fuel) s [] q le v h = unfold rounds in ground arith
  rounds-ne-none zero s (id ∷ ids) q le v h = absurd (omega (arith, ap length q))
  rounds-ne-none (suc fuel) s (id ∷ ids) q le v h =
      rounds-ne-none_on fuel s id ids (round setup s) q refl
        (λ u e.
          let w = round-next setup s u e in
          rounds-ne-none fuel u u.pending refl (omega (arith, Went-shorter s u v w))
            (Went-IsOnce s u v w))
        h
