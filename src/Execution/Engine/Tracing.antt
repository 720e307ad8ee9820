-- ===== src/Execution/Engine/Tracing.antt =====
-- backend/execution/engine.py: the sources of inputs through the rounds.
use agent_graph_studio.Prelude.{
  Bool-cases, ◌==◌, ==_iff, string_eq, All, All-map, ℕ, String, ◌≡◌, sym, ap, subst, ◌∙◌, ◌⊎◌, inl,
  inr, Option, some, List, [], ◌∷◌, ◌++◌, arith,
}
use agent_graph_studio.Prelude.{pair_eq, option_eq}
use agent_graph_studio.Prelude.Dict.{Dict, get, put, get-put}
use agent_graph_studio.Schema.Value.{Value}
use agent_graph_studio.Registry.{effective_inputs}
use agent_graph_studio.Execution.Trace.{TraceRecord, entry, NodeResult}
use agent_graph_studio.Execution.Engine.Gather.{SlotKey, Setup, RunState, or_empty}
use agent_graph_studio.Execution.Engine.Round.{
  Completed, publish, settle, next, publish_result, after_start,
}
use agent_graph_studio.Execution.Engine.Launches.{
  IsIndexed, IsCallOf, AreCallsOf, node_id-IsCallOf, inputs-IsCallOf, outputs-IsCallOf,
  error-IsCallOf, collect_ind, publish_result-Settled, publish_result-available,
}
use agent_graph_studio.Execution.Engine.Rules.{Went, Broke, rounds_ind}
use agent_graph_studio.Execution.Engine.Gathering.{
  ComesFrom, IsFilled, gather_slots-ComesFrom, gather_slots-IsFilled,
}
use agent_graph_studio.Execution.Engine.WasReady.{WasReady, AllReady, scan-AllReady}
use agent_graph_studio.Execution.Engine.Loop.{ended, rounds}
use agent_graph_studio.Execution.Engine.Supply.{
  Emits, Produced, Produced-append_left, Produced-append_right, IsSourced, IsSupplied, AllSupplied,
  IsSupplied-append, AllSupplied-snoc,
}

publish-Emits :
    (available : Dict SlotKey Value) (id : String) (outputs : Dict String Value) (n : String)
    (slot : Option String) (v : Value)
    → get (publish available id outputs) (n, slot) ≡ some v
    → (get available (n, slot) ≡ some v) ⊎ ((id ≡ n) × Emits outputs slot v)
publish-Emits available id [] n slot v h = inl (unfold publish in h)
publish-Emits available id ((k, w) ∷ outputs) n slot v h =
    elim (publish-Emits (put available (id, some k) w) id outputs n slot v (unfold publish in h)) [
      | inr (e, p) ↦ inr (e, inr p)
      | inl p ↦ elim (Bool-cases (◌==◌ {T = SlotKey} (id, some k) (n, slot))) [
        | inl same ↦
            let e = (==_iff {A = SlotKey} (id, some k) (n, slot)).0 same in
            inr (
              ap (λ (t : SlotKey). t.0) e,
              inl (
                ap (λ (t : SlotKey). t.1) e,
                ground (arith, get-put available (id, some k) (n, slot) w),
              ),
            )
        | inr other ↦ inl (ground (arith, get-put available (id, some k) (n, slot) w))
      ]
    ]

-- Whatever is available was produced by a record, and every record is supplied by those before it.
pub record IsTraced (setup : Setup) (s : RunState) : Type 0 where
  pub published :
      (n : String) (slot : Option String) (v : Value)
      → get s.available (n, slot) ≡ some v
      → Produced s.trace n slot v
  pub supplied : AllSupplied setup [] s.trace

-- A call whose record is supplied, and whose result is the one that its record shows.
record IsSound (setup : Setup) (trace : List TraceRecord) (c : Completed) : Type 0 where
  supplied : IsSupplied setup trace c.trace_entry
  named : (entry c.trace_entry).node_id ≡ c.node_id
  shown : (r : NodeResult) → c.node_result ≡ some r → (entry c.trace_entry).outputs ≡ r.outputs

module _ (setup : Setup) (indexed : IsIndexed setup) where
  -- The call of a node that was found ready is sound.
  IsCallOf-IsSound :
      (s : RunState) (id : String) (g : Dict String Value) (c : Completed)
      → IsTraced setup s
      → WasReady setup s id g
      → IsCallOf setup id g c
      → IsSound setup s.trace c
  IsCallOf-IsSound s id g c v k call =
      let of_node : (entry c.trace_entry).node_id ≡ id =
        (node_id-IsCallOf setup indexed id g c call).1 in
      let inputs = inputs-IsCallOf setup id g c call in
      record {
        supplied = record {
          node = k.node;
          definition = k.definition;
          stored = rw of_node k.stored;
          registered = k.registered;
          sourced = λ slot w h. published_input slot w (
              gather_slots-ComesFrom s.available k.finished setup.incoming_by_slot k.node
                (or_empty (effective_inputs k.definition k.node)) [] g k.found_ready
                (λ n u e. unfold get in cc) slot w (rw inputs at h));
          filled =
              subst (λ x. All (IsFilled x) (or_empty (effective_inputs k.definition k.node)))
                (sym inputs)
                (gather_slots-IsFilled s.available k.finished setup.incoming_by_slot k.node
                  (or_empty (effective_inputs k.definition k.node)) [] g k.found_ready);
          silent = λ m h. error-IsCallOf setup id g c m call h;
        };
        named = of_node ∙ sym (node_id-IsCallOf setup indexed id g c call).0;
        shown = λ r h. outputs-IsCallOf setup id g c r call h;
      }
    where
      published_input :
          (slot : String) (w : Value)
          → ComesFrom s.available setup.incoming_by_slot k.node slot w
          → IsSourced setup s.trace k.node slot w
      published_input slot w (inl h) = inl h
      published_input slot w (inr (e, q, p)) = inr (e, q, v.published e.from_.node e.from_.slot w p)

  AreCallsOf-IsSound :
      (s : RunState) (ns : List (String × Dict String Value)) (cs : List Completed)
      → IsTraced setup s
      → AllReady setup s ns
      → AreCallsOf setup ns cs
      → All (IsSound setup s.trace) cs
  AreCallsOf-IsSound s [] [] v k call = tt
  AreCallsOf-IsSound s [] (c ∷ cs) v k call = absurd call
  AreCallsOf-IsSound s (n ∷ ns) [] v k call = absurd call
  AreCallsOf-IsSound s ((id, g) ∷ ns) (c ∷ cs) v k call =
      (IsCallOf-IsSound s id g c v k.0 call.0, AreCallsOf-IsSound s ns cs v k.1 call.1)

  IsSound-append :
      (t u : List TraceRecord) (c : Completed) → IsSound setup t c → IsSound setup (t ++ u) c
  IsSound-append t u c k = record {
    supplied = IsSupplied-append setup t u c.trace_entry k.supplied;
    named = k.named;
    shown = k.shown;
  }

  -- Settling a sound call keeps the state traced.
  Settled-IsTraced :
      (c : Completed) (s s' : RunState)
      → IsTraced setup s
      → IsSound setup s.trace c
      → publish_result setup (settle s c) c c.node_result ≡ next s'
      → IsTraced setup s'
  Settled-IsTraced c s s' v k h =
      let done = publish_result-Settled setup s s' c c.node_result h in
      record {
        published = λ n slot w e.
            subst (λ t. Produced t n slot w) (sym done.trace)
              (elim (publish_result-available setup s s' c c.node_result h) [
                | inl (_, same) ↦
                    Produced-append_left s.trace (c.trace_entry ∷ []) n slot w
                      (v.published n slot w (rw same at e))
                | inr (r, some_result, more) ↦
                    from_outputs n slot w r some_result
                      (publish-Emits s.available c.node_id r.outputs n slot w (rw more at e))
              ]);
        supplied =
            subst (λ t. AllSupplied setup [] t) (sym done.trace)
              (AllSupplied-snoc setup [] s.trace c.trace_entry v.supplied k.supplied);
      }
    where
      from_outputs :
          (n : String) (slot : Option String) (w : Value) (r : NodeResult)
          → c.node_result ≡ some r
          → (get s.available (n, slot) ≡ some w) ⊎ ((c.node_id ≡ n) × Emits r.outputs slot w)
          → Produced (s.trace ++ c.trace_entry ∷ []) n slot w
      from_outputs n slot w r q (inl old) =
          Produced-append_left s.trace (c.trace_entry ∷ []) n slot w (v.published n slot w old)
      from_outputs n slot w r q (inr (here, emits)) =
          Produced-append_right s.trace (c.trace_entry ∷ []) n slot w
            (inl (k.named ∙ here, subst (λ o. Emits o slot w) (sym (k.shown r q)) emits))

  Went-IsTraced : (s s' : RunState) → IsTraced setup s → Went setup s s' → IsTraced setup s'
  Went-IsTraced s s' v w =
      (collect_ind setup (λ cs u. IsTraced setup u × All (IsSound setup u.trace) cs)
        (λ c cs u u' p e.
          let done = publish_result-Settled setup u u' c c.node_result e in
          (
            Settled-IsTraced c u u' p.0 p.1.0 e,
            subst (λ t. All (IsSound setup t) cs) (sym done.trace)
                (All-map (IsSound setup u.trace) (IsSound setup (u.trace ++ c.trace_entry ∷ [])) cs
                  (IsSound-append u.trace (c.trace_entry ∷ [])) p.1.1),
          ))
        w.calls (after_start s w.lists) s'
        (
          record { published = v.published; supplied = v.supplied },
          AreCallsOf-IsSound s w.lists.ready_nodes w.calls v
              (scan-AllReady setup s w.lists w.scan_done) w.calls_of,
        )
        w.collected).0

  Broke-IsTraced : (s s' : RunState) → IsTraced setup s → Broke setup s s' → IsTraced setup s'
  Broke-IsTraced s s' v b = rw b.left (record { published = v.published; supplied = v.supplied })

  pub rounds-IsTraced :
      (fuel : ℕ) (s s' : RunState)
      → IsTraced setup s
      → rounds fuel setup s ≡ some (ended s')
      → IsTraced setup s'
  rounds-IsTraced fuel s s' v h =
      rounds_ind setup (IsTraced setup) Went-IsTraced Broke-IsTraced fuel s s' v h
