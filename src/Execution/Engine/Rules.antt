-- ===== src/Execution/Engine/Rules.antt =====
-- One turn of `while pending` taken apart, and a rule for the whole loop.
use agent_graph_studio.Prelude.{
  subst, sym, string_eq, ℕ, zero, suc, String, ◌≡◌, refl, ◌≢◌, ◌⊎◌, inl, inr, Option, none, some,
  List, [], ◌∷◌, arith,
}
use agent_graph_studio.Prelude.Dict.{Dict}
use agent_graph_studio.Schema.Value.{Value}
use agent_graph_studio.Execution.Trace.{NodeResult}
use agent_graph_studio.Execution.Engine.Gather.{Setup, RunState}
use agent_graph_studio.Execution.Engine.Round.{
  Scan, Scanned, scanned, scan_failed, scan, start_scan, Completed, Launched, launched,
  launch_failed, launch, settle, Step, next, stopped, crashed, store_outputs, publish_result,
  collect, run_ready, after_start, after_scan, round,
}
use agent_graph_studio.Execution.Engine.Launches.{AreCallsOf, launch-AreCallsOf}
use agent_graph_studio.Execution.Engine.Loop.{ended, rounds}

store_outputs-ne-stopped :
    (s t : RunState) (c : Completed) (r : NodeResult) (o : Option (Dict String Value))
    → store_outputs s c r o ≢ stopped t
unfolding store_outputs
store_outputs-ne-stopped s t c r none h = cc
store_outputs-ne-stopped s t c r (some x) h = cc

publish_result-ne-stopped :
    (setup : Setup) (s t : RunState) (c : Completed) (o : Option NodeResult)
    → publish_result setup s c o ≢ stopped t
unfolding publish_result
publish_result-ne-stopped setup s t c none h = cc
publish_result-ne-stopped setup s t c (some r) h = ground (arith, store_outputs-ne-stopped s t c r)

collect-ne-stopped_on :
    (setup : Setup) (c : Completed) (cs : List Completed) (s t : RunState) (x : Step)
    → publish_result setup (settle s c) c c.node_result ≡ x
    → ((u : RunState) → collect setup u cs ≢ stopped t)
    → collect setup s (c ∷ cs) ≢ stopped t
collect-ne-stopped_on setup c cs s t (next u) e ih h = ih u (unfold collect in rw (e, collect) at h)
collect-ne-stopped_on setup c cs s t (stopped u) e ih h =
    publish_result-ne-stopped setup (settle s c) u c c.node_result e
collect-ne-stopped_on setup c cs s t (crashed x y) e ih h = unfold collect in ground arith

collect-ne-stopped :
    (setup : Setup) (cs : List Completed) (s t : RunState) → collect setup s cs ≢ stopped t
collect-ne-stopped setup [] s t h = unfold collect in cc
collect-ne-stopped setup (c ∷ cs) s t h =
    collect-ne-stopped_on setup c cs s t _ refl (λ u. collect-ne-stopped setup cs u t) h

-- A round that goes on: its scan found ready nodes, and the loop over their calls ended normally.
pub record Went (setup : Setup) (s s' : RunState) : Type 0 where
  pub lists : Scan
  pub calls : List Completed
  pub scan_done : scan setup s (start_scan s) s.pending ≡ scanned lists
  pub some_ready : lists.ready_nodes ≢ []
  pub calls_of : AreCallsOf setup lists.ready_nodes calls
  pub collected : collect setup (after_start s lists) calls ≡ next s'

-- A round that breaks: its scan found no ready node.
pub record Broke (setup : Setup) (s s' : RunState) : Type 0 where
  pub lists : Scan
  pub scan_done : scan setup s (start_scan s) s.pending ≡ scanned lists
  pub none_ready : lists.ready_nodes ≡ []
  pub left : s' ≡ record s { pending = lists.pending; finished = lists.finished }

run_ready-next :
    (setup : Setup) (s s' : RunState) (l : Launched)
    → run_ready setup s l ≡ next s'
    → (cs : List Completed) × (l ≡ launched cs) × (collect setup s cs ≡ next s')
unfolding run_ready
run_ready-next setup s s' (launched cs) h = (cs, refl, h)
run_ready-next setup s s' (launch_failed e) h = cc

after_scan-next :
    (setup : Setup) (s s' : RunState) (c : Scan) (ns : List (String × Dict String Value))
    → scan setup s (start_scan s) s.pending ≡ scanned c
    → c.ready_nodes ≡ ns
    → after_scan setup s c ns ≡ next s'
    → Went setup s s'
after_scan-next setup s s' c [] e r h = unfold after_scan in cc
after_scan-next setup s s' c (n ∷ ns) e r h =
    let (cs, l, done) =
      run_ready-next setup (after_start s c) s' (launch setup (n ∷ ns)) (unfold after_scan in h) in
    record {
      lists = c;
      calls = cs;
      scan_done = e;
      some_ready = λ p. cc;
      calls_of =
          subst (λ l'. AreCallsOf setup l' cs) (sym r) (launch-AreCallsOf setup (n ∷ ns) cs l);
      collected = done;
    }

round-next_on :
    (setup : Setup) (s s' : RunState) (x : Scanned)
    → scan setup s (start_scan s) s.pending ≡ x
    → round setup s ≡ next s'
    → Went setup s s'
round-next_on setup s s' (scanned c) e h =
    after_scan-next setup s s' c c.ready_nodes e refl (unfold round in rw (e, round) at h)
round-next_on setup s s' (scan_failed x) e h = unfold round in ground arith

pub round-next : (setup : Setup) (s s' : RunState) → round setup s ≡ next s' → Went setup s s'
round-next setup s s' h = round-next_on setup s s' (scan setup s (start_scan s) s.pending) refl h

run_ready-ne-stopped :
    (setup : Setup) (s t : RunState) (l : Launched) → run_ready setup s l ≢ stopped t
unfolding run_ready
run_ready-ne-stopped setup s t (launched cs) h = collect-ne-stopped setup cs s t h
run_ready-ne-stopped setup s t (launch_failed e) h = cc

after_scan-stopped :
    (setup : Setup) (s s' : RunState) (c : Scan) (ns : List (String × Dict String Value))
    → scan setup s (start_scan s) s.pending ≡ scanned c
    → c.ready_nodes ≡ ns
    → after_scan setup s c ns ≡ stopped s'
    → Broke setup s s'
after_scan-stopped setup s s' c [] e r h = record {
  lists = c;
  scan_done = e;
  none_ready = r;
  left = unfold after_scan in ground arith;
}
after_scan-stopped setup s s' c (n ∷ ns) e r h = absurd (
    run_ready-ne-stopped setup (after_start s c) s' (launch setup (n ∷ ns))
      (unfold after_scan in h))

round-stopped_on :
    (setup : Setup) (s s' : RunState) (x : Scanned)
    → scan setup s (start_scan s) s.pending ≡ x
    → round setup s ≡ stopped s'
    → Broke setup s s'
round-stopped_on setup s s' (scanned c) e h =
    after_scan-stopped setup s s' c c.ready_nodes e refl (unfold round in rw (e, round) at h)
round-stopped_on setup s s' (scan_failed x) e h = unfold round in ground arith

pub round-stopped :
    (setup : Setup) (s s' : RunState) → round setup s ≡ stopped s' → Broke setup s s'
round-stopped setup s s' h =
    round-stopped_on setup s s' (scan setup s (start_scan s) s.pending) refl h

-- A property of the state that every round keeps holds when the loop ends.
module _ (setup : Setup) (P : RunState → Type 0)
    (keep : (s s' : RunState) → P s → Went setup s s' → P s')
    (halt : (s s' : RunState) → P s → Broke setup s s' → P s') where
  rounds_step :
      (fuel : ℕ) (s s' : RunState) (p : String) (ps : List String) (t : Step)
      → s.pending ≡ p ∷ ps
      → round setup s ≡ t
      → rounds (suc fuel) setup s ≡ some (ended s')
      → ((u : RunState) × (round setup s ≡ next u) × (rounds fuel setup u ≡ some (ended s')))
        ⊎ (round setup s ≡ stopped s')
  rounds_step fuel s s' p ps (next u) q e h = inl (u, e, unfold rounds in rw (q, e, rounds) at h)
  rounds_step fuel s s' p ps (stopped u) q e h = inr (unfold rounds in ground arith)
  rounds_step fuel s s' p ps (crashed x y) q e h = unfold rounds in ground arith

  rounds_ind_on :
      (fuel : ℕ) (s s' : RunState) (ids : List String)
      → s.pending ≡ ids
      → P s
      → rounds fuel setup s ≡ some (ended s')
      → P s'
  rounds_ind_on zero s s' [] q p h = unfold rounds in ground arith
  rounds_ind_on zero s s' (i ∷ ids) q p h = unfold rounds in ground arith
  rounds_ind_on (suc fuel) s s' [] q p h = unfold rounds in ground arith
  rounds_ind_on (suc fuel) s s' (i ∷ ids) q p h =
      elim (rounds_step fuel s s' i ids (round setup s) q refl h) [
        | inl (u, e, h') ↦
            rounds_ind_on fuel u s' u.pending refl (keep s u p (round-next setup s u e)) h'
        | inr e ↦ halt s s' p (round-stopped setup s s' e)
      ]

  pub rounds_ind : (fuel : ℕ) (s s' : RunState) → P s → rounds fuel setup s ≡ some (ended s') → P s'
  rounds_ind fuel s s' p h = rounds_ind_on fuel s s' s.pending refl p h
