-- ===== src/Execution/Engine/Scans.antt =====
-- What the scan of `pending` leaves: a rule for its loop, and how the lists hang together.
use agent_graph_studio.Prelude.{
  ==_iff, ==_refl, string_eq, length, contains, Distinct, contains-append, contains-remove_le,
  contains-remove_ne, Distinct-remove, Distinct-snoc, length-remove_le, map-append, ◌≤◌, String,
  ◌≡◌, refl, true, false, List, [], ◌∷◌, ◌++◌, map, arith,
}
use agent_graph_studio.Prelude.Dict.{Dict}
use agent_graph_studio.Schema.Value.{Value}
use agent_graph_studio.Execution.Engine.Gather.{
  Setup, RunState, Readiness, blocked, waiting, ready, Gathered, gathered, lookup_failed,
  gather_inputs,
}
use agent_graph_studio.Execution.Engine.Round.{Scan, place, scanned, scan, start_scan}

module _ (setup : Setup) (s : RunState) (P : List String → Scan → Type 0)
    (keep : (id : String) (ids : List String) (c : Scan) (r : Readiness)
      → P (id ∷ ids) c
      → gather_inputs setup s c.finished id ≡ gathered r
      → P ids (place c id r)) where
  scan_step :
      (id : String) (ids : List String) (c c' : Scan) (g : Gathered)
      → gather_inputs setup s c.finished id ≡ g
      → scan setup s c (id ∷ ids) ≡ scanned c'
      → (r : Readiness) × (gather_inputs setup s c.finished id ≡ gathered r)
        × (scan setup s (place c id r) ids ≡ scanned c')
  unfolding scan
  scan_step id ids c c' (gathered r) e h = (r, e, rw (e, scan) at h)
  scan_step id ids c c' (lookup_failed x) e h = ground arith

  -- A property of the ids left and the lists so far that every turn keeps holds at the end.
  pub scan_ind :
      (ids : List String) (c c' : Scan) → P ids c → scan setup s c ids ≡ scanned c' → P [] c'
  scan_ind [] c c' p h = unfold scan in ground arith
  scan_ind (id ∷ ids) c c' p h =
      let (r, e, h') = scan_step id ids c c' (gather_inputs setup s c.finished id) refl h in
      scan_ind ids (place c id r) c' (keep id ids c r p e) h'

abbrev pub ready_ids : List (String × Dict String Value) → List String
ready_ids ns = map (λ n. n.0) ns

pub record ScanShape (pending ids : List String) (c : Scan) : Type 0 where
  pub distinct : Distinct c.pending
  pub left_distinct : Distinct ids
  pub left_pending : (x : String) → contains ids x ≡ true → contains c.pending x ≡ true
  pub left_unready :
      (x : String) → contains ids x ≡ true → contains (ready_ids c.ready_nodes) x ≡ false
  pub ready_distinct : Distinct (ready_ids c.ready_nodes)
  pub ready_pending :
      (x : String) → contains (ready_ids c.ready_nodes) x ≡ true → contains c.pending x ≡ true
  pub shrinks : (x : String) → contains c.pending x ≡ true → contains pending x ≡ true
  pub shorter : length c.pending ≤ length pending

place-ScanShape :
    (pending : List String) (id : String) (ids : List String) (c : Scan) (r : Readiness)
    → ScanShape pending (id ∷ ids) c
    → ScanShape pending ids (place c id r)
unfolding place
place-ScanShape pending id ids c waiting v = record {
  distinct = v.distinct;
  left_distinct = v.left_distinct.1;
  left_pending = λ x h. v.left_pending x (ground arith);
  left_unready = λ x h. v.left_unready x (ground arith);
  ready_distinct = v.ready_distinct;
  ready_pending = v.ready_pending;
  shrinks = v.shrinks;
  shorter = v.shorter;
}
place-ScanShape pending id ids c blocked v = record {
  distinct = Distinct-remove c.pending id v.distinct;
  left_distinct = v.left_distinct.1;
  left_pending = λ x h.
      ground (
        arith,
        v.left_pending x,
        contains-remove_ne c.pending id x,
        ==_iff id x,
        v.left_distinct.0,
      );
  left_unready = λ x h. v.left_unready x (ground arith);
  ready_distinct = v.ready_distinct;
  ready_pending = λ x h. ground (
    arith,
    v.ready_pending x,
    contains-remove_ne c.pending id x,
    ==_iff id x,
    v.left_unready id,
    ==_refl id,
  );
  shrinks = λ x h. v.shrinks x (contains-remove_le c.pending id x h);
  shorter = omega (arith, v.shorter, length-remove_le c.pending id);
}
place-ScanShape pending id ids c (ready g) v =
    let more : ready_ids (c.ready_nodes ++ (id, g) ∷ []) ≡ ready_ids c.ready_nodes ++ id ∷ [] =
      map-append _ c.ready_nodes ((id, g) ∷ []) in
    record {
      distinct = v.distinct;
      left_distinct = v.left_distinct.1;
      left_pending = λ x h. v.left_pending x (ground arith);
      left_unready = λ x h.
          rw (more, contains-append)
            (ground (arith, v.left_unready x, v.left_distinct.0, ==_iff id x));
      ready_distinct =
          rw more
            (Distinct-snoc _ id v.ready_distinct (v.left_unready id (ground (arith, ==_refl id))));
      ready_pending = λ x h. ground (
        arith,
        contains-append (ready_ids c.ready_nodes) (id ∷ []) x,
        v.ready_pending x,
        ==_iff id x,
        v.left_pending id,
        ==_refl id,
        more,
      );
      shrinks = v.shrinks;
      shorter = v.shorter;
    }

pub scan-ScanShape :
    (setup : Setup) (s : RunState) (c : Scan)
    → Distinct s.pending
    → scan setup s (start_scan s) s.pending ≡ scanned c
    → ScanShape s.pending [] c
scan-ScanShape setup s c d h =
    scan_ind setup s (λ ids c. ScanShape s.pending ids c)
      (λ id ids c r v e. place-ScanShape s.pending id ids c r v) s.pending (start_scan s) c
      (record {
        distinct = d;
        left_distinct = d;
        left_pending = λ x p. p;
        left_unready = λ x p. refl;
        ready_distinct = tt;
        ready_pending = λ x p. cc;
        shrinks = λ x p. p;
        shorter = omega arith;
      })
      h
