-- ===== src/Execution/Approvals/Decided.antt =====
-- backend/execution/approvals.py: the answers of the gate are those that its history tells.
use agent_graph_studio.Prelude.{
  is_some, ◌==◌, ==_iff, string_eq, String, ◌≡◌, refl, Bool, true, false, Option, none, some, ◌∷◌,
  arith,
}
use agent_graph_studio.Prelude.{pair_eq, option_eq, bool_eq}
use agent_graph_studio.Prelude.Dict.{Dict, get, put, pop, get-put}
use agent_graph_studio.Schema.Value.{Value}
use agent_graph_studio.Execution.Approvals.{
  PendingApproval, Approvals, waits, request_with, request_approval, truth, wake_on, wake,
  resolve_on, resolve_approval, clear_remembered_for_run,
}
use agent_graph_studio.Prelude.{List, subst, inl, inr, Bool-cases}
use agent_graph_studio.Execution.Approvals.Gate.{remembers, resolve_on-remembers}
use agent_graph_studio.Prelude.{◌∙◌}
use agent_graph_studio.Prelude.Dict.{get-pop}
use agent_graph_studio.Execution.Approvals.{ApprovalOutcome, answered}
use agent_graph_studio.Execution.Approvals.Gate.{clear_remembered_for_run-remembers}
use agent_graph_studio.Execution.Approvals.History.{
  GateEvent, asked, decided, woke, cleared, asked_for, last_decision, last_remembered, GateReach,
  start, asks, decides, wakes, clears,
}

-- What an entry says of its request and of its decision; its event is set when it is decided.
abbrev seen : Option PendingApproval → Option (String × String) × Option Bool × Bool
seen none = (none, none, false)
seen (some p) = (some (p.run_id, p.tool_name), p.decision, p.event_set)

-- The state is told by the events.
record IsTold (es : List GateEvent) (s : Approvals) : Type 0 where
  entries :
      (i : String)
      → seen (get s.pending i) ≡ (asked_for es i, last_decision es i, is_some (last_decision es i))
  memory : (run tool : String) → remembers s run tool ≡ last_remembered es run tool

request_with-waits :
    (s t : Approvals) (id run tool : String) (arguments : Dict String Value) (o : Option Bool)
    → request_with s id run tool arguments o ≡ waits t
    → t.pending
      ≡ put s.pending id (record {
        approval_id = id;
        run_id = run;
        tool_name = tool;
        arguments = arguments;
        event_set = false;
        decision = none;
      })
unfolding request_with
request_with-waits s t id run tool arguments none h = ground arith
request_with-waits s t id run tool arguments (some b) h = cc

request_with-remembered :
    (s t : Approvals) (id run tool : String) (arguments : Dict String Value) (o : Option Bool)
    → request_with s id run tool arguments o ≡ waits t
    → t.remembered ≡ s.remembered
unfolding request_with
request_with-remembered s t id run tool arguments none h = ground arith
request_with-remembered s t id run tool arguments (some b) h = cc

wake_on-some :
    (s t : Approvals) (id : String) (answer : Bool) (o : Option PendingApproval)
    → wake_on s id o ≡ some (answer, t)
    → (p : PendingApproval) × (o ≡ some p)
      × (p.event_set ≡ true)
      × (truth p.decision ≡ answer)
      × (t.pending ≡ pop s.pending id)
      × (t.remembered ≡ s.remembered)
unfolding wake_on
wake_on-some s t id answer none h = cc
wake_on-some s t id answer (some p) h =
    (p, refl, ground arith, ground arith, ground arith, ground arith)

module _ (es : List GateEvent) (s : Approvals) (told : IsTold es s) where
  asks-IsTold :
      (t : Approvals) (id run tool : String) (arguments : Dict String Value)
      → request_approval s id run tool arguments ≡ waits t
      → IsTold (asked id run tool ∷ es) t
  unfolding request_approval
  asks-IsTold t id run tool arguments h =
      let entry : PendingApproval = record {
        approval_id = id;
        run_id = run;
        tool_name = tool;
        arguments = arguments;
        event_set = false;
        decision = none;
      } in
      record {
        entries = λ i. elim (Bool-cases (id == i)) [
          | inl e ↦
              rw (request_with-waits s t id run tool arguments _ h, get-put s.pending id i entry, e)
                refl
          | inr e ↦
              rw (request_with-waits s t id run tool arguments _ h, get-put s.pending id i entry, e)
                (told.entries i)
        ];
        memory =
            λ r u. rw (request_with-remembered s t id run tool arguments _ h) (told.memory r u);
      }

  decides-IsTold :
      (id : String) (approved remember : Bool) (o : Option PendingApproval)
      → get s.pending id ≡ o
      → IsTold (decided id approved remember ∷ es) (resolve_on s id approved remember o).0
  unfolding resolve_on
  decides-IsTold id approved remember none g =
      let unasked : asked_for es id ≡ none = ground (arith, told.entries id) in
      record {
        entries = λ i. elim (Bool-cases (id == i)) [
          | inl e ↦
              let na : asked_for es i ≡ none =
                subst (λ (x : String). asked_for es x ≡ none) ((==_iff id i).0 e) unasked in
              let k = told.entries i in rw (e, na) (rw na at k)
          | inr e ↦ rw e (told.entries i)
        ];
        memory = λ r u. rw unasked (elim (Bool-cases remember) [
          | inl e ↦ rw e (told.memory r u)
          | inr e ↦ rw e (told.memory r u)
        ]);
      }
  decides-IsTold id approved remember (some p) g =
      let asked_p : asked_for es id ≡ some (p.run_id, p.tool_name) =
        ground (arith, told.entries id) in
      let entry : PendingApproval = record p { event_set = true; decision = some approved } in
      record {
        entries = λ i. elim (Bool-cases (id == i)) [
          | inl e ↦ ground (arith, get-put s.pending id i entry, asked_p, ==_iff id i)
          | inr e ↦ rw (get-put s.pending id i entry, e) (told.entries i)
        ];
        memory = λ r u. ground (
          arith,
          resolve_on-remembers s id approved remember p r u,
          told.memory r u,
          asked_p,
          ==_iff p.run_id r,
          ==_iff p.tool_name u,
        );
      }

  wakes-IsTold :
      (t : Approvals) (id : String) (answer : Bool)
      → wake s id ≡ some (answer, t)
      → IsTold (woke id ∷ es) t
  unfolding wake
  wakes-IsTold t id answer h =
      let (p, e, set, said, rest, same) = wake_on-some s t id answer (get s.pending id) h in
      record {
        entries = λ i. elim (Bool-cases (id == i)) [
          | inl e ↦ rw (rest, get-pop s.pending id i, e) refl
          | inr e ↦ rw (rest, get-pop s.pending id i, e) (told.entries i)
        ];
        memory = λ r u. rw same (told.memory r u);
      }

  clears-IsTold : (run : String) → IsTold (cleared run ∷ es) (clear_remembered_for_run s run)
  unfolding clear_remembered_for_run
  clears-IsTold run = record {
    entries = told.entries;
    memory = λ r u. elim (Bool-cases (run == r)) [
      | inl e ↦ clear_remembered_for_run-remembers s run r u ∙ rw e refl
      | inr e ↦ clear_remembered_for_run-remembers s run r u ∙ rw e (told.memory r u)
    ];
  }

GateReach-IsTold : {es : List GateEvent} {s : Approvals} → GateReach es s → IsTold es s
unfolding get resolve_approval
GateReach-IsTold start = record { entries = λ i. refl; memory = λ r u. refl }
GateReach-IsTold (asks {es} {s} {t} id run tool arguments new h r) =
    asks-IsTold es s (GateReach-IsTold r) t id run tool arguments h
GateReach-IsTold (decides {es} {s} id approved remember r) =
    decides-IsTold es s (GateReach-IsTold r) id approved remember (get s.pending id) refl
GateReach-IsTold (wakes {es} {s} {t} id answer h r) =
    wakes-IsTold es s (GateReach-IsTold r) t id answer h
GateReach-IsTold (clears {es} {s} run r) = clears-IsTold es s (GateReach-IsTold r) run

-- What a waiting call returns, if it goes on.
abbrev pub returns : Option (Bool × Approvals) → Option Bool
returns none = none
returns (some (answer, s)) = some answer

-- What a request returns, if it does not wait.
abbrev pub at_once : ApprovalOutcome → Option Bool
at_once (answered b) = some b
at_once (waits s) = none

returns-wake_on :
    (s : Approvals) (id : String) (o : Option PendingApproval) (wanted : Option (String × String))
    (last : Option Bool)
    → seen o ≡ (wanted, last, is_some last)
    → returns (wake_on s id o) ≡ last
unfolding wake_on
returns-wake_on s id none wanted last h = ground arith
returns-wake_on s id (some p) wanted none h = ground arith
returns-wake_on s id (some p) wanted (some b) h = ground arith

at_once-request_with :
    (s : Approvals) (id run tool : String) (arguments : Dict String Value) (o : Option Bool)
    → at_once (request_with s id run tool arguments o) ≡ o
unfolding request_with
at_once-request_with s id run tool arguments none = refl
at_once-request_with s id run tool arguments (some b) = refl

-- In every interleaving of requests, answers, wakes and run ends, a call goes on exactly if it waits and was
-- answered, with the last answer that was given to it; and a request returns without waiting exactly if
-- an answer was to be remembered for its run and tool and the run has not ended since, with the last such
-- answer.
pub wake-decided :
    (es : List GateEvent) (s : Approvals) (id new run tool : String) (arguments : Dict String Value)
    → GateReach es s
    → (returns (wake s id) ≡ last_decision es id)
      × (at_once (request_approval s new run tool arguments) ≡ last_remembered es run tool)
unfolding wake request_approval
wake-decided es s id new run tool arguments r =
    let told = GateReach-IsTold r in
    (
      returns-wake_on s id (get s.pending id) (asked_for es id) (last_decision es id)
          (told.entries id),
      at_once-request_with s new run tool arguments (remembers s run tool) ∙ told.memory run tool,
    )
