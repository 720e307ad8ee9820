-- ===== src/Execution/Approvals/History.antt =====
-- backend/execution/approvals.py: what the gate answers, told from the history of its steps alone; and the
-- states that the gate reaches.
use agent_graph_studio.Prelude.{
  if◌then◌else◌, is_some, ◌==◌, string_eq, String, ◌≡◌, Bool, false, ◌&&◌, Option, none, some, [],
  ◌∷◌,
}
use agent_graph_studio.Prelude.{pair_eq, option_eq, bool_eq}
use agent_graph_studio.Prelude.Dict.{Dict, has}
use agent_graph_studio.Schema.Value.{Value}
use agent_graph_studio.Execution.Approvals.{
  Approvals, waits, request_approval, wake, resolve_approval, clear_remembered_for_run,
}
use agent_graph_studio.Prelude.{List}

-- A request that waits with its run and tool, an answer with the decision and whether to remember it, the
-- end of a wait, and the end of a run.
pub data GateEvent : Type 0 where
  asked : String → String → String → GateEvent
  decided : String → Bool → Bool → GateEvent
  woke : String → GateEvent
  cleared : String → GateEvent

-- The run and the tool that an id waits for, by the events, the last first.
abbrev pub asked_for : List GateEvent → String → Option (String × String)
asked_for [] i = none
asked_for (asked id run tool ∷ es) i = if id == i then some (run, tool) else asked_for es i
asked_for (decided id approved remember ∷ es) i = asked_for es i
asked_for (woke id ∷ es) i = if id == i then none else asked_for es i
asked_for (cleared run ∷ es) i = asked_for es i

-- The last decision on an id since it was asked for, while it waits.
abbrev pub last_decision : List GateEvent → String → Option Bool
last_decision [] i = none
last_decision (asked id run tool ∷ es) i = if id == i then none else last_decision es i
last_decision (decided id approved remember ∷ es) i =
    if id == i && is_some (asked_for es i) then some approved else last_decision es i
last_decision (woke id ∷ es) i = if id == i then none else last_decision es i
last_decision (cleared run ∷ es) i = last_decision es i

-- The last decision that was to be remembered for a tool in a run, unless the run has ended since.
abbrev pub last_remembered : List GateEvent → String → String → Option Bool
last_remembered [] run tool = none
last_remembered (asked id r t ∷ es) run tool = last_remembered es run tool
last_remembered (decided id approved remember ∷ es) run tool =
    if remember && asked_for es id == some (run, tool)
    then some approved
    else last_remembered es run tool
last_remembered (woke id ∷ es) run tool = last_remembered es run tool
last_remembered (cleared r ∷ es) run tool = if r == run then none else last_remembered es run tool

-- The states that the gate reaches from its start, in any interleaving of calls and answers, with the events.
pub data GateReach : List GateEvent → Approvals → Type 0 where
  start : GateReach [] (record { pending = []; remembered = [] })
  asks :
      {es : List GateEvent} {s t : Approvals} (id run tool : String) (arguments : Dict String Value)
      → has s.pending id ≡ false
      → request_approval s id run tool arguments ≡ waits t
      → GateReach es s
      → GateReach (asked id run tool ∷ es) t
  decides :
      {es : List GateEvent} {s : Approvals} (id : String) (approved remember : Bool)
      → GateReach es s
      → GateReach (decided id approved remember ∷ es) (resolve_approval s id approved remember).0
  wakes :
      {es : List GateEvent} {s t : Approvals} (id : String) (answer : Bool)
      → wake s id ≡ some (answer, t)
      → GateReach es s
      → GateReach (woke id ∷ es) t
  clears :
      {es : List GateEvent} {s : Approvals} (run : String)
      → GateReach es s
      → GateReach (cleared run ∷ es) (clear_remembered_for_run s run)
