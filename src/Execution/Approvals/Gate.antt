-- ===== src/Execution/Approvals/Gate.antt =====
-- backend/execution/approvals.py: what a call answers, and what is remembered.
use agent_graph_studio.Prelude.{
  if◌then◌else◌, is_some, ◌==◌, ==_iff, ==_refl, string_eq, String, ◌≡◌, refl, Bool, true, false,
  ◌&&◌, Option, none, some, [], ◌∷◌, arith,
}
use agent_graph_studio.Prelude.{pair_eq, option_eq, bool_eq}
use agent_graph_studio.Prelude.Dict.{Dict, get, put, pop, has, get-put, get-pop, get-put_self}
use agent_graph_studio.Execution.Approvals.{
  PendingApproval, Approvals, wake, resolve_on, resolve_approval, forget, clear_remembered_for_run,
}

get-forget :
    (d : Dict (String × String) Bool) (run_id run tool : String)
    → get (forget d run_id) (run, tool) ≡ (if run_id == run then none else get d (run, tool))
unfolding forget get
get-forget [] run_id run tool = ground arith
get-forget (((r, t), b) ∷ d) run_id run tool =
    ground (arith, get-forget d run_id run tool, ==_iff r run_id, ==_iff r run, ==_iff run_id run)

-- What a request for `(run, tool)` answers without asking.
abbrev pub remembers : Approvals → String → String → Option Bool
remembers s run tool = get s.remembered (run, tool)

-- A request that is known to be answered: it waits, and its entry is answered with `approved`.
resolve-wake_on :
    (s : Approvals) (id : String) (approved remember : Bool) (o : Option PendingApproval)
    → get s.pending id ≡ o
    → is_some o ≡ true
    → (b : Approvals) × (wake (resolve_on s id approved remember o).0 id ≡ some (approved, b))
      × (has b.pending id ≡ false)
unfolding wake resolve_on
resolve-wake_on s id approved remember none q h = absurd (ground arith)
resolve-wake_on s id approved remember (some p) q h =
    let d = put s.pending id (record p { event_set = true; decision = some approved }) in
    (
      record {
        pending = pop d id;
        remembered =
            if remember then put s.remembered (p.run_id, p.tool_name) approved else s.remembered;
      },
      rw (get-put_self s.pending id (record p { event_set = true; decision = some approved })),
      ground (arith, get-pop d id id, ==_refl id),
    )

-- Resolving a pending approval answers the waiting call with that decision and removes its entry.
pub resolve_approval-wake :
    (s : Approvals) (id : String) (approved remember : Bool)
    → has s.pending id ≡ true
    → (b : Approvals) × (wake (resolve_approval s id approved remember).0 id ≡ some (approved, b))
      × (has b.pending id ≡ false)
unfolding resolve_approval
resolve_approval-wake s id approved remember h =
    resolve-wake_on s id approved remember (get s.pending id) refl h

-- An unknown approval is reported, and changes nothing.
pub resolve_approval-unknown :
    (s : Approvals) (id : String) (approved remember : Bool)
    → has s.pending id ≡ false
    → resolve_approval s id approved remember ≡ (s, false)
unfolding resolve_approval resolve_on
resolve_approval-unknown s id approved remember h = ground arith

pub resolve_on-remembers :
    (s : Approvals) (id : String) (approved remember : Bool) (p : PendingApproval)
    (run tool : String)
    → remembers (resolve_on s id approved remember (some p)).0 run tool ≡ (
        if remember && (p.run_id == run && p.tool_name == tool)
        then some approved
        else remembers s run tool)
unfolding resolve_on
resolve_on-remembers s id approved remember p run tool =
    ground (arith, get-put s.remembered (p.run_id, p.tool_name) (run, tool) approved)

-- With "remember", a decision answers exactly the later requests of the same run and tool at once;
-- without it, nothing is remembered.
pub resolve_approval-remembers :
    (s : Approvals) (id : String) (approved remember : Bool) (p : PendingApproval)
    (run tool : String)
    → get s.pending id ≡ some p
    → remembers (resolve_approval s id approved remember).0 run tool ≡ (
        if remember && (p.run_id == run && p.tool_name == tool)
        then some approved
        else remembers s run tool)
unfolding resolve_approval
resolve_approval-remembers s id approved remember p run tool h =
    rw h (resolve_on-remembers s id approved remember p run tool)

-- Once a run is over none of its decisions is remembered, and those of the other runs stay.
pub clear_remembered_for_run-remembers :
    (s : Approvals) (run_id run tool : String)
    → remembers (clear_remembered_for_run s run_id) run tool
      ≡ (if run_id == run then none else remembers s run tool)
unfolding clear_remembered_for_run
clear_remembered_for_run-remembers s run_id run tool = get-forget s.remembered run_id run tool
