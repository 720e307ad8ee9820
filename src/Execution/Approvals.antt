-- ===== src/Execution/Approvals.antt =====
-- backend/execution/approvals.py: the approval gate as a state machine. A request blocks its thread
-- until its answer, so a call is two steps: `request_approval` up to `event.wait()`, and
-- `wake`, from the set event to the return. Ids (`uuid4`) are given.
pub mod Gate
pub mod History
pub mod Decided
use agent_graph_studio.Prelude.{
  if◌then◌else◌, ◌==◌, string_eq, filter_list, String, Bool, true, false, Option, none, some, List,
  [], ◌∷◌,
}
use agent_graph_studio.Prelude.{pair_eq}
use agent_graph_studio.Prelude.Dict.{Dict, get, put, pop, values}
use agent_graph_studio.Schema.Value.{Value}

pub record PendingApproval : Type 0 where
  pub approval_id : String
  pub run_id : String
  pub tool_name : String
  pub arguments : Dict String Value
  pub event_set : Bool
  pub decision : Option Bool

-- `_pending` and `_remembered`
pub record Approvals : Type 0 where
  pub pending : Dict String PendingApproval
  pub remembered : Dict (String × String) Bool

-- Either the remembered decision is returned at once, or the call waits.
pub data ApprovalOutcome : Type 0 where
  answered : Bool → ApprovalOutcome
  waits : Approvals → ApprovalOutcome

request_with :
    Approvals → String → String → String → Dict String Value → Option Bool → ApprovalOutcome
request_with s approval_id run_id tool_name arguments (some decision) = answered decision
request_with s approval_id run_id tool_name arguments none = waits (record s {
  pending = put s.pending approval_id (record {
    approval_id = approval_id;
    run_id = run_id;
    tool_name = tool_name;
    arguments = arguments;
    event_set = false;
    decision = none;
  });
})

unfoldable pub request_approval :
    Approvals → String → String → String → Dict String Value → ApprovalOutcome
unfolding request_with
request_approval s approval_id run_id tool_name arguments =
    request_with s approval_id run_id tool_name arguments (get s.remembered (run_id, tool_name))

-- `bool(pending.decision)`
abbrev truth : Option Bool → Bool
truth none = false
truth (some b) = b

-- The waiting call goes on when its event is set: its answer, and the state without its entry.
-- `none` while it waits.
wake_on : Approvals → String → Option PendingApproval → Option (Bool × Approvals)
wake_on s approval_id none = none
wake_on s approval_id (some p) =
    if p.event_set
    then some (truth p.decision, record s { pending = pop s.pending approval_id })
    else none

unfoldable pub wake : Approvals → String → Option (Bool × Approvals)
unfolding wake_on
wake s approval_id = wake_on s approval_id (get s.pending approval_id)

pub list_pending_for_run : Approvals → String → List PendingApproval
list_pending_for_run s run_id =
    filter_list (λ (p : PendingApproval). p.run_id == run_id) (values s.pending)

pub resolve_on : Approvals → String → Bool → Bool → Option PendingApproval → Approvals × Bool
resolve_on s approval_id approved remember none = (s, false)
resolve_on s approval_id approved remember (some p) = (
  record {
    pending = put s.pending approval_id (record p { event_set = true; decision = some approved });
    remembered =
        if remember then put s.remembered (p.run_id, p.tool_name) approved else s.remembered;
  },
  true,
)

unfoldable pub resolve_approval : Approvals → String → Bool → Bool → Approvals × Bool
unfolding resolve_on
resolve_approval s approval_id approved remember =
    resolve_on s approval_id approved remember (get s.pending approval_id)

-- `_remembered.pop(key)` for every key of the run
forget : Dict (String × String) Bool → String → Dict (String × String) Bool
forget [] run_id = []
forget (((run, tool), b) ∷ d) run_id =
    if run == run_id then forget d run_id else ((run, tool), b) ∷ forget d run_id

pub clear_remembered_for_run : Approvals → String → Approvals
unfolding forget
clear_remembered_for_run s run_id = record s { remembered = forget s.remembered run_id }
