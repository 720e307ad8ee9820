-- ===== src/Api/Activation/Change.antt =====
-- backend/api/app.py, `activate_graph` and `deactivate_graph`.
use agent_graph_studio.Prelude.{
  if◌then◌else◌, is_some, string_eq, String, inl, inr, Bool, true, false, Option, none, some, List,
  [], ◌∷◌, ◌++◌, nat_eq, pair_eq, option_eq,
}
use agent_graph_studio.Schema.Models.{GraphSpec}
use agent_graph_studio.Connections.Store.{ConnectionProfile}
use agent_graph_studio.Validation.Issue.{ValidationIssue}
use agent_graph_studio.Validation.Validator.{validate_graph}
use agent_graph_studio.Storage.Graphs.{set_active_state, set_is_active}
use agent_graph_studio.Triggers.Registry.{
  Triggers, TriggerRecord, TriggerError, invalid_cron, conflicting_job, ActiveGraph, set_active,
  get_active,
}
use agent_graph_studio.Api.Activation.State.{
  SyncCall, Backend, invalid_graph, bad_schedule, Activation, activated, refused, crashed, Failure,
  http_exception, uncaught, Services, deactivate,
}
use agent_graph_studio.Api.Activation.Register.{Registered, register_triggers}
use agent_graph_studio.Api.Activation.Sync.{sync_webhooks_on_activate, sync_webhooks_on_deactivate}

module _ {Client : Type 0} (v : Services Client) (store : List ConnectionProfile) where
  abbrev pub trigger_failure : TriggerError → Failure
  trigger_failure (invalid_cron id) = http_exception (bad_schedule id)
  trigger_failure (conflicting_job id) = uncaught

  -- The end of the `try` statement of `activate_graph`, in the state that the failure left.
  abbrev pub rolled_back : Backend → String → Failure → Backend × Activation
  rolled_back w graph_id (http_exception e) =
      (record w { triggers = deactivate w.triggers graph_id }, refused e)
  rolled_back w graph_id uncaught = (w, crashed)

  -- `fails` is an error of the store's write, which the store logs.
  abbrev pub set_activated :
      Backend
      → String
      → GraphSpec
      → String
      → Bool
      → String
      → Option String
      → List TriggerRecord
      → Backend × Activation
  set_activated w graph_id g spec_json fails now user_id triggers = (
    record w {
      triggers = set_active w.triggers graph_id g triggers user_id;
      graphs = set_active_state fails w.graphs graph_id spec_json true now;
    },
    activated triggers,
  )

  unfoldable pub after_sync :
      Backend
      → String
      → GraphSpec
      → String
      → Bool
      → String
      → Option String
      → List TriggerRecord
      → Option Failure
      → Backend × Activation
  after_sync w graph_id g spec_json fails now user_id triggers none =
      set_activated w graph_id g spec_json fails now user_id triggers
  after_sync w graph_id g spec_json fails now user_id triggers (some e) = rolled_back w graph_id e

  unfoldable pub after_register :
      Backend
      → String
      → GraphSpec
      → String
      → Bool
      → String
      → Option String
      → Registered
      → Backend × Activation
  unfolding after_sync
  after_register w graph_id g spec_json fails now user_id (s, inr e) =
      rolled_back (record w { triggers = s }) graph_id (trigger_failure e)
  after_register w graph_id g spec_json fails now user_id (s, inl triggers) =
      let synced = sync_webhooks_on_activate v store g triggers user_id in
      after_sync (record w { triggers = s; calls = w.calls ++ synced.0 }) graph_id g spec_json fails
        now user_id triggers synced.1

  -- `if get_active(graph_id) is not None: _deactivate(graph_id)`
  unfoldable pub replaced : Triggers → String → Triggers
  replaced s graph_id = if is_some (get_active s graph_id) then deactivate s graph_id else s

  unfoldable pub after_validation :
      Backend
      → String
      → GraphSpec
      → String
      → Bool
      → String
      → Option String
      → List ValidationIssue
      → Backend × Activation
  unfolding after_register replaced
  after_validation w graph_id g spec_json fails now user_id (i ∷ issues) =
      (w, refused (invalid_graph (i ∷ issues)))
  after_validation w graph_id g spec_json fails now user_id [] =
      after_register w graph_id g spec_json fails now user_id
        (register_triggers v store (replaced w.triggers graph_id) graph_id g.nodes)

  -- `spec_json` is `graph.model_dump_json()`.
  unfoldable pub activate_graph :
      Backend → String → GraphSpec → String → Bool → String → Option String → Backend × Activation
  unfolding after_validation
  activate_graph w graph_id g spec_json fails now user_id =
      after_validation w graph_id g spec_json fails now user_id
        (validate_graph g v.registry store user_id none)

  abbrev pub deactivated :
      Backend → String → Bool → String → Option (List SyncCall) → Backend × Bool
  deactivated w graph_id fails now none = (w, false)
  deactivated w graph_id fails now (some calls) = (
    record w {
      triggers = deactivate w.triggers graph_id;
      graphs = set_is_active fails w.graphs graph_id false now;
      calls = w.calls ++ calls;
    },
    true,
  )

  unfoldable pub deactivate_found :
      Backend → String → Bool → String → Option String → Option ActiveGraph → Backend × Bool
  deactivate_found w graph_id fails now user_id none = (w, false)
  deactivate_found w graph_id fails now user_id (some a) =
      deactivated w graph_id fails now (sync_webhooks_on_deactivate v store a.graph user_id)

  -- False is the 404, or an error of the resolver.
  unfoldable pub deactivate_graph :
      Backend → String → Bool → String → Option String → Backend × Bool
  unfolding deactivate_found
  deactivate_graph w graph_id fails now user_id =
      deactivate_found w graph_id fails now user_id (get_active w.triggers graph_id)
