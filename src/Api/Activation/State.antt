-- ===== src/Api/Activation/State.antt =====
-- backend/api/app.py: what an activation changes, how it ends, and the services that it calls; and
-- `_deactivate`. Calls of the handlers of external webhooks are recorded in their order.
use agent_graph_studio.Prelude.{string_eq, String, Bool, Option, List, nat_eq, pair_eq, option_eq}
use agent_graph_studio.Prelude.Dict.{Dict}
use agent_graph_studio.Schema.Value.{Value}
use agent_graph_studio.Schema.Models.{NodeSpec}
use agent_graph_studio.Registry.{NodeRegistry}
use agent_graph_studio.Connections.Resolver.{ConnectionType}
use agent_graph_studio.Validation.Issue.{ValidationIssue}
use agent_graph_studio.Storage.Graphs.{GraphRow}
use agent_graph_studio.Triggers.Registry.{
  Triggers, TriggerRecord, clear_active, remove_jobs_for_graph, remove_routes,
}

-- A call of a handler: the webhook node, the adapter, and the url.
pub data SyncCall : Type 0 where
  on_activate : String → String → String → SyncCall
  on_deactivate : String → String → SyncCall

pub record Backend : Type 0 where
  pub triggers : Triggers
  pub graphs : List GraphRow
  pub calls : List SyncCall

-- The HTTPExceptions of an activation, and what else can be raised in it.
pub data ActivationError : Type 0 where
  invalid_graph : List ValidationIssue → ActivationError
  bad_schedule : String → ActivationError
  no_public_base_url : ActivationError
  no_connection : String → ActivationError
  sync_failed : String → ActivationError

pub data Activation : Type 0 where
  activated : List TriggerRecord → Activation
  refused : ActivationError → Activation
  crashed : Activation

-- The failures after which `activate_graph` rolls back, and those that pass it by.
pub data Failure : Type 0 where
  http_exception : ActivationError → Failure
  uncaught : Failure

-- What the process is configured with, and the services that it calls.
pub record Services (Client : Type 0) : Type 0 where
  pub registry : NodeRegistry
  pub connection_types : Dict String (ConnectionType Client)
  pub api_key : String
  pub public_base_url : Option String
  -- the schedule of `node.config.get("cron", "")`, if APScheduler takes it
  pub crontab : Option Value → Option String
  pub is_handled : String → Bool
  -- whether the handler's call on activation succeeds
  pub activates : NodeSpec → NodeSpec → String → Bool

unfoldable pub deactivate : Triggers → String → Triggers
deactivate s graph_id =
    clear_active (remove_routes (remove_jobs_for_graph s graph_id) graph_id) graph_id
