-- ===== src/Examples/Triggers.antt =====
-- Activated graphs: a process with one schedule and one webhook.
use agent_graph_studio.Prelude.{
  ◌==◌, string_eq, any, String, ◌≡◌, refl, true, false, Option, none, some, List, [], ◌∷◌, nat_eq,
  pair_eq, option_eq,
}
use agent_graph_studio.Prelude.Dict.{get, put}
use agent_graph_studio.Schema.Models.{GraphSpec}
use agent_graph_studio.Schema.Models.{index_nodes}
use agent_graph_studio.Schema.Topo.{kahn_order}
use agent_graph_studio.Registry.{NodeRegistry, get_type, effective_inputs}
use agent_graph_studio.Connections.Resolver.{connection_reference_names}
use agent_graph_studio.Validation.Slots.{
  check_structural, check_unregistered_types, check_required_inputs, sub_node_referenced_ids,
  check_config_schema,
}
use agent_graph_studio.Validation.Flow.{check_type_mismatches, check_cycles}
use agent_graph_studio.Validation.Names.{check_missing_connections}
use agent_graph_studio.Validation.SubNodes.{check_sub_node_edges}
use agent_graph_studio.Triggers.Sync.{adapter_pairs_for_graph}
use agent_graph_studio.Validation.Validator.{validate_graph}
use agent_graph_studio.Storage.Graphs.{GraphRow, list_active_graphs}
use agent_graph_studio.Triggers.Registry.{
  Hook, Triggers, ActiveGraph, TriggerRecord, no_triggers, remove_jobs_for_graph, remove_routes,
  get_active, set_active, add_schedule_job, add_route,
}
use agent_graph_studio.Api.Activation.State.{Services, Backend, activated}
use agent_graph_studio.Api.Activation.Register.{register_triggers}
use agent_graph_studio.Api.Activation.Sync.{sync_webhooks_on_activate}
use agent_graph_studio.Api.Activation.Change.{activate_graph, deactivate_graph}
use agent_graph_studio.Api.Activation.Hooks.{IsWired}
use agent_graph_studio.Api.Activation.Wired.{activate_graph-IsWired}
use agent_graph_studio.Api.Activation.Removal.{
  remove_jobs_for_graph-only, remove_jobs_for_graph-extended,
}
use agent_graph_studio.Api.Activation.Outcome.{Left, activate_graph-Left}
use agent_graph_studio.Api.Activation.Vouched.{
  Any, IsVouched, reactivate_persisted_graphs-IsVouched,
}
use agent_graph_studio.Api.Activation.Startup.{reactivate_persisted_graphs, fire}
use agent_graph_studio.Api.Activation.Firing.{IsFired, fire-activate_graph}
use agent_graph_studio.Api.Activation.Elsewhere.{here, deactivates}
use agent_graph_studio.Examples.Graphs.{graph, node, plain_definition, is_silent}

abbrev registry : NodeRegistry
registry =
    ("schedule_trigger", plain_definition "schedule_trigger" [] [] is_silent)
    ∷ ("webhook_trigger", plain_definition "webhook_trigger" [] [] is_silent)
    ∷ []

abbrev triggered : GraphSpec
triggered = graph (node "s" "schedule_trigger" ∷ node "w" "webhook_trigger" ∷ []) []

services : Services String
services = record {
  registry = registry;
  connection_types = [];
  api_key = "key";
  public_base_url = none;
  crontab = λ c. some "* * * * *";
  is_handled = λ t. false;
  activates = λ w a u. true;
}

abbrev fresh : Backend
fresh = record { triggers = no_triggers; graphs = []; calls = [] }

abbrev trigger_records : List TriggerRecord
trigger_records =
    record { node_id = "s"; type = "schedule_trigger"; endpoint_or_schedule = "* * * * *" }
    ∷ record {
      node_id = "w";
      type = "webhook_trigger";
      endpoint_or_schedule = "/webhooks/g/w?key=key";
    }
    ∷ []

triggered_valid : validate_graph triggered registry [] (some "u") none ≡ []
unfolding validate_graph check_structural check_unregistered_types get_type get
    check_required_inputs sub_node_referenced_ids effective_inputs check_type_mismatches
    check_cycles kahn_order put check_config_schema check_missing_connections
    connection_reference_names check_sub_node_edges
triggered_valid = refl

g_activated :
    (activate_graph services [] fresh "g" triggered "{}" false "now" (some "u")).1
    ≡ activated trigger_records
unfolding activate_graph services get_active sync_webhooks_on_activate adapter_pairs_for_graph
    index_nodes get put add_schedule_job add_route register_triggers
g_activated = rw triggered_valid refl

fresh-IsWired : IsWired no_triggers
fresh-IsWired = record { hooked_jobs = tt; hooked_routes = tt }

activate_graph-IsWired_example :
    IsWired (activate_graph services [] fresh "g" triggered "{}" false "now" (some "u")).0.triggers
    × IsWired (deactivate_graph services [] fresh "g" false "now" (some "u")).0.triggers
activate_graph-IsWired_example =
    activate_graph-IsWired services [] "g" triggered "{}" false "now" (some "u") fresh fresh-IsWired
      (λ h. cc (g_activated, h))

activate_graph-Left_example :
    Left services [] "g" triggered "{}" false "now"
      (some "u")
      fresh
      (activate_graph services [] fresh "g" triggered "{}" false "now" (some "u")).0
      (activate_graph services [] fresh "g" triggered "{}" false "now" (some "u")).1
activate_graph-Left_example =
    activate_graph-Left services [] "g" triggered "{}" false "now" (some "u") fresh

abbrev after_g : Backend
after_g = (activate_graph services [] fresh "g" triggered "{}" false "now" (some "u")).0

-- Another graph is deactivated before the trigger fires.
fire-activate_graph_example : IsFired services [] triggered (some "u") none (
    fire services []
      (deactivate_graph services [] after_g "h" false "later" none).0.triggers
      "g"
      none)
fire-activate_graph_example =
    fire-activate_graph services [] fresh "g" triggered "{}" false "now" (some "u") trigger_records
      none (deactivate_graph services [] after_g "h" false "later" none).0 g_activated
      (deactivates "h" false "later" none refl here)

-- Two graphs with a job and a route each.
abbrev two_graphs : Triggers
two_graphs = record {
  jobs =
      record { name = "g:s"; graph_id = "g"; node_id = "s" }
      ∷ record { name = "h:s"; graph_id = "h"; node_id = "s" }
      ∷ [];
  routes = record { name = "/webhooks/h/w"; graph_id = "h"; node_id = "w" } ∷ [];
  active = [];
}

remove_jobs_for_graph-only_example :
    remove_routes (remove_jobs_for_graph two_graphs "g") "g"
    ≡ record two_graphs { jobs = record { name = "h:s"; graph_id = "h"; node_id = "s" } ∷ [] }
remove_jobs_for_graph-only_example =
    remove_jobs_for_graph-only two_graphs "g" refl refl ((refl, refl), ((refl, refl), tt))
      ((refl, refl), tt)

-- The second graph's id goes on after the first with a colon.
abbrev extended : Triggers
extended = record {
  jobs = record { name = "g:h:s"; graph_id = "g:h"; node_id = "s" } ∷ [];
  routes = [];
  active = [];
}

remove_jobs_for_graph-extended_example :
    any (λ (h : Hook). h.graph_id == "g:h") (remove_jobs_for_graph extended "g").jobs ≡ false
remove_jobs_for_graph-extended_example = remove_jobs_for_graph-extended extended "g" "h" (refl, tt)

abbrev stored : List GraphRow
stored =
    record {
      graph_id = "g";
      name = "G";
      spec_json = "{}";
      is_active = true;
      created_at = "1";
      updated_at = "1";
      created_by = some "u";
      sharing = "private";
    }
    ∷ []

abbrev parse : String → Option GraphSpec
parse json = some triggered

abbrev restarted : ActiveGraph
restarted = record {
  graph_id = "g";
  graph = triggered;
  triggers = trigger_records;
  created_by = some "u";
}

g_restarted :
    get (reactivate_persisted_graphs services [] parse no_triggers stored).active "g"
    ≡ some restarted
unfolding reactivate_persisted_graphs list_active_graphs services get put add_schedule_job add_route
    register_triggers set_active
g_restarted = rw triggered_valid refl

reactivate_persisted_graphs-IsVouched_example :
    Any (IsVouched services [] parse "g" restarted) (list_active_graphs stored)
reactivate_persisted_graphs-IsVouched_example =
    reactivate_persisted_graphs-IsVouched services [] parse "g" restarted stored g_restarted
