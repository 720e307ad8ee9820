-- ===== src/Api/Activation/Register.antt =====
-- backend/api/app.py, `_register_triggers`: the jobs and routes of a graph, node by node.
use Prim.Native.String.{◌++◌ as str_append}
use agent_graph_studio.Prelude.{
  if◌then◌else◌, ◌==◌, string_eq, String, ◌⊎◌, inl, inr, Option, none, some, List, [], ◌∷◌, ◌++◌,
  nat_eq, pair_eq, option_eq,
}
use agent_graph_studio.Prelude.Dict.{get}
use agent_graph_studio.Schema.Models.{NodeSpec}
use agent_graph_studio.Connections.Store.{ConnectionProfile}
use agent_graph_studio.Triggers.Registry.{
  Triggers, TriggerRecord, TriggerError, add_schedule_job, add_route, webhook_path,
}
use agent_graph_studio.Api.Activation.State.{Services}

abbrev pub Registered : Type 0
Registered = Triggers × (List TriggerRecord ⊎ TriggerError)

abbrev pub and_then : List TriggerRecord → Registered → Registered
and_then ts (s, inl us) = (s, inl (ts ++ us))
and_then ts (s, inr e) = (s, inr e)

abbrev pub then_rest : Registered → (Triggers → Registered) → Registered
then_rest (s, inl ts) rest = and_then ts (rest s)
then_rest (s, inr e) rest = (s, inr e)

module _ {Client : Type 0} (v : Services Client) (store : List ConnectionProfile) where
  unfoldable pub scheduled :
      Triggers → NodeSpec → Option String → Triggers ⊎ TriggerError → Registered
  scheduled s node cron (inr e) = (s, inr e)
  scheduled s node none (inl s') = (s', inl [])
  scheduled s node (some cron) (inl s') = (
    s',
    inl (
        (record { node_id = node.id; type = "schedule_trigger"; endpoint_or_schedule = cron })
        ∷ []),
  )

  abbrev pub webhook_record : String → NodeSpec → TriggerRecord
  webhook_record graph_id node = record {
    node_id = node.id;
    type = "webhook_trigger";
    endpoint_or_schedule =
        str_append (webhook_path graph_id node.id) (str_append "?key=" v.api_key);
  }

  -- One round of the loop of `_register_triggers`.
  unfoldable pub register_node : Triggers → String → NodeSpec → Registered
  unfolding scheduled
  register_node s graph_id node =
      let cron = v.crontab (get node.config "cron") in
      if node.type == "schedule_trigger"
      then scheduled s node cron (add_schedule_job s graph_id node.id cron)
      else if node.type == "webhook_trigger"
      then (add_route s graph_id node.id, inl (webhook_record graph_id node ∷ []))
      else (s, inl [])

  unfoldable pub register_triggers : Triggers → String → List NodeSpec → Registered
  unfolding register_node
  register_triggers s graph_id [] = (s, inl [])
  register_triggers s graph_id (node ∷ nodes) =
      then_rest (register_node s graph_id node) (λ s'. register_triggers s' graph_id nodes)
