-- ===== src/Api/Activation/Sync.antt =====
-- backend/api/app.py, `_sync_webhooks_on_activate` and `_sync_webhooks_on_deactivate`: the calls of the
-- handlers of external webhooks.
use Prim.Native.String.{◌++◌ as str_append}
use agent_graph_studio.Prelude.{
  if◌then◌else◌, ◌==◌, string_eq, String, Option, none, some, List, [], ◌∷◌, nat_eq, pair_eq,
  option_eq,
}
use agent_graph_studio.Schema.Models.{NodeSpec, GraphSpec}
use agent_graph_studio.Connections.Store.{ConnectionProfile}
use agent_graph_studio.Connections.Resolver.{
  ResolveError, not_found, unknown_type, Resolved, resolved, failed, resolve_connections,
}
use agent_graph_studio.Triggers.Registry.{TriggerRecord}
use agent_graph_studio.Triggers.Sync.{adapter_pairs_for_graph}
use agent_graph_studio.Api.Activation.State.{
  SyncCall, on_activate, on_deactivate, no_public_base_url, no_connection, sync_failed, Failure,
  http_exception, uncaught, Services,
}

abbrev pub Synced : Type 0
Synced = List SyncCall × Option Failure

module _ {Client : Type 0} (v : Services Client) (store : List ConnectionProfile) where
  -- `trigger_by_node_id[id].endpoint_or_schedule`; a dictionary keeps the last of two records
  abbrev pub endpoint_of : List TriggerRecord → String → Option String
  endpoint_of [] id = none
  endpoint_of (t ∷ ts) id = elim (endpoint_of ts id) [
    | some e ↦ some e
    | none ↦ if t.node_id == id then some t.endpoint_or_schedule else none
  ]

  abbrev pub after_call : SyncCall → Synced → Synced
  after_call c (calls, o) = (c ∷ calls, o)

  -- One round of `for webhook_node, adapter_node in pairs`, before the rest of the loop.
  unfoldable pub sync_pair : String → NodeSpec → NodeSpec → Option String → Synced → Synced
  sync_pair base webhook adapter none rest = ([], some uncaught)
  sync_pair base webhook adapter (some endpoint) rest =
      let url = str_append base endpoint in
      if v.activates webhook adapter url
      then after_call (on_activate webhook.id adapter.id url) rest
      else (
        on_activate webhook.id adapter.id url ∷ [],
        some (http_exception (sync_failed adapter.id)),
      )

  unfoldable pub sync_pairs : String → List TriggerRecord → List (NodeSpec × NodeSpec) → Synced
  unfolding sync_pair
  sync_pairs base triggers [] = ([], none)
  sync_pairs base triggers ((webhook, adapter) ∷ pairs) =
      sync_pair base webhook adapter (endpoint_of triggers webhook.id)
        (sync_pairs base triggers pairs)

  abbrev pub resolving_failed : ResolveError → Failure
  resolving_failed (not_found name) = http_exception (no_connection name)
  resolving_failed (unknown_type name) = uncaught
  resolving_failed (ResolveError.invalid_config name) = uncaught

  unfoldable pub sync_resolved :
      String → List TriggerRecord → List (NodeSpec × NodeSpec) → Resolved Client → Synced
  unfolding sync_pairs
  sync_resolved base triggers pairs (resolved clients) = sync_pairs base triggers pairs
  sync_resolved base triggers pairs (failed e) = ([], some (resolving_failed e))

  unfoldable pub sync_some :
      Option String → List TriggerRecord → List (NodeSpec × NodeSpec) → Resolved Client → Synced
  unfolding sync_resolved
  sync_some base triggers [] r = ([], none)
  sync_some none triggers (p ∷ pairs) r = ([], some (http_exception no_public_base_url))
  sync_some (some base) triggers (p ∷ pairs) r =
      if base == ""
      then ([], some (http_exception no_public_base_url))
      else sync_resolved base triggers (p ∷ pairs) r

  -- `_sync_webhooks_on_activate`: the calls that it makes, and the failure that ends it
  unfoldable pub sync_webhooks_on_activate : GraphSpec → List TriggerRecord → Option String → Synced
  unfolding sync_some
  sync_webhooks_on_activate g triggers user_id =
      sync_some v.public_base_url triggers (adapter_pairs_for_graph v.is_handled g)
        (resolve_connections user_id none store v.connection_types g)

  abbrev pub deactivation_calls : List (NodeSpec × NodeSpec) → List SyncCall
  deactivation_calls [] = []
  deactivation_calls ((webhook, adapter) ∷ pairs) =
      on_deactivate webhook.id adapter.id ∷ deactivation_calls pairs

  abbrev pub calls_resolved : List (NodeSpec × NodeSpec) → Resolved Client → Option (List SyncCall)
  calls_resolved pairs (resolved clients) = some (deactivation_calls pairs)
  calls_resolved pairs (failed (not_found name)) = some []
  calls_resolved pairs (failed (unknown_type name)) = none
  calls_resolved pairs (failed (ResolveError.invalid_config name)) = none

  abbrev pub calls_some : List (NodeSpec × NodeSpec) → Resolved Client → Option (List SyncCall)
  calls_some [] r = some []
  calls_some (p ∷ pairs) r = calls_resolved (p ∷ pairs) r

  -- `_sync_webhooks_on_deactivate`: failures of the handlers are logged; `none` is an error of the
  -- resolver that is not caught
  unfoldable pub sync_webhooks_on_deactivate : GraphSpec → Option String → Option (List SyncCall)
  sync_webhooks_on_deactivate g user_id =
      calls_some (adapter_pairs_for_graph v.is_handled g)
        (resolve_connections user_id none store v.connection_types g)
