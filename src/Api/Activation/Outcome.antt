-- ===== src/Api/Activation/Outcome.antt =====
-- backend/api/app.py: what `activate_graph` leaves, whichever way it ends.
use Prim.Native.String.{◌++◌ as str_append}
use agent_graph_studio.Prelude.{
  Bool-cases, ◌==◌, ==_refl, string_eq, All, String, ◌≡◌, refl, ap, ◌∙◌, ◌≢◌, inl, inr, Bool, true,
  Option, none, some, List, [], ◌∷◌, arith, nat_eq, pair_eq, option_eq,
}
use agent_graph_studio.Prelude.Dict.{get-pop, get-put_self}
use agent_graph_studio.Schema.Models.{NodeSpec, GraphSpec}
use agent_graph_studio.Connections.Store.{ConnectionProfile}
use agent_graph_studio.Validation.Issue.{ValidationIssue}
use agent_graph_studio.Validation.Validator.{validate_graph}
use agent_graph_studio.Storage.Graphs.{set_active_state}
use agent_graph_studio.Triggers.Registry.{
  Triggers, TriggerRecord, TriggerError, set_active, get_active, clear_active,
}
use agent_graph_studio.Connections.Resolver.{
  Resolved, resolved, failed, not_found, unknown_type, invalid_config, resolve_connections,
}
use agent_graph_studio.Triggers.Sync.{adapter_pairs_for_graph}
use agent_graph_studio.Api.Activation.State.{
  Backend, Services, Activation, activated, refused, crashed, invalid_graph, bad_schedule, Failure,
  http_exception, uncaught, deactivate,
}
use agent_graph_studio.Api.Activation.Register.{Registered, register_triggers}
use agent_graph_studio.Api.Activation.Sync.{
  sync_webhooks_on_activate, sync_some, sync_resolved, sync_pairs, sync_pair, Synced, endpoint_of,
}
use agent_graph_studio.Api.Activation.Change.{
  after_sync, rolled_back, after_register, replaced, after_validation, activate_graph,
}
use agent_graph_studio.Api.Activation.Serving.{IsServed, register_triggers-Serves}

-- A failure that is not the rejection of the graph.
abbrev NotInvalid : Option Failure → Type 0
NotInvalid none = Unit
NotInvalid (some uncaught) = Unit
NotInvalid (some (http_exception e)) = (issues : List ValidationIssue) → e ≢ invalid_graph issues

module _ {Client : Type 0} (v : Services Client) (store : List ConnectionProfile) where
  sync_pair-NotInvalid :
      (base : String) (n a : NodeSpec) (o : Option String) (rest : Synced)
      → NotInvalid rest.1
      → NotInvalid (sync_pair v store base n a o rest).1
  unfolding sync_pair
  sync_pair-NotInvalid base n a none rest k = tt
  sync_pair-NotInvalid base n a (some e) rest k =
      elim (Bool-cases (v.activates n a (str_append base e))) [
        | inl ok ↦ rw ok k
        | inr bad ↦ rw bad (λ issues x. cc)
      ]

  sync_pairs-NotInvalid :
      (base : String) (ts : List TriggerRecord) (ps : List (NodeSpec × NodeSpec))
      → NotInvalid (sync_pairs v store base ts ps).1
  unfolding sync_pairs
  sync_pairs-NotInvalid base ts [] = tt
  sync_pairs-NotInvalid base ts ((n, a) ∷ ps) =
      sync_pair-NotInvalid base n a (endpoint_of v store ts n.id) (sync_pairs v store base ts ps)
        (sync_pairs-NotInvalid base ts ps)

  sync_some-NotInvalid :
      (o : Option String) (ts : List TriggerRecord) (ps : List (NodeSpec × NodeSpec))
      (r : Resolved Client)
      → NotInvalid (sync_some v store o ts ps r).1
  unfolding sync_some sync_resolved
  sync_some-NotInvalid o ts [] r = tt
  sync_some-NotInvalid none ts (p ∷ ps) r = λ issues e. cc
  sync_some-NotInvalid (some base) ts (p ∷ ps) r = elim (Bool-cases (base == "")) [
    | inl h ↦ rw h (λ issues e. cc)
    | inr h ↦ rw h (by_resolved r)
  ]
    where
      by_resolved : (r : Resolved Client) → NotInvalid (sync_resolved v store base ts (p ∷ ps) r).1
      by_resolved (resolved clients) = sync_pairs-NotInvalid base ts (p ∷ ps)
      by_resolved (failed (not_found name)) = λ issues e. cc
      by_resolved (failed (unknown_type name)) = tt
      by_resolved (failed (invalid_config name)) = tt

module _ {Client : Type 0} (v : Services Client) (store : List ConnectionProfile)
    (graph_id : String) (g : GraphSpec) (spec_json : String) (fails : Bool) (now : String)
    (user_id : Option String) (w : Backend) where
  -- What is left behind, by the way in which the activation ended.
  abbrev pub Left : Backend → Activation → Type 0
  Left b (activated ts) =
      (get_active b.triggers graph_id
        ≡ some (record { graph_id = graph_id; graph = g; triggers = ts; created_by = user_id }))
      × All (IsServed graph_id b.triggers) g.nodes
      × (b.graphs ≡ set_active_state fails w.graphs graph_id spec_json true now)
  Left b (refused (invalid_graph issues)) = b ≡ w
  Left b (refused e) = (get_active b.triggers graph_id ≡ none) × (b.graphs ≡ w.graphs)
  Left b crashed = b.graphs ≡ w.graphs

  rolled_back-Left :
      (b : Backend) (e : Failure)
      → b.graphs ≡ w.graphs
      → ((issues : List ValidationIssue) → e ≢ http_exception (invalid_graph issues))
      → Left (rolled_back v store b graph_id e).0 (rolled_back v store b graph_id e).1
  unfolding deactivate clear_active get_active
  rolled_back-Left b uncaught k n = k
  rolled_back-Left b (http_exception (invalid_graph issues)) k n = absurd (n issues refl)
  rolled_back-Left b (http_exception e) k n = (get-pop _ graph_id graph_id ∙ rw ==_refl refl, k)

  after_sync-Left :
      (b : Backend) (ts : List TriggerRecord) (o : Option Failure)
      → b.graphs ≡ w.graphs
      → All (IsServed graph_id b.triggers) g.nodes
      → NotInvalid o
      → Left
          (after_sync v store b graph_id g spec_json fails now user_id ts o).0
          (after_sync v store b graph_id g spec_json fails now user_id ts o).1
  unfolding after_sync set_active get_active
  after_sync-Left b ts (some uncaught) k all n = rolled_back-Left b uncaught k (λ issues e. cc)
  after_sync-Left b ts (some (http_exception x)) k all n =
      rolled_back-Left b (http_exception x) k (λ issues e. n issues (ground arith))
  after_sync-Left b ts none k all n = (
    get-put_self _ graph_id _,
    all,
    ap (λ t. set_active_state fails t graph_id spec_json true now) k,
  )

  after_register-Left :
      (r : Registered)
      → ((t : Triggers) (ts : List TriggerRecord)
          → r ≡ (t, inl ts)
          → All (IsServed graph_id t) g.nodes)
      → Left
          (after_register v store w graph_id g spec_json fails now user_id r).0
          (after_register v store w graph_id g spec_json fails now user_id r).1
  unfolding after_register sync_webhooks_on_activate
  after_register-Left (s, inr (TriggerError.invalid_cron id)) f =
      rolled_back-Left (record w { triggers = s }) (http_exception (bad_schedule id)) refl
        (λ issues e. cc)
  after_register-Left (s, inr (TriggerError.conflicting_job id)) f = refl
  after_register-Left (s, inl ts) f = after_sync-Left _ ts _ refl (f s ts refl) (
      sync_some-NotInvalid v store v.public_base_url ts (adapter_pairs_for_graph v.is_handled g)
        (resolve_connections user_id none store v.connection_types g))

  after_validation-Left :
      (issues : List ValidationIssue)
      → Left
          (after_validation v store w graph_id g spec_json fails now user_id issues).0
          (after_validation v store w graph_id g spec_json fails now user_id issues).1
  unfolding after_validation
  after_validation-Left (i ∷ issues) = refl
  after_validation-Left [] =
      after_register-Left
        (register_triggers v store (replaced v store w.triggers graph_id) graph_id g.nodes)
        (λ t ts h.
          (register_triggers-Serves v store graph_id g.nodes (replaced v store w.triggers graph_id)
            t ts h).1)

  -- An activation that succeeds leaves the graph active, with a job or a route for each of its triggers,
  -- and has its state stored. One that is refused for the graph's issues changes nothing; any other refusal
  -- leaves the graph inactive, even if it was active before. Without success the stored graphs are as
  -- before.
  pub activate_graph-Left :
      Left
        (activate_graph v store w graph_id g spec_json fails now user_id).0
        (activate_graph v store w graph_id g spec_json fails now user_id).1
  unfolding activate_graph
  activate_graph-Left = after_validation-Left (validate_graph g v.registry store user_id none)
