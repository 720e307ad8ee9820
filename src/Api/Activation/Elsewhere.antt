-- ===== src/Api/Activation/Elsewhere.antt =====
-- backend/api/app.py: what the activations and deactivations of other graphs leave of an active graph.
use agent_graph_studio.Prelude.{
  Bool-cases, is_some, ◌==◌, string_eq, String, ◌≡◌, refl, ap, ◌∙◌, inl, inr, Bool, false, Option,
  none, some, List, [], ◌∷◌, nat_eq, pair_eq, option_eq,
}
use agent_graph_studio.Prelude.Dict.{Dict, get, get-put, get-pop}
use agent_graph_studio.Schema.Models.{GraphSpec}
use agent_graph_studio.Connections.Store.{ConnectionProfile}
use agent_graph_studio.Validation.Issue.{ValidationIssue}
use agent_graph_studio.Validation.Validator.{validate_graph}
use agent_graph_studio.Triggers.Registry.{
  Triggers, TriggerRecord, ActiveGraph, set_active, get_active, clear_active, remove_jobs_for_graph,
  remove_routes,
}
use agent_graph_studio.Api.Activation.State.{
  Backend, Services, Failure, http_exception, uncaught, deactivate, SyncCall,
}
use agent_graph_studio.Api.Activation.Register.{Registered, register_triggers}
use agent_graph_studio.Api.Activation.Sync.{sync_webhooks_on_activate, sync_webhooks_on_deactivate}
use agent_graph_studio.Api.Activation.Change.{
  after_sync, trigger_failure, rolled_back, after_register, replaced, after_validation,
  activate_graph, deactivate_found, deactivate_graph, deactivated,
}
use agent_graph_studio.Api.Activation.Vouched.{register_triggers-active}

module _ (id other : String) (apart : (other == id) ≡ false) where
  get-deactivate : (s : Triggers) → get (deactivate s other).active id ≡ get s.active id
  unfolding deactivate clear_active remove_routes remove_jobs_for_graph
  get-deactivate s = get-pop s.active other id ∙ rw apart refl

  module _ {Client : Type 0} (v : Services Client) (store : List ConnectionProfile) where
    get-replaced : (s : Triggers) → get (replaced v store s other).active id ≡ get s.active id
    unfolding replaced
    get-replaced s = elim (Bool-cases (is_some (get_active s other))) [
      | inl h ↦ rw h (get-deactivate s)
      | inr h ↦ rw h refl
    ]

    module _ (g : GraphSpec) (json : String) (fails : Bool) (now : String)
        (user_id : Option String) where
      get-rolled_back :
          (w : Backend) (e : Failure)
          → get (rolled_back v store w other e).0.triggers.active id ≡ get w.triggers.active id
      get-rolled_back w uncaught = refl
      get-rolled_back w (http_exception e) = get-deactivate w.triggers

      get-after_sync :
          (w : Backend) (ts : List TriggerRecord) (o : Option Failure)
          → get (after_sync v store w other g json fails now user_id ts o).0.triggers.active id
            ≡ get w.triggers.active id
      unfolding after_sync set_active
      get-after_sync w ts (some e) = get-rolled_back w e
      get-after_sync w ts none = get-put w.triggers.active other id _ ∙ rw apart refl

      get-after_register :
          (w : Backend) (r : Registered)
          → get (after_register v store w other g json fails now user_id r).0.triggers.active id
            ≡ get r.0.active id
      unfolding after_register
      get-after_register w (s, inr e) =
          get-rolled_back (record w { triggers = s }) (trigger_failure v store e)
      get-after_register w (s, inl ts) =
          get-after_sync _ ts (sync_webhooks_on_activate v store g ts user_id).1

      get-after_validation :
          (w : Backend) (issues : List ValidationIssue)
          → get
              (after_validation v store w other g json fails now user_id issues).0.triggers.active
              id
            ≡ get w.triggers.active id
      unfolding after_validation
      get-after_validation w (i ∷ issues) = refl
      get-after_validation w [] =
          get-after_register w
            (register_triggers v store (replaced v store w.triggers other) other g.nodes)
          ∙ ap (λ (d : Dict String ActiveGraph). get d id)
              (register_triggers-active v store g.nodes (replaced v store w.triggers other) other)
          ∙ get-replaced w.triggers

      get-activate_graph :
          (w : Backend)
          → get (activate_graph v store w other g json fails now user_id).0.triggers.active id
            ≡ get w.triggers.active id
      unfolding activate_graph
      get-activate_graph w = get-after_validation w (validate_graph g v.registry store user_id none)

    get-deactivate_graph :
        (w : Backend) (fails : Bool) (now : String) (user_id : Option String)
        → get (deactivate_graph v store w other fails now user_id).0.triggers.active id
          ≡ get w.triggers.active id
    unfolding deactivate_graph
    get-deactivate_graph w fails now user_id = by_active (get_active w.triggers other)
      where
        by_calls :
            (o : Option (List SyncCall))
            → get (deactivated v store w other fails now o).0.triggers.active id
              ≡ get w.triggers.active id
        by_calls none = refl
        by_calls (some calls) = get-deactivate w.triggers

        by_active :
            (o : Option ActiveGraph)
            → get (deactivate_found v store w other fails now user_id o).0.triggers.active id
              ≡ get w.triggers.active id
        by_active none = refl
        by_active (some a) =
            unfold deactivate_found in
            by_calls (sync_webhooks_on_deactivate v store a.graph user_id)

-- Any activations and deactivations of graphs with other ids, one after the other, whatever they answer.
pub data Elsewhere {Client : Type 0} (v : Services Client) (store : List ConnectionProfile)
    (id : String) (w : Backend) : Backend → Type 0 where
  here : Elsewhere v store id w w
  activates :
      {b : Backend} (other : String) (g : GraphSpec) (json : String) (fails : Bool) (now : String)
      (user_id : Option String)
      → (other == id) ≡ false
      → Elsewhere v store id w b
      → Elsewhere v store id w (activate_graph v store b other g json fails now user_id).0
  deactivates :
      {b : Backend} (other : String) (fails : Bool) (now : String) (user_id : Option String)
      → (other == id) ≡ false
      → Elsewhere v store id w b
      → Elsewhere v store id w (deactivate_graph v store b other fails now user_id).0

pub get-Elsewhere :
    {Client : Type 0} (v : Services Client) (store : List ConnectionProfile) (id : String)
    (w : Backend) {b : Backend}
    → Elsewhere v store id w b
    → get b.triggers.active id ≡ get w.triggers.active id
get-Elsewhere v store id w here = refl
get-Elsewhere v store id w (activates {b} other g json fails now user_id apart e) =
    get-activate_graph id other apart v store g json fails now user_id b
    ∙ get-Elsewhere v store id w e
get-Elsewhere v store id w (deactivates {b} other fails now user_id apart e) =
    get-deactivate_graph id other apart v store b fails now user_id ∙ get-Elsewhere v store id w e
