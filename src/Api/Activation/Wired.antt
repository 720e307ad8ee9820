-- ===== src/Api/Activation/Wired.antt =====
-- backend/api/app.py: the jobs and routes that activations leave, and the graphs that are active.
use agent_graph_studio.Prelude.{
  Bool-cases, is_some, ◌==◌, ==_iff, ==_refl, string_eq, String, ◌≡◌, refl, sym, subst, ◌≢◌, inl,
  inr, Bool, true, false, ◌||◌, Option, none, some, List, [], ◌∷◌, arith, nat_eq, pair_eq,
  option_eq,
}
use agent_graph_studio.Prelude.Dict.{Dict, pop, has, get-put, get-pop}
use agent_graph_studio.Schema.Models.{GraphSpec}
use agent_graph_studio.Connections.Store.{ConnectionProfile}
use agent_graph_studio.Validation.Issue.{ValidationIssue}
use agent_graph_studio.Validation.Validator.{validate_graph}
use agent_graph_studio.Triggers.Registry.{
  Triggers, TriggerRecord, ActiveGraph, job_id, job_prefix, webhook_path, route_prefix, set_active,
  get_active, clear_active, remove_jobs_for_graph, remove_routes,
}
use agent_graph_studio.Api.Activation.State.{
  Backend, Services, crashed, Failure, http_exception, uncaught, deactivate, SyncCall,
}
use agent_graph_studio.Api.Activation.Register.{Registered, register_triggers}
use agent_graph_studio.Api.Activation.Sync.{sync_webhooks_on_activate, sync_webhooks_on_deactivate}
use agent_graph_studio.Api.Activation.Change.{
  after_sync, trigger_failure, rolled_back, after_register, replaced, after_validation,
  activate_graph, deactivate_found, deactivate_graph, deactivated,
}
use agent_graph_studio.Api.Activation.Hooks.{
  Hooked, IsWired, Hooked-mono, but, filter-IsHook, job_id-prefix, webhook_path-prefix,
}
use agent_graph_studio.Api.Activation.Kept.{Kept, register_triggers-Kept}

deactivate-Hooked :
    (p : String → Bool) (s : Triggers) (graph_id : String)
    → Hooked p s
    → Hooked (but p graph_id) (deactivate s graph_id)
unfolding deactivate clear_active remove_routes remove_jobs_for_graph
deactivate-Hooked p s graph_id w = record {
  hooked_jobs = filter-IsHook job_id job_prefix job_id-prefix p graph_id s.jobs w.hooked_jobs;
  hooked_routes =
      filter-IsHook webhook_path route_prefix webhook_path-prefix p graph_id s.routes
        w.hooked_routes;
}

active-deactivate :
    (s : Triggers) (graph_id : String) → (deactivate s graph_id).active ≡ pop s.active graph_id
unfolding deactivate clear_active remove_routes remove_jobs_for_graph
active-deactivate s graph_id = refl

-- After a deactivation the graphs that were admitted beside it are active.
deactivate-IsWired :
    (p : String → Bool) (s : Triggers) (graph_id : String)
    → ((g : String) → p g ≡ true → (g == graph_id) ≡ false → has s.active g ≡ true)
    → Hooked p s
    → IsWired (deactivate s graph_id)
deactivate-IsWired p s graph_id f w =
    Hooked-mono (but p graph_id) (has (deactivate s graph_id).active) (deactivate s graph_id)
      (λ g h.
        rw (active-deactivate s graph_id)
          (ground (arith, get-pop s.active graph_id g, ==_iff g graph_id, ==_iff graph_id g, f g)))
      (deactivate-Hooked p s graph_id w)

replaced-IsWired :
    {Client : Type 0} (v : Services Client) (store : List ConnectionProfile) (s : Triggers)
    (graph_id : String)
    → IsWired s
    → IsWired (replaced v store s graph_id)
unfolding replaced
replaced-IsWired v store s graph_id w = elim (Bool-cases (is_some (get_active s graph_id))) [
  | inl h ↦ rw h (deactivate-IsWired (has s.active) s graph_id (λ g k d. k) w)
  | inr h ↦ rw h w
]

module _ {Client : Type 0} (v : Services Client) (store : List ConnectionProfile)
    (graph_id : String) (g : GraphSpec) (spec_json : String) (fails : Bool) (now : String)
    (user_id : Option String) where
  -- The graphs that are admitted while a graph is being activated: those that are active, and itself.
  abbrev or_self : Dict String ActiveGraph → String → Bool
  or_self active other = has active other || other == graph_id

  rolled_back-IsWired :
      (w : Backend) (e : Failure)
      → Hooked (or_self w.triggers.active) w.triggers
      → (rolled_back v store w graph_id e).1 ≢ crashed
      → IsWired (rolled_back v store w graph_id e).0.triggers
  rolled_back-IsWired w uncaught k n = absurd (n refl)
  rolled_back-IsWired w (http_exception e) k n =
      deactivate-IsWired (or_self w.triggers.active) w.triggers graph_id (λ i h d. ground arith) k

  after_sync-IsWired :
      (w : Backend) (ts : List TriggerRecord) (o : Option Failure)
      → Hooked (or_self w.triggers.active) w.triggers
      → (after_sync v store w graph_id g spec_json fails now user_id ts o).1 ≢ crashed
      → IsWired (after_sync v store w graph_id g spec_json fails now user_id ts o).0.triggers
  unfolding after_sync set_active
  after_sync-IsWired w ts (some e) k n = rolled_back-IsWired w e k n
  after_sync-IsWired w ts none k n =
      let s : Triggers = set_active w.triggers graph_id g ts user_id in
      let hooks : Hooked (or_self w.triggers.active) s = record {
        hooked_jobs = k.hooked_jobs;
        hooked_routes = k.hooked_routes;
      } in
      Hooked-mono (or_self w.triggers.active) (has s.active) s
        (λ i h. ground (
          arith,
          get-put w.triggers.active graph_id i
              (record { graph_id = graph_id; graph = g; triggers = ts; created_by = user_id }),
          ==_iff i graph_id,
          ==_iff graph_id i,
        ))
        hooks

  after_register-IsWired :
      (w : Backend) (r : Registered)
      → Hooked (or_self r.0.active) r.0
      → (after_register v store w graph_id g spec_json fails now user_id r).1 ≢ crashed
      → IsWired (after_register v store w graph_id g spec_json fails now user_id r).0.triggers
  unfolding after_register
  after_register-IsWired w (s, inr e) k n =
      rolled_back-IsWired (record w { triggers = s }) (trigger_failure v store e) k n
  after_register-IsWired w (s, inl ts) k n =
      after_sync-IsWired _ ts (sync_webhooks_on_activate v store g ts user_id).1 k n

  after_validation-IsWired :
      (w : Backend) (issues : List ValidationIssue)
      → IsWired w.triggers
      → (after_validation v store w graph_id g spec_json fails now user_id issues).1 ≢ crashed
      → IsWired
          (after_validation v store w graph_id g spec_json fails now user_id issues).0.triggers
  unfolding after_validation
  after_validation-IsWired w (i ∷ issues) k n = k
  after_validation-IsWired w [] k n =
      let s : Triggers = replaced v store w.triggers graph_id in
      let kept : Kept (or_self s.active) s.active (register_triggers v store s graph_id g.nodes).0 =
        register_triggers-Kept v store (or_self s.active) s.active graph_id
          (ground (arith, ==_refl graph_id)) g.nodes s
          (record {
            kept_hooks =
                Hooked-mono (has s.active) (or_self s.active) s (λ i h. ground arith)
                  (replaced-IsWired v store w.triggers graph_id k);
            kept_active = refl;
          }) in
      after_register-IsWired w (register_triggers v store s graph_id g.nodes)
        (subst (λ a. Hooked (or_self a) (register_triggers v store s graph_id g.nodes).0)
          (sym kept.kept_active) kept.kept_hooks)
        n

  -- If every job and route fires an active graph, and an activation answers, with success or an HTTP error,
  -- then it is so after it; it is so after a deactivation too.
  pub activate_graph-IsWired :
      (w : Backend)
      → IsWired w.triggers
      → (activate_graph v store w graph_id g spec_json fails now user_id).1 ≢ crashed
      → IsWired (activate_graph v store w graph_id g spec_json fails now user_id).0.triggers
        × IsWired (deactivate_graph v store w graph_id fails now user_id).0.triggers
  unfolding activate_graph deactivate_graph
  activate_graph-IsWired w k n = (
    after_validation-IsWired w (validate_graph g v.registry store user_id none) k n,
    by_active (get_active w.triggers graph_id),
  )
    where
      by_calls :
          (o : Option (List SyncCall))
          → IsWired (deactivated v store w graph_id fails now o).0.triggers
      by_calls none = k
      by_calls (some calls) =
          deactivate-IsWired (has w.triggers.active) w.triggers graph_id (λ i h d. h) k

      by_active :
          (o : Option ActiveGraph)
          → IsWired (deactivate_found v store w graph_id fails now user_id o).0.triggers
      by_active none = unfold deactivate_found in k
      by_active (some a) =
          unfold deactivate_found in by_calls (sync_webhooks_on_deactivate v store a.graph user_id)
