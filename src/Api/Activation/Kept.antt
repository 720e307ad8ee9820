-- ===== src/Api/Activation/Kept.antt =====
-- backend/api/app.py, `_register_triggers`: the hooks that it adds are those of its graph.
use agent_graph_studio.Prelude.{
  Bool-cases, ◌==◌, string_eq, All-append, String, ◌≡◌, refl, sym, subst, ◌⊎◌, inl, inr, Bool, true,
  Option, none, some, List, [], ◌∷◌, ◌++◌, arith, nat_eq, pair_eq, option_eq,
}
use agent_graph_studio.Prelude.Dict.{Dict, get}
use agent_graph_studio.Schema.Models.{NodeSpec}
use agent_graph_studio.Connections.Store.{ConnectionProfile}
use agent_graph_studio.Triggers.Registry.{
  Hook, Triggers, TriggerRecord, TriggerError, ActiveGraph, job_id, webhook_path, add_schedule_job,
  add_route,
}
use agent_graph_studio.Api.Activation.State.{Services}
use agent_graph_studio.Api.Activation.Register.{
  Registered, and_then, then_rest, scheduled, register_node, register_triggers,
}
use agent_graph_studio.Api.Activation.Hooks.{IsHook, Hooked}

-- Hooks of admitted graphs, beside a given table of active graphs.
pub record Kept (p : String → Bool) (active : Dict String ActiveGraph) (s : Triggers) : Type 0 where
  pub kept_hooks : Hooked p s
  pub kept_active : s.active ≡ active

module _ {Client : Type 0} (v : Services Client) (store : List ConnectionProfile)
    (p : String → Bool) (active : Dict String ActiveGraph) (graph_id : String)
    (own : p graph_id ≡ true) where
  add_schedule_job-Kept :
      (s : Triggers) (node : NodeSpec) (cron : Option String) (o : Triggers ⊎ TriggerError)
      → add_schedule_job s graph_id node.id cron ≡ o
      → Kept p active s
      → Kept p active (scheduled v store s node cron o).0
  unfolding scheduled add_schedule_job
  add_schedule_job-Kept s node cron (inr e) h k = k
  add_schedule_job-Kept s node none (inl t) h k = absurd (ground arith)
  add_schedule_job-Kept s node (some cron) (inl t) h k =
      let hook : Hook = record {
        name = job_id graph_id node.id;
        graph_id = graph_id;
        node_id = node.id;
      } in
      let e : t ≡ record s { jobs = s.jobs ++ hook ∷ [] } = ground arith in
      subst (Kept p active) (sym e) (record {
        kept_hooks = record {
          hooked_jobs =
              All-append (IsHook job_id p) s.jobs (hook ∷ []) k.kept_hooks.hooked_jobs
                ((refl, own), tt);
          hooked_routes = k.kept_hooks.hooked_routes;
        };
        kept_active = k.kept_active;
      })

  add_route-Kept :
      (s : Triggers) (id : String) → Kept p active s → Kept p active (add_route s graph_id id)
  unfolding add_route
  add_route-Kept s id k = record {
    kept_hooks = record {
      hooked_jobs = k.kept_hooks.hooked_jobs;
      hooked_routes =
          All-append (IsHook webhook_path p) s.routes _ k.kept_hooks.hooked_routes
            ((refl, own), tt);
    };
    kept_active = k.kept_active;
  }

  register_node-Kept :
      (s : Triggers) (node : NodeSpec)
      → Kept p active s
      → Kept p active (register_node v store s graph_id node).0
  unfolding register_node
  register_node-Kept s node k = elim (Bool-cases (node.type == "schedule_trigger")) [
    | inl h ↦ rw h (add_schedule_job-Kept s node (v.crontab (get node.config "cron")) _ refl k)
    | inr h ↦ elim (Bool-cases (node.type == "webhook_trigger")) [
      | inl w ↦ rw (h, w) (add_route-Kept s node.id k)
      | inr w ↦ rw (h, w) k
    ]
  ]

  and_then-first : (ts : List TriggerRecord) (r : Registered) → (and_then ts r).0 ≡ r.0
  and_then-first ts (s, inl us) = refl
  and_then-first ts (s, inr e) = refl

  then_rest-Kept :
      (r : Registered) (rest : Triggers → Registered)
      → Kept p active r.0
      → ((s : Triggers) → Kept p active s → Kept p active (rest s).0)
      → Kept p active (then_rest r rest).0
  then_rest-Kept (s, inr e) rest k f = k
  then_rest-Kept (s, inl ts) rest k f = rw (and_then-first ts (rest s)) (f s k)

  pub register_triggers-Kept :
      (nodes : List NodeSpec) (s : Triggers)
      → Kept p active s
      → Kept p active (register_triggers v store s graph_id nodes).0
  unfolding register_triggers
  register_triggers-Kept [] s k = k
  register_triggers-Kept (node ∷ nodes) s k =
      then_rest-Kept (register_node v store s graph_id node) _ (register_node-Kept s node k)
        (λ t l. register_triggers-Kept nodes t l)
