-- ===== src/Api/Activation/Serving.antt =====
-- backend/api/app.py, `_register_triggers`: the job or the route that each trigger of a graph gets.
use agent_graph_studio.Prelude.{
  When, When-map, When-of, When-off, Bool-cases, ◌==◌, ==_iff, ==_refl, string_eq, any, All, String,
  ◌≡◌, refl, sym, ap, subst, ◌∙◌, ◌⊎◌, inl, inr, Bool, true, false, ◌&&◌, ◌||◌, Option, none, some,
  List, [], ◌∷◌, ◌++◌, arith, nat_eq, pair_eq, option_eq,
}
use agent_graph_studio.Prelude.Dict.{get}
use agent_graph_studio.Schema.Models.{NodeSpec}
use agent_graph_studio.Connections.Store.{ConnectionProfile}
use agent_graph_studio.Triggers.Registry.{
  Hook, Triggers, TriggerRecord, TriggerError, job_id, webhook_path, add_schedule_job, add_route,
}
use agent_graph_studio.Api.Activation.State.{Services}
use agent_graph_studio.Api.Activation.Register.{
  Registered, and_then, then_rest, scheduled, register_node, register_triggers,
}

abbrev pub fires : String → String → Hook → Bool
fires graph_id node_id h = h.graph_id == graph_id && h.node_id == node_id

-- The node's trigger, if it is one, is registered.
abbrev pub IsServed : String → Triggers → NodeSpec → Type 0
IsServed graph_id s node =
    When (node.type == "schedule_trigger") (any (fires graph_id node.id) s.jobs ≡ true)
    × When (node.type == "webhook_trigger") (any (fires graph_id node.id) s.routes ≡ true)

-- What is registered stays so.
pub record Grows (s t : Triggers) : Type 0 where
  more_jobs : (p : Hook → Bool) → any p s.jobs ≡ true → any p t.jobs ≡ true
  more_routes : (p : Hook → Bool) → any p s.routes ≡ true → any p t.routes ≡ true

Grows-refl : (s : Triggers) → Grows s s
Grows-refl s = record { more_jobs = λ p h. h; more_routes = λ p h. h }

Grows-trans : (s t u : Triggers) → Grows s t → Grows t u → Grows s u
Grows-trans s t u g h = record {
  more_jobs = λ p k. h.more_jobs p (g.more_jobs p k);
  more_routes = λ p k. h.more_routes p (g.more_routes p k);
}

any-snoc_old :
    (p : Hook → Bool) (hs : List Hook) (h : Hook) → any p (hs ++ h ∷ []) ≡ (any p hs || p h)
any-snoc_old p [] h = ground arith
any-snoc_old p (i ∷ hs) h = ground (arith, any-snoc_old p hs h)

Grows-IsServed :
    (graph_id : String) (s t : Triggers) (node : NodeSpec)
    → Grows s t
    → IsServed graph_id s node
    → IsServed graph_id t node
Grows-IsServed graph_id s t node g v = (
  When-map (node.type == "schedule_trigger") (g.more_jobs (fires graph_id node.id)) v.0,
  When-map (node.type == "webhook_trigger") (g.more_routes (fires graph_id node.id)) v.1,
)

module _ {Client : Type 0} (v : Services Client) (store : List ConnectionProfile)
    (graph_id : String) where
  -- A step that goes on has served its node and lost nothing.
  abbrev pub Serves : Triggers → NodeSpec → Registered → Type 0
  Serves s node (t, inr e) = Unit
  Serves s node (t, inl ts) = Grows s t × IsServed graph_id t node

  scheduled-Serves :
      (s : Triggers) (node : NodeSpec) (cron : Option String) (o : Triggers ⊎ TriggerError)
      → (node.type == "webhook_trigger") ≡ false
      → add_schedule_job s graph_id node.id cron ≡ o
      → Serves s node (scheduled v store s node cron o)
  unfolding scheduled add_schedule_job
  scheduled-Serves s node cron (inr e) w h = tt
  scheduled-Serves s node none (inl t) w h = absurd (ground arith)
  scheduled-Serves s node (some cron) (inl t) w h =
      let hook : Hook = record {
        name = job_id graph_id node.id;
        graph_id = graph_id;
        node_id = node.id;
      } in
      let e : t ≡ record s { jobs = s.jobs ++ hook ∷ [] } = ground arith in
      subst (λ u. Grows s u × IsServed graph_id u node) (sym e)
        (
          record {
            more_jobs = λ p k. ground (arith, any-snoc_old p s.jobs hook);
            more_routes = λ p k. k;
          },
          (
            When-of (node.type == "schedule_trigger") (
                any-snoc_old (fires graph_id node.id) s.jobs hook
                ∙ ground (arith, ==_refl graph_id, ==_refl node.id)),
            When-off (node.type == "webhook_trigger") _ w,
          ),
        )

  register_node-Serves :
      (s : Triggers) (node : NodeSpec) → Serves s node (register_node v store s graph_id node)
  unfolding register_node add_route
  register_node-Serves s node = elim (Bool-cases (node.type == "schedule_trigger")) [
    | inl h ↦ rw h (
        scheduled-Serves s node (v.crontab (get node.config "cron")) _
          (subst (λ (x : String). (x == "webhook_trigger") ≡ false)
            (sym ((==_iff node.type "schedule_trigger").0 h)) refl)
          refl)
    | inr h ↦ elim (Bool-cases (node.type == "webhook_trigger")) [
      | inr w ↦
          rw (h, w)
            (
              Grows-refl s,
              (
                When-off (node.type == "schedule_trigger") _ h,
                When-off (node.type == "webhook_trigger") _ w,
              ),
            )
      | inl w ↦
          rw (h, w)
            (
              record {
                more_jobs = λ p k. k;
                more_routes = λ p k. ground (
                  arith,
                  any-snoc_old p s.routes (record {
                    name = webhook_path graph_id node.id;
                    graph_id = graph_id;
                    node_id = node.id;
                  }),
                );
              },
              (
                When-off (node.type == "schedule_trigger") _ h,
                When-of (node.type == "webhook_trigger") (
                    any-snoc_old (fires graph_id node.id) s.routes _
                    ∙ ground (arith, ==_refl graph_id, ==_refl node.id)),
              ),
            )
    ]
  ]

  and_then-inl :
      (ts us : List TriggerRecord) (r : Registered) (t : Triggers)
      → and_then ts r ≡ (t, inl us)
      → (rs : List TriggerRecord) × (r ≡ (t, inl rs))
  and_then-inl ts us (s, inl rs) t h = (rs, ground arith)
  and_then-inl ts us (s, inr e) t h = absurd (ground arith)

  then_rest-Serves :
      (s : Triggers) (node : NodeSpec) (nodes : List NodeSpec) (r : Registered) (t : Triggers)
      (ts : List TriggerRecord)
      → Serves s node r
      → then_rest r (λ u. register_triggers v store u graph_id nodes) ≡ (t, inl ts)
      → ((u : Triggers) (us : List TriggerRecord)
          → register_triggers v store u graph_id nodes ≡ (t, inl us)
          → Grows u t × All (IsServed graph_id t) nodes)
      → Grows s t × All (IsServed graph_id t) (node ∷ nodes)
  then_rest-Serves s node nodes (u, inr e) t ts k h ih = absurd (ground arith)
  then_rest-Serves s node nodes (u, inl us) t ts k h ih =
      let (rs, same) = and_then-inl us ts (register_triggers v store u graph_id nodes) t h in
      let (more, all) = ih u rs same in
      (Grows-trans s u t k.0 more, (Grows-IsServed graph_id u t node more k.1, all))

  pub register_triggers-Serves :
      (nodes : List NodeSpec) (s t : Triggers) (ts : List TriggerRecord)
      → register_triggers v store s graph_id nodes ≡ (t, inl ts)
      → Grows s t × All (IsServed graph_id t) nodes
  unfolding register_triggers
  register_triggers-Serves [] s t ts h =
      (subst (Grows s) (ap (λ (r : Registered). r.0) h) (Grows-refl s), tt)
  register_triggers-Serves (node ∷ nodes) s t ts h =
      then_rest-Serves s node nodes (register_node v store s graph_id node) t ts
        (register_node-Serves s node) h (λ u us k. register_triggers-Serves nodes u t us k)
