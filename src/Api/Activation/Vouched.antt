-- ===== src/Api/Activation/Vouched.antt =====
-- backend/api/app.py, `_reactivate_persisted_graphs`: the graphs that a start makes active.
use agent_graph_studio.Prelude.{
  Bool-cases, ◌==◌, ==_iff, string_eq, String, ◌≡◌, refl, subst, sym, ap, ◌∙◌, ◌⊎◌, inl, inr,
  Option, none, some, List, [], ◌∷◌, arith, nat_eq, pair_eq, option_eq,
}
use agent_graph_studio.Prelude.Dict.{get, get-put}
use agent_graph_studio.Schema.Models.{GraphSpec, NodeSpec}
use agent_graph_studio.Connections.Store.{ConnectionProfile}
use agent_graph_studio.Validation.Issue.{ValidationIssue}
use agent_graph_studio.Validation.Validator.{validate_graph}
use agent_graph_studio.Storage.Graphs.{GraphRow, list_active_graphs}
use agent_graph_studio.Triggers.Registry.{
  Triggers, TriggerError, ActiveGraph, set_active, add_schedule_job, add_route, no_triggers,
}
use agent_graph_studio.Api.Activation.State.{Services}
use agent_graph_studio.Api.Activation.Register.{
  Registered, and_then, then_rest, scheduled, register_node, register_triggers,
}
use agent_graph_studio.Api.Activation.Startup.{
  reactivated, reactivate_valid, reactivate_row, reactivate_rows, reactivate_persisted_graphs,
}

-- One of the rows is as `P` says.
abbrev pub Any : (GraphRow → Type 0) → List GraphRow → Type 0
Any P [] = ⊥
Any P (row ∷ rows) = P row ⊎ Any P rows

module _ {Client : Type 0} (v : Services Client) (store : List ConnectionProfile) where
  scheduled-active :
      (s : Triggers) (id : String) (node : NodeSpec) (cron : Option String)
      (o : Triggers ⊎ TriggerError)
      → add_schedule_job s id node.id cron ≡ o
      → (scheduled v store s node cron o).0.active ≡ s.active
  unfolding scheduled add_schedule_job
  scheduled-active s id node cron (inr e) h = refl
  scheduled-active s id node none (inl t) h = absurd (ground arith)
  scheduled-active s id node (some c) (inl t) h = ground arith

  register_node-active :
      (s : Triggers) (id : String) (node : NodeSpec)
      → (register_node v store s id node).0.active ≡ s.active
  unfolding register_node add_route
  register_node-active s id node = elim (Bool-cases (node.type == "schedule_trigger")) [
    | inl h ↦ rw h (scheduled-active s id node (v.crontab (get node.config "cron")) _ refl)
    | inr h ↦ elim (Bool-cases (node.type == "webhook_trigger")) [
      | inl w ↦ rw (h, w) refl
      | inr w ↦ rw (h, w) refl
    ]
  ]

  then_rest-active :
      (r : Registered) (rest : Triggers → Registered)
      → ((s : Triggers) → (rest s).0.active ≡ s.active)
      → (then_rest r rest).0.active ≡ r.0.active
  then_rest-active (s, inr e) rest f = refl
  then_rest-active (s, inl ts) rest f = same (rest s) ∙ f s
    where
      same : (r : Registered) → (and_then ts r).0.active ≡ r.0.active
      same (t, inl us) = refl
      same (t, inr e) = refl

  pub register_triggers-active :
      (nodes : List NodeSpec) (s : Triggers) (id : String)
      → (register_triggers v store s id nodes).0.active ≡ s.active
  unfolding register_triggers
  register_triggers-active [] s id = refl
  register_triggers-active (node ∷ nodes) s id =
      then_rest-active (register_node v store s id node) _
        (λ t. register_triggers-active nodes t id)
      ∙ register_node-active s id node

  module _ (parse : String → Option GraphSpec) (id : String) (a : ActiveGraph) where
    -- The active graph is the one that the row stores, for the row's owner, and is valid for that owner.
    abbrev pub IsVouched : GraphRow → Type 0
    IsVouched row =
        (row.graph_id ≡ id)
        × (parse row.spec_json ≡ some a.graph)
        × (a.created_by ≡ row.created_by)
        × (validate_graph a.graph v.registry store row.created_by none ≡ [])

    reactivated-IsVouched :
        (s : Triggers) (row : GraphRow) (g : GraphSpec) (r : Registered)
        → parse row.spec_json ≡ some g
        → validate_graph g v.registry store row.created_by none ≡ []
        → r.0.active ≡ s.active
        → get (reactivated v store row g r).active id ≡ some a
        → (get s.active id ≡ some a) ⊎ IsVouched row
    unfolding reactivated set_active
    reactivated-IsVouched s row g (t, inr e) q k same h = inl (rw (← same) h)
    reactivated-IsVouched s row g (t, inl ts) q k same h =
        let new : ActiveGraph = record {
          graph_id = row.graph_id;
          graph = g;
          triggers = ts;
          created_by = row.created_by;
        } in
        elim (Bool-cases (row.graph_id == id)) [
          | inr d ↦ inl (rw (← same) (ground (arith, h, get-put t.active row.graph_id id new)))
          | inl d ↦
              let e : new ≡ a = ground (arith, h, get-put t.active row.graph_id id new) in
              inr (
                (==_iff row.graph_id id).0 d,
                q ∙ ap (λ (b : ActiveGraph). some b.graph) e,
                sym (ap (λ (b : ActiveGraph). b.created_by) e),
                subst
                    (λ (b : ActiveGraph).
                      validate_graph b.graph v.registry store row.created_by none ≡ [])
                    e k,
              )
        ]

    reactivate_row-IsVouched :
        (s : Triggers) (row : GraphRow) (o : Option GraphSpec)
        → parse row.spec_json ≡ o
        → get (reactivate_row v store s row o).active id ≡ some a
        → (get s.active id ≡ some a) ⊎ IsVouched row
    unfolding reactivate_row
    reactivate_row-IsVouched s row none q h = inl h
    reactivate_row-IsVouched s row (some g) q h =
        by_issues (validate_graph g v.registry store row.created_by none) refl h
      where
        by_issues :
            (issues : List ValidationIssue)
            → validate_graph g v.registry store row.created_by none ≡ issues
            → get (reactivate_valid v store s row g issues).active id ≡ some a
            → (get s.active id ≡ some a) ⊎ IsVouched row
        by_issues (i ∷ issues) k h = inl (unfold reactivate_valid in h)
        by_issues [] k h =
            reactivated-IsVouched s row g (register_triggers v store s row.graph_id g.nodes) q k
              (register_triggers-active g.nodes s row.graph_id) (unfold reactivate_valid in h)

    reactivate_rows-IsVouched :
        (rows : List GraphRow) (s : Triggers)
        → get (reactivate_rows v store parse s rows).active id ≡ some a
        → (get s.active id ≡ some a) ⊎ Any IsVouched rows
    unfolding reactivate_rows
    reactivate_rows-IsVouched [] s h = inl h
    reactivate_rows-IsVouched (row ∷ rows) s h =
        elim (reactivate_rows-IsVouched rows (reactivate_row v store s row (parse row.spec_json))
          h) [
            | inr later ↦ inr (inr later)
            | inl k ↦ elim (reactivate_row-IsVouched s row (parse row.spec_json) refl k) [
              | inl before ↦ inl before
              | inr by_row ↦ inr (inl by_row)
            ]
          ]

    -- After a start every graph that is active is the graph that a row stored as active holds under its id,
    -- runs as the owner of that row, and is valid for that owner.
    pub reactivate_persisted_graphs-IsVouched :
        (t : List GraphRow)
        → get (reactivate_persisted_graphs v store parse no_triggers t).active id ≡ some a
        → Any IsVouched (list_active_graphs t)
    unfolding reactivate_persisted_graphs
    reactivate_persisted_graphs-IsVouched t h =
        elim (reactivate_rows-IsVouched (list_active_graphs t) no_triggers h) [
          | inl k ↦ absurd (unfold get in ground arith)
          | inr by_row ↦ by_row
        ]
