-- ===== src/Api/Activation/Hooks.antt =====
-- backend/api/app.py: what jobs and routes are named after, and what a removal by prefix leaves.
use agent_graph_studio.Prelude.{
  Bool-cases, ◌==◌, ==_iff, string_eq, filter_list, All, All-map, String, ◌≡◌, refl, subst, inl,
  inr, Bool, true, not, ◌&&◌, List, [], ◌∷◌, arith, nat_eq, pair_eq, option_eq,
}
use Prim.Native.String.{◌++◌ as str_append}
use agent_graph_studio.Prelude.Dict.{has}
use agent_graph_studio.Prelude.Text.{starts_with, starts_with-append, str_append_assoc}
use agent_graph_studio.Triggers.Registry.{
  Hook, Triggers, job_id, job_prefix, webhook_path, route_prefix,
}

-- A job or route is named after the graph and node that it fires, and its graph is admitted.
abbrev pub IsHook : (String → String → String) → (String → Bool) → Hook → Type 0
IsHook name_of p h = (h.name ≡ name_of h.graph_id h.node_id) × (p h.graph_id ≡ true)

pub record Hooked (p : String → Bool) (s : Triggers) : Type 0 where
  pub hooked_jobs : All (IsHook job_id p) s.jobs
  pub hooked_routes : All (IsHook webhook_path p) s.routes

-- Every job and every route fires a graph that is active.
abbrev pub IsWired : Triggers → Type 0
IsWired s = Hooked (has s.active) s

pub All-IsHook_mono :
    (name_of : String → String → String) (p q : String → Bool) (hs : List Hook)
    → ((g : String) → p g ≡ true → q g ≡ true)
    → All (IsHook name_of p) hs
    → All (IsHook name_of q) hs
All-IsHook_mono name_of p q hs f = All-map _ _ hs (λ h o. (o.0, f h.graph_id o.1))

pub Hooked-mono :
    (p q : String → Bool) (s : Triggers)
    → ((g : String) → p g ≡ true → q g ≡ true)
    → Hooked p s
    → Hooked q s
Hooked-mono p q s f w = record {
  hooked_jobs = All-IsHook_mono job_id p q s.jobs f w.hooked_jobs;
  hooked_routes = All-IsHook_mono webhook_path p q s.routes f w.hooked_routes;
}

abbrev pub but : (String → Bool) → String → String → Bool
but p graph_id g = p g && not (g == graph_id)

-- What a filter by prefix leaves, when the names of a graph all have its prefix.
pub filter-IsHook :
    (name_of : String → String → String) (prefix : String → String)
    → ((g n : String) → starts_with (prefix g) (name_of g n) ≡ true)
    → (p : String → Bool) (graph_id : String) (hs : List Hook) → All (IsHook name_of p) hs
    → All
        (IsHook name_of (but p graph_id))
        (filter_list (λ h. not (starts_with (prefix graph_id) h.name)) hs)
filter-IsHook name_of prefix own p graph_id [] o = tt
filter-IsHook name_of prefix own p graph_id (h ∷ hs) o =
    let rest = filter-IsHook name_of prefix own p graph_id hs o.1 in
    elim (Bool-cases (starts_with (prefix graph_id) h.name)) [
      | inl s ↦ rw s rest
      | inr s ↦ rw s (
        (
          o.0.0,
          elim (Bool-cases (h.graph_id == graph_id)) [
            | inr d ↦ rw (d, o.0.1) refl
            | inl d ↦ absurd (
                ground (
                  arith,
                  s,
                  subst (λ (x : String). starts_with (prefix x) h.name ≡ true)
                      ((==_iff h.graph_id graph_id).0 d) (rw o.0.0 (own h.graph_id h.node_id)),
                ))
          ],
        ),
        rest,
      )
    ]

pub job_id-prefix : (g n : String) → starts_with (job_prefix g) (job_id g n) ≡ true
job_id-prefix g n = rw (← str_append_assoc g ":" n) (starts_with-append (str_append g ":") n)

pub webhook_path-prefix : (g n : String) → starts_with (route_prefix g) (webhook_path g n) ≡ true
webhook_path-prefix g n =
    rw (← str_append_assoc g "/" n, ← str_append_assoc "/webhooks/" (str_append g "/") n)
      (starts_with-append (str_append "/webhooks/" (str_append g "/")) n)
