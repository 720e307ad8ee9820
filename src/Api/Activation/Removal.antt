-- ===== src/Api/Activation/Removal.antt =====
-- backend/api/app.py and backend/triggers/scheduler.py: what a removal by prefix takes away.
use Prim.Native.Char.{Char}
use Prim.Native.String.{◌++◌ as str_append}
use Prim.Native.String.append
use agent_graph_studio.Prelude.{
  Bool-cases, ◌==◌, ==_iff, string_eq, any, filter_list, All, String, ◌≡◌, refl, sym, subst, ◌∙◌,
  inl, inr, true, false, not, List, [], ◌∷◌, arith, nat_eq, pair_eq, option_eq,
}
use agent_graph_studio.Prelude.Text.{
  starts_with, lacks, starts_with-delimited, str_append_assoc, starts_with-append_both,
}
use agent_graph_studio.Triggers.Registry.{
  Hook, Triggers, job_id, job_prefix, webhook_path, route_prefix, remove_jobs_for_graph,
  remove_routes,
}
use agent_graph_studio.Api.Activation.Hooks.{job_id-prefix, webhook_path-prefix}

abbrev pub colon : Char
colon = ":"

abbrev pub slash : Char
slash = "/"

-- The hook has the name of its graph and node, and the id of its graph lacks the separator.
abbrev pub IsPlain : (String → String → String) → Char → Hook → Type 0
IsPlain name_of c h = (h.name ≡ name_of h.graph_id h.node_id) × (lacks c h.graph_id ≡ true)

one_append : (c : Char) (n : String) → str_append (String.◌∷◌ c String.[]) n ≡ String.◌∷◌ c n
one_append c n = rw (append.cons c String.[] n, append.nil n) refl

job_id-only :
    (g h n : String)
    → lacks colon g ≡ true
    → lacks colon h ≡ true
    → starts_with (job_prefix g) (job_id h n) ≡ true
    → g ≡ h
job_id-only g h n p q r =
    starts_with-delimited colon g h n p q
      (subst (λ x. starts_with (job_prefix g) (str_append h x) ≡ true) (one_append colon n) r)

webhook_path-only :
    (g h n : String)
    → lacks slash g ≡ true
    → lacks slash h ≡ true
    → starts_with (route_prefix g) (webhook_path h n) ≡ true
    → g ≡ h
webhook_path-only g h n p q r = starts_with-delimited slash g h n p q (
    subst (λ x. starts_with (str_append g "/") (str_append h x) ≡ true) (one_append slash n)
      (rw starts_with-append_both at r))

module _ (name_of : String → String → String) (prefix : String → String) (c : Char)
    (own : (g n : String) → starts_with (prefix g) (name_of g n) ≡ true)
    (only : (g h n : String)
      → lacks c g ≡ true
      → lacks c h ≡ true
      → starts_with (prefix g) (name_of h n) ≡ true
      → g ≡ h) where
  starts_with-same :
      (g : String) (h : Hook)
      → lacks c g ≡ true
      → IsPlain name_of c h
      → starts_with (prefix g) h.name ≡ (h.graph_id == g)
  starts_with-same g h l p = elim (Bool-cases (h.graph_id == g)) [
    | inl e ↦
        subst (λ (x : String). starts_with (prefix x) h.name ≡ true) ((==_iff h.graph_id g).0 e)
          (subst (λ x. starts_with (prefix h.graph_id) x ≡ true) (sym p.0)
            (own h.graph_id h.node_id))
        ∙ sym e
    | inr d ↦ elim (Bool-cases (starts_with (prefix g) h.name)) [
      | inr s ↦ s ∙ sym d
      | inl s ↦ absurd (
          ground (
            arith,
            ==_iff h.graph_id g,
            sym (
                only g h.graph_id h.node_id l p.1
                  (subst (λ x. starts_with (prefix g) x ≡ true) p.0 s)),
          ))
    ]
  ]

  filter-same :
      (g : String) (hs : List Hook)
      → lacks c g ≡ true
      → All (IsPlain name_of c) hs
      → filter_list (λ h. not (starts_with (prefix g) h.name)) hs
        ≡ filter_list (λ (h : Hook). not (h.graph_id == g)) hs
  filter-same g [] l p = refl
  filter-same g (h ∷ hs) l p = ground (arith, starts_with-same g h l p.0, filter-same g hs l p.1)

-- For graphs whose ids have no colon and no slash, removing a graph's jobs and routes takes away those
-- of that graph and no others.
pub remove_jobs_for_graph-only :
    (s : Triggers) (graph_id : String)
    → lacks colon graph_id ≡ true
    → lacks slash graph_id ≡ true
    → All (IsPlain job_id colon) s.jobs
    → All (IsPlain webhook_path slash) s.routes
    → (remove_routes (remove_jobs_for_graph s graph_id) graph_id ≡ record s {
      jobs = filter_list (λ (h : Hook). not (h.graph_id == graph_id)) s.jobs;
      routes = filter_list (λ (h : Hook). not (h.graph_id == graph_id)) s.routes;
    })
unfolding remove_routes remove_jobs_for_graph
remove_jobs_for_graph-only s graph_id l m p q =
    rw
      (
        filter-same job_id job_prefix colon job_id-prefix job_id-only graph_id s.jobs l p,
        filter-same webhook_path route_prefix slash webhook_path-prefix webhook_path-only graph_id
            s.routes m q,
      )
      refl

job_id-extended :
    (g x n : String)
    → starts_with (job_prefix g) (job_id (str_append g (str_append ":" x)) n) ≡ true
job_id-extended g x n =
    rw
      (
        str_append_assoc g (str_append ":" x) (str_append ":" n),
        str_append_assoc ":" x (str_append ":" n),
      )
      (job_id-prefix g (str_append x (str_append ":" n)))

-- Removing the jobs of a graph takes away every job of a graph whose id goes on after it with a colon.
pub remove_jobs_for_graph-extended :
    (s : Triggers) (graph_id rest : String)
    → All (λ (h : Hook). h.name ≡ job_id h.graph_id h.node_id) s.jobs
    → any
        (λ (h : Hook). h.graph_id == str_append graph_id (str_append ":" rest))
        (remove_jobs_for_graph s graph_id).jobs
      ≡ false
unfolding remove_jobs_for_graph
remove_jobs_for_graph-extended s graph_id rest = by_jobs s.jobs
  where
    by_jobs :
        (hs : List Hook)
        → All (λ (h : Hook). h.name ≡ job_id h.graph_id h.node_id) hs
        → any
            (λ (h : Hook). h.graph_id == str_append graph_id (str_append ":" rest))
            (filter_list (λ h. not (starts_with (job_prefix graph_id) h.name)) hs)
          ≡ false
    by_jobs [] p = refl
    by_jobs (h ∷ hs) p = elim (Bool-cases (starts_with (job_prefix graph_id) h.name)) [
      | inl k ↦ rw k (by_jobs hs p.1)
      | inr k ↦ rw k (elim (Bool-cases (h.graph_id == str_append graph_id (str_append ":" rest))) [
        | inr d ↦ rw d (by_jobs hs p.1)
        | inl e ↦ absurd (
            ground (
              arith,
              k,
              subst (λ x. starts_with (job_prefix graph_id) x ≡ true) (sym p.0)
                  (subst
                    (λ (x : String). starts_with (job_prefix graph_id) (job_id x h.node_id) ≡ true)
                    (sym ((==_iff h.graph_id (str_append graph_id (str_append ":" rest))).0 e))
                    (job_id-extended graph_id rest h.node_id)),
            ))
      ])
    ]
