-- ===== src/Connections/Resolver/Sound.antt =====
-- backend/connections/resolver.py: what a resolved dictionary holds.
use agent_graph_studio.Prelude.{
  if◌then◌else◌, Bool-cases, Option-cases, is_some, ◌==◌, ==_iff, string_eq, All, All-append,
  contains, String, ◌≡◌, refl, sym, subst, ◌∙◌, ◌⊎◌, inl, inr, true, false, ◌||◌, Option, none,
  some, List, [], ◌∷◌, ◌++◌, arith,
}
use agent_graph_studio.Prelude.Dict.{Dict, get, put, get-put}
use agent_graph_studio.Schema.Models.{NodeSpec, GraphSpec}
use agent_graph_studio.Connections.Store.{ConnectionProfile}
use agent_graph_studio.Connections.Resolver.{
  connection_reference_names, add_names, referenced_from, referenced_connection_names,
  resolve_slot_aware, not_found, Resolved, resolved, failed, resolve_one, resolve_names,
  resolve_connection_profiles,
}

module _ (user_id : Option String) (mappings : Option (Dict String String))
    (store : List ConnectionProfile) where
  abbrev the_profile : String → Option ConnectionProfile
  the_profile name = resolve_slot_aware name user_id mappings store

  abbrev resolve_all : Dict String ConnectionProfile → List String → Resolved ConnectionProfile
  resolve_all = resolve_names user_id mappings store (λ name profile. inl profile)

  -- What a result says of one name.
  abbrev Agrees : Dict String ConnectionProfile → List String → Resolved ConnectionProfile → Type 0
  Agrees acc names (failed e) = Unit
  Agrees acc names (resolved d) =
      (n : String) → get d n ≡ (if contains names n then the_profile n else get acc n)

  abbrev step_of :
      Dict String ConnectionProfile
      → String
      → List String
      → Option ConnectionProfile
      → Resolved ConnectionProfile
  step_of acc name names none = failed (not_found name)
  step_of acc name names (some p) = resolve_all (put acc name p) names

  resolve_all-cons :
      (acc : Dict String ConnectionProfile) (name : String) (names : List String)
      (o : Option ConnectionProfile)
      → the_profile name ≡ o
      → resolve_all acc (name ∷ names) ≡ step_of acc name names o
  unfolding resolve_names resolve_one
  resolve_all-cons acc name names none h = rw (h, resolve_names)
  resolve_all-cons acc name names (some p) h = rw (h, resolve_names)

  resolve_step :
      (acc : Dict String ConnectionProfile) (name : String) (names : List String)
      (o : Option ConnectionProfile)
      → the_profile name ≡ o
      → ((p : ConnectionProfile)
          → Agrees (put acc name p) names (resolve_all (put acc name p) names))
      → Agrees acc (name ∷ names) (step_of acc name names o)
  resolve_step acc name names none h ih = tt
  resolve_step acc name names (some p) h ih = weaken (resolve_all (put acc name p) names) (ih p)
    where
      weaken :
          (r : Resolved ConnectionProfile)
          → Agrees (put acc name p) names r
          → Agrees acc (name ∷ names) r
      weaken (failed e) k = tt
      weaken (resolved d) k = λ n. k n ∙ split n (Bool-cases (name == n))
        where
          split :
              (n : String)
              → ((name == n) ≡ true) ⊎ ((name == n) ≡ false)
              → (if contains names n then the_profile n else get (put acc name p) n)
                ≡ (if name == n || contains names n then the_profile n else get acc n)
          split n (inl e) =
              let at : the_profile n ≡ some p =
                subst (λ (x : String). the_profile x ≡ some p) ((==_iff name n).0 e) h in
              ground (arith, get-put acc name n p)
          split n (inr e) = ground (arith, get-put acc name n p)

  resolve_all-Agrees :
      (names : List String) (acc : Dict String ConnectionProfile)
      → Agrees acc names (resolve_all acc names)
  unfolding resolve_names
  resolve_all-Agrees [] acc = λ n. refl
  resolve_all-Agrees (name ∷ names) acc =
      subst (Agrees acc (name ∷ names))
        (sym (resolve_all-cons acc name names (the_profile name) refl))
        (resolve_step acc name names (the_profile name) refl
          (λ p. resolve_all-Agrees names (put acc name p)))

  -- The profiles of a successful resolution are those of the names that the graph refers to, each the
  -- one that its name stands for, and of no others.
  pub get-resolve_connection_profiles :
      (g : GraphSpec) (d : Dict String ConnectionProfile) (n : String)
      → resolve_connection_profiles user_id mappings store g ≡ resolved d
      → get d n ≡ (
          if contains (referenced_connection_names g) n
          then resolve_slot_aware n user_id mappings store
          else none)
  unfolding resolve_connection_profiles get
  get-resolve_connection_profiles g d n h =
      (subst (Agrees [] (referenced_connection_names g)) h
          (resolve_all-Agrees (referenced_connection_names g) []))
        n

  resolve_all-resolved :
      (names : List String) (acc : Dict String ConnectionProfile)
      → All (λ n. is_some (the_profile n) ≡ true) names
      → (d : Dict String ConnectionProfile) × (resolve_all acc names ≡ resolved d)
  resolve_all-resolved [] acc h = (acc, unfold resolve_names in refl)
  resolve_all-resolved (name ∷ names) acc h = elim (Option-cases (the_profile name)) [
    | inl e ↦ absurd (ground arith)
    | inr (p, e) ↦
        let (d, r) = resolve_all-resolved names (put acc name p) h.1 in
        (d, resolve_all-cons acc name names (some p) e ∙ r)
  ]

  pub resolve_connection_profiles-resolved :
      (g : GraphSpec)
      → All
          (λ n. is_some (resolve_slot_aware n user_id mappings store) ≡ true)
          (referenced_connection_names g)
      → (d : Dict String ConnectionProfile) × (resolve_connection_profiles user_id mappings store g
          ≡ resolved d)
  unfolding resolve_connection_profiles
  resolve_connection_profiles-resolved g h =
      resolve_all-resolved (referenced_connection_names g) [] h

module _ (P : String → Type 0) where
  add_names-All : (names ns : List String) → All P names → All P ns → All P (add_names names ns)
  add_names-All names [] h k = h
  add_names-All names (n ∷ ns) h k = elim (Bool-cases (contains names n)) [
    | inl e ↦ rw e (add_names-All names ns h k.1)
    | inr e ↦
        rw e (add_names-All (names ++ n ∷ []) ns (All-append P names (n ∷ []) h (k.0, tt)) k.1)
  ]

  referenced_from-All :
      (nodes : List NodeSpec) (names : List String)
      → All P names
      → All (λ (node : NodeSpec). All P (connection_reference_names node.config)) nodes
      → All P (referenced_from names nodes)
  unfolding referenced_from
  referenced_from-All [] names h k = h
  referenced_from-All (node ∷ nodes) names h k =
      referenced_from-All nodes (add_names names (connection_reference_names node.config))
        (add_names-All names (connection_reference_names node.config) h k.0) k.1

  -- What holds of every reference of every node holds of the graph's references.
  pub referenced_connection_names-All :
      (g : GraphSpec)
      → All (λ (node : NodeSpec). All P (connection_reference_names node.config)) g.nodes
      → All P (referenced_connection_names g)
  unfolding referenced_connection_names
  referenced_connection_names-All g h = referenced_from-All g.nodes [] tt h
