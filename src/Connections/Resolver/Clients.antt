-- ===== src/Connections/Resolver/Clients.antt =====
-- backend/connections/resolver.py: `resolve_connections` beside `resolve_connection_profiles`.
use agent_graph_studio.Prelude.{
  Bool-cases, ◌==◌, ==_iff, string_eq, contains, String, ◌≡◌, refl, sym, subst, ◌∙◌, ◌≢◌, ◌⊎◌, inl,
  inr, true, Option, none, some, List, [], ◌∷◌, arith, nat_eq, pair_eq, option_eq,
}
use agent_graph_studio.Prelude.Dict.{Dict, get, put}
use agent_graph_studio.Schema.Models.{GraphSpec}
use agent_graph_studio.Connections.Store.{ConnectionProfile}
use agent_graph_studio.Connections.Resolver.{
  ResolveError, not_found, unknown_type, invalid_config, resolved, failed, ConnectionType,
  resolve_slot_aware, resolve_one, resolve_names, resolve_connections, resolve_connection_profiles,
  client_of, built, referenced_connection_names,
}

module _ (user_id : Option String) (mappings : Option (Dict String String))
    (store : List ConnectionProfile) {Client : Type 0}
    (types : Dict String (ConnectionType Client)) where
  -- An error of a connection that is there.
  abbrev IsFoundError : ResolveError → Type 0
  IsFoundError (not_found name) = ⊥
  IsFoundError (unknown_type name) = Unit
  IsFoundError (invalid_config name) = Unit

  client_of-IsFoundError :
      (name : String) (p : ConnectionProfile) (o : Option (ConnectionType Client))
      (e : ResolveError)
      → client_of user_id mappings store types name p o ≡ inr e
      → IsFoundError e
  unfolding client_of built
  client_of-IsFoundError name p none e h =
      subst IsFoundError {x = unknown_type name} (ground arith) tt
  client_of-IsFoundError name p (some t) e h = by_client (t.build_client p.config) e h
    where
      by_client :
          (o : Option Client) (x : ResolveError)
          → built user_id mappings store types name o ≡ inr x
          → IsFoundError x
      by_client none x k = subst IsFoundError {x = invalid_config name} (ground (arith, k)) tt
      by_client (some c) x k = absurd (ground (arith, k))

  abbrev to_profile : String → ConnectionProfile → ConnectionProfile ⊎ ResolveError
  to_profile name profile = inl profile

  abbrev to_client : String → ConnectionProfile → Client ⊎ ResolveError
  to_client name profile =
      client_of user_id mappings store types name profile (get types profile.type)

  resolve_names-missing :
      {A : Type 0} (use_profile : String → ConnectionProfile → A ⊎ ResolveError)
      (acc : Dict String A) (name : String) (names : List String)
      → resolve_slot_aware name user_id mappings store ≡ none
      → resolve_names user_id mappings store use_profile acc (name ∷ names)
        ≡ failed (not_found name)
  unfolding resolve_names resolve_one
  resolve_names-missing use_profile acc name names q = rw (q, resolve_names)

  resolve_names-next :
      {A : Type 0} (use_profile : String → ConnectionProfile → A ⊎ ResolveError)
      (acc : Dict String A) (name : String) (names : List String) (p : ConnectionProfile) (a : A)
      → resolve_slot_aware name user_id mappings store ≡ some p
      → use_profile name p ≡ inl a
      → resolve_names user_id mappings store use_profile acc (name ∷ names)
        ≡ resolve_names user_id mappings store use_profile (put acc name a) names
  unfolding resolve_names resolve_one
  resolve_names-next use_profile acc name names p a q u = rw (q, resolve_names, u) refl

  resolve_names-refused :
      {A : Type 0} (use_profile : String → ConnectionProfile → A ⊎ ResolveError)
      (acc : Dict String A) (name : String) (names : List String) (p : ConnectionProfile)
      (e : ResolveError)
      → resolve_slot_aware name user_id mappings store ≡ some p
      → use_profile name p ≡ inr e
      → resolve_names user_id mappings store use_profile acc (name ∷ names) ≡ failed e
  unfolding resolve_names resolve_one
  resolve_names-refused use_profile acc name names p e q u = rw (q, resolve_names, u) refl

  resolve_names-found :
      (names : List String) (acc d : Dict String ConnectionProfile) (clients : Dict String Client)
      (e : ResolveError)
      → resolve_names user_id mappings store to_profile acc names ≡ resolved d
      → resolve_names user_id mappings store to_client clients names ≡ failed e
      → IsFoundError e
  resolve_names-found [] acc d clients e h k = absurd (unfold resolve_names in ground arith)
  resolve_names-found (name ∷ names) acc d clients e h k =
      by_profile (resolve_slot_aware name user_id mappings store) refl
        (λ p a. resolve_names-found names (put acc name p) d (put clients name a) e)
    where
      by_client :
          (p : ConnectionProfile) (c : Client ⊎ ResolveError)
          → resolve_slot_aware name user_id mappings store ≡ some p
          → to_client name p ≡ c
          → ((a : Client)
              → resolve_names user_id mappings store to_profile (put acc name p) names ≡ resolved d
              → resolve_names user_id mappings store to_client (put clients name a) names ≡ failed e
              → IsFoundError e)
          → IsFoundError e
      by_client p (inr x) q c ih =
          subst IsFoundError {x = x}
            (ground (arith, k, resolve_names-refused to_client clients name names p x q c))
            (client_of-IsFoundError name p (get types p.type) x c)
      by_client p (inl a) q c ih =
          ih a (sym (resolve_names-next to_profile acc name names p p q refl) ∙ h)
            (sym (resolve_names-next to_client clients name names p a q c) ∙ k)

      by_profile :
          (o : Option ConnectionProfile)
          → resolve_slot_aware name user_id mappings store ≡ o
          → ((p : ConnectionProfile) (a : Client)
              → resolve_names user_id mappings store to_profile (put acc name p) names ≡ resolved d
              → resolve_names user_id mappings store to_client (put clients name a) names ≡ failed e
              → IsFoundError e)
          → IsFoundError e
      by_profile none q ih =
          absurd (ground (arith, h, resolve_names-missing to_profile acc name names q))
      by_profile (some p) q ih = by_client p (to_client name p) q refl (ih p)

  -- Where the profiles of a graph's connections resolve, no client is missing for want of a connection.
  pub resolve_connections-ne-not_found :
      (g : GraphSpec) (d : Dict String ConnectionProfile) (name : String)
      → resolve_connection_profiles user_id mappings store g ≡ resolved d
      → resolve_connections user_id mappings store types g ≢ failed (not_found name)
  unfolding resolve_connections resolve_connection_profiles
  resolve_connections-ne-not_found g d name h k =
      resolve_names-found (referenced_connection_names g) [] d [] (not_found name) h k

  resolve_names-some :
      (names : List String) (acc d : Dict String ConnectionProfile) (n : String)
      → resolve_names user_id mappings store to_profile acc names ≡ resolved d
      → contains names n ≡ true
      → resolve_slot_aware n user_id mappings store ≢ none
  resolve_names-some [] acc d n h c = absurd (ground arith)
  resolve_names-some (name ∷ names) acc d n h c =
      by_profile (resolve_slot_aware name user_id mappings store) refl
        (λ p. resolve_names-some names (put acc name p) d n)
    where
      by_profile :
          (o : Option ConnectionProfile)
          → resolve_slot_aware name user_id mappings store ≡ o
          → ((p : ConnectionProfile)
              → resolve_names user_id mappings store to_profile (put acc name p) names ≡ resolved d
              → contains names n ≡ true
              → resolve_slot_aware n user_id mappings store ≢ none)
          → resolve_slot_aware n user_id mappings store ≢ none
      by_profile none q ih =
          absurd (ground (arith, h, resolve_names-missing to_profile acc name names q))
      by_profile (some p) q ih = elim (Bool-cases (name == n)) [
        | inl e ↦
            let at : resolve_slot_aware n user_id mappings store ≡ some p =
              subst (λ (x : String). resolve_slot_aware x user_id mappings store ≡ some p)
                ((==_iff name n).0 e) q in
            λ k. absurd (ground (arith, at, k))
        | inr e ↦
            ih p (sym (resolve_names-next to_profile acc name names p p q refl) ∙ h)
              (ground (arith, c))
      ]

  -- Where the profiles of a graph's connections resolve, so does each name that it refers to.
  pub resolve_slot_aware-ne-none :
      (g : GraphSpec) (d : Dict String ConnectionProfile) (n : String)
      → resolve_connection_profiles user_id mappings store g ≡ resolved d
      → contains (referenced_connection_names g) n ≡ true
      → resolve_slot_aware n user_id mappings store ≢ none
  unfolding resolve_connection_profiles
  resolve_slot_aware-ne-none g d n h c =
      resolve_names-some (referenced_connection_names g) [] d n h c
