-- ===== src/Api/Auth/Keys.antt =====
-- backend/api/app.py: what an invoke key is good for.
use agent_graph_studio.Prelude.{
  Bool-cases, ◌==◌, string_eq, contains, String, ◌≡◌, refl, ap, ◌∙◌, inl, inr, true, false, Option,
  none, some, List, arith, nat_eq, pair_eq, option_eq,
}
use agent_graph_studio.Auth.Tokens.{Claims, Payload, verify_token}
use agent_graph_studio.Storage.InvokeKeys.{InvokeKeyRow, Owned, validate_invoke_key-Owned}
use agent_graph_studio.Api.Auth.{
  Request, RequestState, on_scoped_route, auth_exempt_paths, supplied_of, with_key, by_invoke_key,
  by_key, by_claims, by_supplied, require_auth,
}

with_key-Owned :
    (hash : String → String) (graph_id token : String) (s : RequestState) (k : InvokeKeyRow)
    (p : List InvokeKeyRow × Option InvokeKeyRow)
    → Owned hash graph_id token p.1
    → (with_key p).1 ≡ some s
    → s.invoke_key ≡ some k
    → (s.user ≡ none) × (graph_id ≡ k.graph_id) × (k.key_hash ≡ hash token)
with_key-Owned hash graph_id token s k (t, none) o h e = absurd (ground arith)
with_key-Owned hash graph_id token s k (t, some q) o h e =
    (ground arith, ground (arith, o.0), ground (arith, o.1))

module _ (decode : String → Option Payload) (hash : String → String) (configured : String)
    (now : String) (t : List InvokeKeyRow) (r : Request) (s : RequestState) (k : InvokeKeyRow) where
  -- What a request that was admitted by an invoke key shows.
  abbrev pub Scoped : String → Type 0
  Scoped token =
      (on_scoped_route r.route ≡ true)
      × (r.graph_id ≡ some k.graph_id)
      × (k.key_hash ≡ hash token)
      × (s.user ≡ none)

  by_invoke_key-Scoped :
      (token : String) (o : Option String)
      → r.graph_id ≡ o
      → on_scoped_route r.route ≡ true
      → (by_invoke_key decode hash configured now t r o token).1 ≡ some s
      → s.invoke_key ≡ some k
      → Scoped token
  unfolding by_invoke_key
  by_invoke_key-Scoped token none g on h e = absurd (ground arith)
  by_invoke_key-Scoped token (some graph_id) g on h e =
      let (user, own, hashed) =
        with_key-Owned hash graph_id token s k _
          (validate_invoke_key-Owned hash t graph_id token (some now)) h e in
      (on, g ∙ ap some own, hashed, user)

  by_key-Scoped :
      (token : String)
      → (by_key decode hash configured now t r token).1 ≡ some s
      → s.invoke_key ≡ some k
      → Scoped token
  unfolding by_key
  by_key-Scoped token h e = elim (Bool-cases (token == configured)) [
    | inl c ↦ absurd (ground arith)
    | inr c ↦ elim (Bool-cases (on_scoped_route r.route)) [
      | inr on ↦ absurd (ground arith)
      | inl on ↦ by_invoke_key-Scoped token r.graph_id refl on (ground arith) e
    ]
  ]

  by_claims-Scoped :
      (token : String) (o : Option Claims)
      → (by_claims decode hash configured now t r token o).1 ≡ some s
      → s.invoke_key ≡ some k
      → Scoped token
  unfolding by_claims
  by_claims-Scoped token none h e = by_key-Scoped token h e
  by_claims-Scoped token (some c) h e = absurd (ground arith)

  by_supplied-Scoped :
      (o : Option String)
      → (by_supplied decode hash configured now t r o).1 ≡ some s
      → s.invoke_key ≡ some k
      → (token : String) × (o ≡ some token) × Scoped token
  unfolding by_supplied
  by_supplied-Scoped none h e = absurd (ground arith)
  by_supplied-Scoped (some token) h e =
      (token, refl, by_claims-Scoped token (verify_token decode token) h e)

  -- A request that is admitted by an invoke key is for one of the two routes that take such keys and for
  -- the key's own graph, carries a token with the key's hash, and has no user.
  pub require_auth-invoke_key :
      (require_auth decode hash configured now t r).1 ≡ some s
      → s.invoke_key ≡ some k
      → (token : String) × (supplied_of r ≡ some token) × Scoped token
  unfolding require_auth
  require_auth-invoke_key h e = elim (Bool-cases (contains auth_exempt_paths r.path)) [
    | inl x ↦ absurd (ground arith)
    | inr x ↦ by_supplied-Scoped (supplied_of r) (ground arith) e
  ]

module _ (decode : String → Option Payload) (hash : String → String) (configured : String)
    (now : String) (r : Request) where
  by_key-no_table :
      (t t' : List InvokeKeyRow) (token : String)
      → on_scoped_route r.route ≡ false
      → (by_key decode hash configured now t r token
          ≡ (t, (by_key decode hash configured now t' r token).1))
  unfolding by_key
  by_key-no_table t t' token h = ground arith

  by_supplied-no_table :
      (t t' : List InvokeKeyRow) (o : Option String)
      → on_scoped_route r.route ≡ false
      → by_supplied decode hash configured now t r o
        ≡ (t, (by_supplied decode hash configured now t' r o).1)
  unfolding by_supplied
  by_supplied-no_table t t' none h = refl
  by_supplied-no_table t t' (some token) h = by_verified (verify_token decode token)
    where
      by_verified :
          (c : Option Claims)
          → by_claims decode hash configured now t r token c
            ≡ (t, (by_claims decode hash configured now t' r token c).1)
      by_verified none = unfold by_claims in by_key-no_table t t' token h
      by_verified (some c) = unfold by_claims in refl

  -- On every other route the stored invoke keys play no part: they are left alone, and who is admitted,
  -- and as whom, is the same whatever keys there are.
  pub require_auth-other_route :
      (t t' : List InvokeKeyRow)
      → on_scoped_route r.route ≡ false
      → require_auth decode hash configured now t r
        ≡ (t, (require_auth decode hash configured now t' r).1)
  unfolding require_auth
  require_auth-other_route t t' h = elim (Bool-cases (contains auth_exempt_paths r.path)) [
    | inl x ↦ rw x refl
    | inr x ↦ rw x (by_supplied-no_table t t' (supplied_of r) h)
  ]
