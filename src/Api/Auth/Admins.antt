-- ===== src/Api/Auth/Admins.antt =====
-- backend/api/app.py: `require_auth` in front of `invite_user`.
use agent_graph_studio.Prelude.{
  Bool-cases, ◌==◌, string_eq, contains, String, ◌≡◌, refl, inl, inr, true, Option, none, some,
  List, arith, nat_eq, pair_eq, option_eq,
}
use agent_graph_studio.Auth.Tokens.{Payload, Claims, verify_token, is_text}
use agent_graph_studio.Storage.Users.{InviteRow}
use agent_graph_studio.Storage.InvokeKeys.{InvokeKeyRow}
use agent_graph_studio.Api.Auth.{
  AuthenticatedUser, RequestState, Request, supplied_of, on_scoped_route, auth_exempt_paths,
  with_key, by_invoke_key, by_key, by_claims, by_supplied, require_auth,
}
use agent_graph_studio.Api.Auth.SignIn.{invite_user}

with_key-user :
    (p : List InvokeKeyRow × Option InvokeKeyRow) (s : RequestState)
    → (with_key p).1 ≡ some s
    → s.user ≡ none
with_key-user (t, none) s h = absurd (ground arith)
with_key-user (t, some k) s h = ground arith

module _ (decode : String → Option Payload) (hash : String → String) (configured : String)
    (now : String) (t : List InvokeKeyRow) (r : Request) (s : RequestState) where
  by_invoke_key-user :
      (token : String) (o : Option String)
      → (by_invoke_key decode hash configured now t r o token).1 ≡ some s
      → s.user ≡ none
  unfolding by_invoke_key
  by_invoke_key-user token none h = absurd (ground arith)
  by_invoke_key-user token (some graph_id) h = with_key-user _ s h

  by_key-user :
      (token : String) → (by_key decode hash configured now t r token).1 ≡ some s → s.user ≡ none
  unfolding by_key
  by_key-user token h = elim (Bool-cases (token == configured)) [
    | inl c ↦ ground arith
    | inr c ↦ elim (Bool-cases (on_scoped_route r.route)) [
      | inr on ↦ absurd (ground arith)
      | inl on ↦ by_invoke_key-user token r.graph_id (ground arith)
    ]
  ]

  -- The session behind a user of a request.
  abbrev HasSession : AuthenticatedUser → String → Type 0
  HasSession u token =
      (c : Claims) × (verify_token decode token ≡ some c)
      × (c.role ≡ u.role)
      × (c.user_id ≡ u.user_id)

  by_claims-user :
      (token : String) (o : Option Claims) (u : AuthenticatedUser)
      → verify_token decode token ≡ o
      → (by_claims decode hash configured now t r token o).1 ≡ some s
      → s.user ≡ some u
      → HasSession u token
  unfolding by_claims
  by_claims-user token none u v h e = absurd (ground (arith, by_key-user token h))
  by_claims-user token (some c) u v h e = (c, v, ground arith, ground arith)

  by_supplied-user :
      (o : Option String) (u : AuthenticatedUser)
      → (by_supplied decode hash configured now t r o).1 ≡ some s
      → s.user ≡ some u
      → (token : String) × (o ≡ some token) × HasSession u token
  unfolding by_supplied
  by_supplied-user none u h e = absurd (ground arith)
  by_supplied-user (some token) u h e =
      (token, refl, by_claims-user token (verify_token decode token) u refl h e)

  require_auth-user :
      (u : AuthenticatedUser)
      → (require_auth decode hash configured now t r).1 ≡ some s
      → s.user ≡ some u
      → (token : String) × (supplied_of r ≡ some token) × HasSession u token
  unfolding require_auth
  require_auth-user u h e = elim (Bool-cases (contains auth_exempt_paths r.path)) [
    | inl x ↦ absurd (ground arith)
    | inr x ↦ by_supplied-user (supplied_of r) u (ground arith) e
  ]

  invite_user-by :
      (invites : List InviteRow) (o : Option AuthenticatedUser) (email role at : String)
      (i : InviteRow)
      → (invite_user invites o email role at).1 ≡ some i
      → (u : AuthenticatedUser) × (o ≡ some u) × (is_text "admin" (some u.role) ≡ true)
  unfolding invite_user
  invite_user-by invites none email role at i h = absurd (ground arith)
  invite_user-by invites (some u) email role at i h =
      elim (Bool-cases (is_text "admin" (some u.role))) [
        | inl a ↦ (u, refl, a)
        | inr a ↦ absurd (ground arith)
      ]

  -- An invitation that goes through was asked for with a valid session token of an administrator: no
  -- shared key and no invoke key can invite.
  pub require_auth-invite_user :
      (invites : List InviteRow) (email role at : String) (i : InviteRow)
      → (require_auth decode hash configured now t r).1 ≡ some s
      → (invite_user invites s.user email role at).1 ≡ some i
      → (token : String) × (c : Claims) × (supplied_of r ≡ some token)
        × (verify_token decode token ≡ some c)
        × (is_text "admin" (some c.role) ≡ true)
  require_auth-invite_user invites email role at i h k =
      let (u, is_u, admin) = invite_user-by invites s.user email role at i k in
      let (token, sent, session) = require_auth-user u h is_u in
      let (c, valid, same, _) = session in (token, c, sent, valid, rw same admin)
