-- ===== src/Api/Auth/Invited.antt =====
-- backend/api/app.py: who is signed in by `google_callback`, and who may invite.
use agent_graph_studio.Prelude.{
  if◌then◌else◌, Bool-cases, ◌==◌, ==_iff, string_eq, String, ◌≡◌, refl, sym, ap, subst, ◌∙◌, ◌≢◌,
  ◌⊎◌, inl, inr, true, Option, none, some, List, arith, nat_eq, pair_eq, option_eq,
}
use agent_graph_studio.Schema.Value.{Value}
use agent_graph_studio.Auth.Tokens.{Payload, verify_state_token}
use agent_graph_studio.Storage.Users.{
  UserRow, InviteRow, get_invite, get_user_by_email, create_user, IsUnique, create_user-IsUnique,
  get_user_by_email-email,
}
use agent_graph_studio.Api.Auth.SignIn.{
  GoogleUserInfo, state_matches, signed_in, new_user, token_of, created, sign_in_user, check_invite,
  exchanged, with_redirect, google_callback,
}

state_matches-eq :
    (cookie : Option String) (state : String)
    → state_matches cookie state ≡ true
    → cookie ≡ some state
unfolding state_matches
state_matches-eq none state h = absurd (ground arith)
state_matches-eq (some c) state h = ground (arith, ==_iff c state)

module _ (encode : Payload → String) (decode : String → Option Payload) (iat exp : Value)
    (id now : String) (users : List UserRow) (invites : List InviteRow) (users' : List UserRow)
    (target : Value) (u : UserRow) (token : String) where
  -- The user is invited and stored, has a token of its own, and the other accounts are as before.
  abbrev pub IsWelcome : Type 0
  IsWelcome =
      (get_invite invites u.email ≢ none)
      × (token ≡ token_of encode decode iat exp id now u)
      × IsUnique users'
      × ((email : String)
          → get_user_by_email users' email
            ≡ (if u.email == email then some u else get_user_by_email users email))

  created-IsWelcome :
      (v : UserRow) (invite : InviteRow) (o : Option (List UserRow)) (at : Value)
      → IsUnique users
      → get_invite invites v.email ≡ some invite
      → create_user users v ≡ o
      → created encode decode iat exp id now users at v o ≡ (users', signed_in target u token)
      → IsWelcome
  created-IsWelcome v invite none at k g c h = absurd (ground arith)
  created-IsWelcome v invite (some t) at k g c h =
      let (unique, by_email, _) = create_user-IsUnique users t v k c in
      let same : v ≡ u = ground arith in
      let after : t ≡ users' = ground arith in
      rw (← same, ← after) (λ e. cc, ground arith, unique, by_email)

  sign_in_user-IsWelcome :
      (info : GoogleUserInfo) (invite : InviteRow) (o : Option UserRow) (at : Value)
      → IsUnique users
      → get_invite invites info.email ≡ some invite
      → get_user_by_email users info.email ≡ o
      → sign_in_user encode decode iat exp id now users at info invite o
        ≡ (users', signed_in target u token)
      → IsWelcome
  unfolding sign_in_user
  sign_in_user-IsWelcome info invite none at k g f h =
      created-IsWelcome (new_user info invite id now) invite _ at k g refl h
  sign_in_user-IsWelcome info invite (some v) at k g f h =
      let same : v ≡ u = ground arith in
      let after : users ≡ users' = ground arith in
      let mail : v.email ≡ info.email = get_user_by_email-email users info.email v f in
      rw (← same, ← after)
        (
          λ e. cc (g, ap (get_invite invites) mail, e),
          ground arith,
          k,
          λ other. elim (Bool-cases (v.email == other)) [
            | inr d ↦ rw d refl
            | inl d ↦ rw d (
                subst (λ (x : String). get_user_by_email users x ≡ some v)
                  (sym mail ∙ (==_iff v.email other).0 d) f)
          ],
        )

  check_invite-IsWelcome :
      (info : GoogleUserInfo) (o : Option InviteRow) (at : Value)
      → IsUnique users
      → get_invite invites info.email ≡ o
      → check_invite encode decode iat exp id now users at info o
        ≡ (users', signed_in target u token)
      → IsWelcome
  unfolding check_invite
  check_invite-IsWelcome info none at k g h = absurd (ground arith)
  check_invite-IsWelcome info (some invite) at k g h =
      sign_in_user-IsWelcome info invite (get_user_by_email users info.email) at k g refl h

  exchanged-IsWelcome :
      (answer : GoogleUserInfo ⊎ String) (at : Value)
      → IsUnique users
      → exchanged encode decode iat exp id now users invites at answer
        ≡ (users', signed_in target u token)
      → IsWelcome
  unfolding exchanged
  exchanged-IsWelcome (inr e) at k h = absurd (ground arith)
  exchanged-IsWelcome (inl info) at k h =
      check_invite-IsWelcome info (get_invite invites info.email) at k refl h

  with_redirect-IsWelcome :
      (answer : GoogleUserInfo ⊎ String) (o : Option Value)
      → IsUnique users
      → with_redirect encode decode iat exp id now users invites o answer
        ≡ (users', signed_in target u token)
      → IsWelcome
  unfolding with_redirect
  with_redirect-IsWelcome answer none k h = absurd (ground arith)
  with_redirect-IsWelcome answer (some at) k h = exchanged-IsWelcome answer at k h

  -- A sign-in that succeeds showed the cookie of its own state, a valid state token; its user is invited,
  -- is stored under that email, and gets a token of its own account; ids and emails stay unique and no
  -- other account changes.
  pub google_callback-IsWelcome :
      (cookie : Option String) (state : String) (answer : GoogleUserInfo ⊎ String)
      → IsUnique users
      → google_callback encode decode iat exp id now users invites cookie state answer
        ≡ (users', signed_in target u token)
      → (cookie ≡ some state) × (verify_state_token decode state ≢ none) × IsWelcome
  unfolding google_callback with_redirect
  google_callback-IsWelcome cookie state answer k h =
      elim (Bool-cases (state_matches cookie state)) [
        | inr m ↦ absurd (ground arith)
        | inl m ↦
            let begun : with_redirect encode decode iat exp id now users invites
                  (verify_state_token decode state) answer
                ≡ (users', signed_in target u token) =
              ground arith in
            (
              state_matches-eq cookie state m,
              λ e. absurd (ground arith),
              with_redirect-IsWelcome answer (verify_state_token decode state) k begun,
            )
      ]
