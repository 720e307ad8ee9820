-- ===== src/Api/Auth/SignIn.antt =====
-- backend/api/app.py: the routes of the Google sign-in, `get_me` and `invite_user`. The exchange of a
-- code with Google, the settings' public address, new ids, times and tokens are arguments.
use agent_graph_studio.Prelude.{
  if◌then◌else◌, ◌==◌, string_eq, String, ◌⊎◌, inl, inr, Bool, false, not, ◌&&◌, Option, none, some,
  List, nat_eq, pair_eq, option_eq,
}
use agent_graph_studio.Schema.Value.{Value, text, null, bool, number, array, object}
use agent_graph_studio.Auth.Tokens.{Payload, verify_state_token, issue_token, is_text}
use agent_graph_studio.Storage.Users.{
  UserRow, InviteRow, get_invite, get_user_by_email, get_user_by_id, create_user, add_invite,
}
use agent_graph_studio.Api.Auth.{AuthenticatedUser}

pub record GoogleUserInfo : Type 0 where
  pub email : String
  pub email_verified : Bool
  pub name : String

-- How the callback answers. A redirect goes to the frontend's address in the state token.
pub data CallbackEnd : Type 0 where
  state_mismatch state_invalid : CallbackEnd
  auth_error : Value → String → CallbackEnd
  not_invited : Value → CallbackEnd
  -- the user, and the session token in the fragment
  signed_in : Value → UserRow → String → CallbackEnd
  -- the IntegrityError of a user id that is taken
  store_error : CallbackEnd

-- `not oauth_state or oauth_state != state`
unfoldable pub state_matches : Option String → String → Bool
state_matches none state = false
state_matches (some cookie) state = not (cookie == "") && cookie == state

abbrev pub new_user : GoogleUserInfo → InviteRow → String → String → UserRow
new_user info invite id now = record {
  id = id;
  email = info.email;
  display_name = info.name;
  role = invite.role;
  created_at = now;
  invited_by = invite.invited_by;
}

-- `users` and the new id with the time stand for the account's table and `uuid4()`, `_utcnow_iso()`.
module _ (encode : Payload → String) (decode : String → Option Payload) (iat exp : Value)
    (id now : String) where
  abbrev pub token_of : UserRow → String
  token_of u = issue_token encode u.id u.email u.role iat exp

  abbrev pub created :
      List UserRow → Value → UserRow → Option (List UserRow) → List UserRow × CallbackEnd
  created users target u none = (users, store_error)
  created users target u (some users') = (users', signed_in target u (token_of u))

  unfoldable pub sign_in_user :
      List UserRow
      → Value
      → GoogleUserInfo
      → InviteRow
      → Option UserRow
      → List UserRow × CallbackEnd
  sign_in_user users target info invite (some u) = (users, signed_in target u (token_of u))
  sign_in_user users target info invite none =
      created users target (new_user info invite id now)
        (create_user users (new_user info invite id now))

  unfoldable pub check_invite :
      List UserRow → Value → GoogleUserInfo → Option InviteRow → List UserRow × CallbackEnd
  unfolding sign_in_user
  check_invite users target info none = (users, not_invited target)
  check_invite users target info (some invite) =
      sign_in_user users target info invite (get_user_by_email users info.email)

  unfoldable pub exchanged :
      List UserRow → List InviteRow → Value → GoogleUserInfo ⊎ String → List UserRow × CallbackEnd
  unfolding check_invite
  exchanged users invites target (inr e) = (users, auth_error target e)
  exchanged users invites target (inl info) =
      check_invite users target info (get_invite invites info.email)

  unfoldable pub with_redirect :
      List UserRow
      → List InviteRow
      → Option Value
      → GoogleUserInfo ⊎ String
      → List UserRow × CallbackEnd
  unfolding exchanged
  with_redirect users invites none answer = (users, state_invalid)
  with_redirect users invites (some target) answer = exchanged users invites target answer

  unfoldable pub google_callback :
      List UserRow
      → List InviteRow
      → Option String
      → String
      → GoogleUserInfo ⊎ String
      → List UserRow × CallbackEnd
  unfolding with_redirect state_matches
  google_callback users invites cookie state answer =
      if state_matches cookie state
      then with_redirect users invites (verify_state_token decode state) answer
      else (users, state_mismatch)

-- `get_me`: the row of the session's user; `none` is the 401
unfoldable pub get_me : List UserRow → Option AuthenticatedUser → Option UserRow
get_me users none = none
get_me users (some u) = elim (u.user_id) [
  | text id ↦ get_user_by_id users id
  | null ↦ none
  | bool b ↦ none
  | number n ↦ none
  | array vs ↦ none
  | object fs ↦ none
]

-- The subject of a session token is a text.
abbrev pub as_text : Value → Option String
as_text (text t) = some t
as_text null = none
as_text (bool b) = none
as_text (number n) = none
as_text (array vs) = none
as_text (object fs) = none

abbrev answered_invite : List InviteRow × InviteRow → List InviteRow × Option InviteRow
answered_invite (t, i) = (t, some i)

-- `none` is the 403.
unfoldable pub invite_user :
    List InviteRow
    → Option AuthenticatedUser
    → String
    → String
    → String
    → List InviteRow × Option InviteRow
invite_user t none email role now = (t, none)
invite_user t (some u) email role now =
    if is_text "admin" (some u.role)
    then answered_invite (
        add_invite t
          (record { email = email; role = role; invited_by = as_text u.user_id; invited_at = now }))
    else (t, none)
