-- ===== src/Examples/Accounts.antt =====
-- Accounts, sessions and keys: the theorems on sign-in and on credentials, at concrete requests.
use agent_graph_studio.Prelude.{
  if◌then◌else◌, is_some, ◌==◌, string_eq, String, ◌≡◌, refl, ◌≢◌, inl, true, Option, none, some,
  List, [], ◌∷◌, nat_eq, pair_eq, option_eq,
}
use agent_graph_studio.Prelude.Dict.{get}
use agent_graph_studio.Schema.Value.{text}
use agent_graph_studio.Auth.Tokens.{
  Payload, session_payload, state_payload, mcp_state_payload, verify_token, verify_state_token,
  verify_mcp_oauth_state_token, issue_token, is_text, OnePurpose, verify_token-OnePurpose,
}
use agent_graph_studio.Storage.Users.{
  UserRow, InviteRow, get_invite, get_user_by_email, create_user, add_invite,
}
use agent_graph_studio.Storage.Table.{select, insert}
use agent_graph_studio.Storage.InvokeKeys.{InvokeKeyRow, validate_invoke_key}
use agent_graph_studio.Api.Auth.{Request, RequestState, supplied_of, require_auth}
use agent_graph_studio.Api.Auth.Keys.{Scoped, require_auth-invoke_key}
use agent_graph_studio.Api.Auth.SignIn.{signed_in, google_callback, invite_user}
use agent_graph_studio.Api.Auth.Invited.{IsWelcome, google_callback-IsWelcome}

-- A signing that writes the kind of a payload, and its reading back.
abbrev kind_of : Payload → String
kind_of p = elim (get p "typ") [
  | none ↦ "session"
  | some v ↦ if is_text "oauth_state" (some v) then "state" else "mcp"
]

abbrev session : Payload
session = session_payload "u1" "ann@x" "admin" (text "1") (text "2")

abbrev state : Payload
state = state_payload "http://app" (text "1") (text "2")

abbrev mcp : Payload
mcp = mcp_state_payload "u1" "db" "v" "http://app" true (text "1") (text "2")

decode : String → Option Payload
decode t =
    if t == "session"
    then some session
    else if t == "state"
    then some state
    else if t == "mcp"
    then some mcp
    else none

encode : Payload → String
encode = kind_of

verify_token-OnePurpose_example :
    OnePurpose
      (is_some (verify_token decode "state"))
      (is_some (verify_state_token decode "state"))
      (is_some (verify_mcp_oauth_state_token decode "state"))
verify_token-OnePurpose_example = verify_token-OnePurpose decode "state"

abbrev invites : List InviteRow
invites = (record { email = "ann@x"; role = "admin"; invited_by = none; invited_at = "1" }) ∷ []

abbrev again : InviteRow
again = record { email = "ann@x"; role = "member"; invited_by = some "u1"; invited_at = "5" }

abbrev hash : String → String
hash t = t

abbrev key_row : InvokeKeyRow
key_row = record {
  key_id = "k";
  graph_id = "g";
  label = "";
  key_hash = "secret";
  key_prefix = "";
  timeout_seconds = 30;
  created_at = "1";
  created_by = none;
  last_used_at = none;
}

abbrev used_key : InvokeKeyRow
used_key = record key_row { last_used_at = some "9" }

abbrev invoke_request : Request
invoke_request = record {
  path = "/graphs/g/invoke";
  route = some "/graphs/{graph_id}/invoke";
  graph_id = some "g";
  authorization = some "Bearer secret";
  key = none;
}

abbrev by_key_state : RequestState
by_key_state = record { user = none; invoke_key = some used_key }

admitted_by_key :
    (require_auth decode hash "shared" "9" (key_row ∷ []) invoke_request).1 ≡ some by_key_state
unfolding require_auth supplied_of decode verify_token validate_invoke_key
admitted_by_key = refl

require_auth-invoke_key_example :
    (token : String) × (supplied_of invoke_request ≡ some token)
    × Scoped decode hash "shared" "9" (key_row ∷ []) invoke_request by_key_state used_key token
require_auth-invoke_key_example =
    require_auth-invoke_key decode hash "shared" "9" (key_row ∷ []) invoke_request by_key_state
      used_key admitted_by_key refl

abbrev invite_request : Request
invite_request = record {
  path = "/auth/invite";
  route = some "/auth/invite";
  graph_id = none;
  authorization = some "Bearer session";
  key = none;
}

abbrev ann_state : RequestState
ann_state = record {
  user = some (record { user_id = text "u1"; email = text "ann@x"; role = text "admin" });
  invoke_key = none;
}

admitted_ann : (require_auth decode hash "shared" "9" [] invite_request).1 ≡ some ann_state
unfolding require_auth supplied_of decode verify_token session_payload get
admitted_ann = refl

abbrev bob : InviteRow
bob = record { email = "bob@x"; role = "member"; invited_by = some "u1"; invited_at = "9" }

bob_invited : (invite_user invites ann_state.user "bob@x" "member" "9").1 ≡ some bob
unfolding invite_user add_invite
bob_invited = refl

abbrev ann : UserRow
ann = record {
  id = "u1";
  email = "ann@x";
  display_name = "Ann";
  role = "admin";
  created_at = "9";
  invited_by = none;
}

abbrev google_cookie : Option String
google_cookie = some "state"

ann_signed_in :
    google_callback encode decode
      (text "1")
      (text "2")
      "u1"
      "9"
      []
      invites
      (some "state")
      "state"
      (inl (record { email = "ann@x"; email_verified = true; name = "Ann" }))
    ≡ (ann ∷ [], signed_in (text "http://app") ann "session")
unfolding google_callback decode encode state_payload verify_state_token get get_invite
    get_user_by_email select create_user insert issue_token
ann_signed_in = refl

google_callback-IsWelcome_example :
    (google_cookie ≡ some "state")
    × (verify_state_token decode "state" ≢ none)
    × IsWelcome encode decode
        (text "1")
        (text "2")
        "u1"
        "9"
        []
        invites
        (ann ∷ [])
        (text "http://app")
        ann
        "session"
google_callback-IsWelcome_example =
    google_callback-IsWelcome encode decode (text "1") (text "2") "u1" "9" [] invites (ann ∷ [])
      (text "http://app") ann "session" google_cookie "state"
      (inl (record { email = "ann@x"; email_verified = true; name = "Ann" }))
      (record { ids = tt; emails = tt }) ann_signed_in
