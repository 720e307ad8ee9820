-- ===== src/Api/Auth.antt =====
-- backend/api/app.py: the credential check in front of every route, the sign-in routes and the checks of
-- a caller's role. A request is given by what the check reads of it.
pub mod SignIn
pub mod Keys
pub mod Invited
pub mod Admins
use Prim.Native.Char.{code}
use agent_graph_studio.Prelude.{
  if◌then◌else◌, ◌==◌, string_eq, contains, String, Bool, true, false, Option, none, some, List, [],
  ◌∷◌, nat_eq, pair_eq, option_eq,
}
use agent_graph_studio.Schema.Value.{Value}
use agent_graph_studio.Auth.Tokens.{Claims, Payload, verify_token, is_text}
use agent_graph_studio.Storage.InvokeKeys.{InvokeKeyRow, validate_invoke_key}

pub record AuthenticatedUser : Type 0 where
  pub user_id : Value
  pub email : Value
  pub role : Value

-- `request.state`
pub record RequestState : Type 0 where
  pub user : Option AuthenticatedUser
  pub invoke_key : Option InvokeKeyRow

-- `path` is the path of the url, `route` the template of the matched route.
pub record Request : Type 0 where
  pub path : String
  pub route : Option String
  pub graph_id : Option String
  pub authorization : Option String
  pub key : Option String

abbrev pub auth_exempt_paths : List String
auth_exempt_paths =
    "/health" ∷ "/docs" ∷ "/openapi.json" ∷ "/redoc" ∷ "/auth/google/login"
    ∷ "/auth/google/callback" ∷ "/connections/oauth/callback" ∷ []

abbrev pub invoke_key_scoped_routes : List String
invoke_key_scoped_routes = "/graphs/{graph_id}/invoke" ∷ "/graphs/{graph_id}/contract" ∷ []

abbrev pub anonymous : RequestState
anonymous = record { user = none; invoke_key = none }

-- `s[len(prefix):]` if `s.startswith(prefix)`
abbrev after_prefix : String → String → Option String
after_prefix String.[] s = some s
after_prefix (String.◌∷◌ c p) String.[] = none
after_prefix (String.◌∷◌ c p) (String.◌∷◌ d s) = if code c == code d then after_prefix p s else none

-- A text that is not empty.
abbrev pub non_empty : Option String → Option String
non_empty none = none
non_empty (some s) = if s == "" then none else some s

abbrev bearer : Option String → Option String
bearer none = none
bearer (some s) = after_prefix "Bearer " s

-- `supplied`, or none if it is missing or empty
abbrev pub from_header : Option String → Option String → Option String
from_header none key = non_empty key
from_header (some token) key = non_empty (some token)

unfoldable pub supplied_of : Request → Option String
supplied_of r = from_header (bearer r.authorization) r.key

abbrev signed_in_as : Claims → RequestState
signed_in_as c = record {
  user = some (record { user_id = c.user_id; email = c.email; role = c.role });
  invoke_key = none;
}

abbrev pub on_scoped_route : Option String → Bool
on_scoped_route none = false
on_scoped_route (some route) = contains invoke_key_scoped_routes route

abbrev pub with_key :
    List InvokeKeyRow × Option InvokeKeyRow → List InvokeKeyRow × Option RequestState
with_key (t, none) = (t, none)
with_key (t, some k) = (t, some (record { user = none; invoke_key = some k }))

-- `configured` is the shared key; `none` is the 401.
module _ (decode : String → Option Payload) (hash : String → String) (configured : String)
    (now : String) where
  -- The third kind of credential, on the two routes.
  unfoldable pub by_invoke_key :
      List InvokeKeyRow → Request → Option String → String → List InvokeKeyRow × Option RequestState
  by_invoke_key t r none token = (t, none)
  by_invoke_key t r (some graph_id) token =
      with_key (validate_invoke_key hash t graph_id token (some now))

  unfoldable pub by_key :
      List InvokeKeyRow → Request → String → List InvokeKeyRow × Option RequestState
  unfolding by_invoke_key
  by_key t r token =
      if token == configured
      then (t, some anonymous)
      else if on_scoped_route r.route
      then by_invoke_key t r r.graph_id token
      else (t, none)

  unfoldable pub by_claims :
      List InvokeKeyRow → Request → String → Option Claims → List InvokeKeyRow × Option RequestState
  unfolding by_key
  by_claims t r token (some c) = (t, some (signed_in_as c))
  by_claims t r token none = by_key t r token

  unfoldable pub by_supplied :
      List InvokeKeyRow → Request → Option String → List InvokeKeyRow × Option RequestState
  unfolding by_claims
  by_supplied t r none = (t, none)
  by_supplied t r (some token) = by_claims t r token (verify_token decode token)

  unfoldable pub require_auth :
      List InvokeKeyRow → Request → List InvokeKeyRow × Option RequestState
  unfolding by_supplied
  require_auth t r =
      if contains auth_exempt_paths r.path
      then (t, some anonymous)
      else by_supplied t r (supplied_of r)

unfoldable pub caller_user_id : RequestState → Option Value
caller_user_id s = elim (s.user) [ none ↦ none | some u ↦ some u.user_id ]

unfoldable pub caller_role : RequestState → Option Value
caller_role s = elim (s.user) [ none ↦ none | some u ↦ some u.role ]

-- `_require_admin`; false is the 403
unfoldable pub require_admin : RequestState → Bool
require_admin s = elim (s.user) [ none ↦ true | some u ↦ is_text "admin" (some u.role) ]
