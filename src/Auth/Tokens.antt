-- ===== src/Auth/Tokens.antt =====
-- backend/auth/jwt.py: the three kinds of tokens. `encode` and `decode` are PyJWT's, with the secret and
-- the clock at the call; a decoded payload is a dictionary, and `none` any InvalidTokenError.
use agent_graph_studio.Prelude.{
  if◌then◌else◌, Bool-cases, is_some, ◌==◌, ==_iff, string_eq, String, ◌≡◌, refl, inl, inr, Bool,
  false, ◌&&◌, Option, none, some, [], ◌∷◌, arith, nat_eq, pair_eq, option_eq,
}
use agent_graph_studio.Prelude.Dict.{Dict, get}
use agent_graph_studio.Schema.Value.{Value, null, bool, number, text, array, object}

abbrev pub Payload : Type 0
Payload = Dict String Value

-- `payload.get(k) == s` for a text
abbrev pub is_text : String → Option Value → Bool
is_text s none = false
is_text s (some (text t)) = t == s
is_text s (some null) = false
is_text s (some (bool b)) = false
is_text s (some (number n)) = false
is_text s (some (array vs)) = false
is_text s (some (object fs)) = false

-- `payload.get(k)` where null and a missing key are both None
abbrev pub not_null : Option Value → Option Value
not_null none = none
not_null (some null) = none
not_null (some (text t)) = some (text t)
not_null (some (bool b)) = some (bool b)
not_null (some (number n)) = some (number n)
not_null (some (array vs)) = some (array vs)
not_null (some (object fs)) = some (object fs)

pub record Claims : Type 0 where
  pub user_id : Value
  pub email : Value
  pub role : Value

pub record McpOauthStateClaims : Type 0 where
  pub user_id : Value
  pub connection_name : Value
  pub code_verifier : Value
  pub redirect_to : Value
  pub popup : Value

-- The three constructors, where an absent value is the KeyError.
abbrev pub claims_of : Option Value → Option Value → Option Value → Option Claims
claims_of (some u) (some e) (some r) = some (record { user_id = u; email = e; role = r })
claims_of none e r = none
claims_of (some u) none r = none
claims_of (some u) (some e) none = none

abbrev pub or_false : Option Value → Value
or_false none = bool false
or_false (some v) = v

abbrev pub mcp_claims_of :
    Option Value → Option Value → Option Value → Option Value → Value → Option McpOauthStateClaims
mcp_claims_of (some u) (some c) (some v) (some r) popup =
    some (record {
      user_id = u;
      connection_name = c;
      code_verifier = v;
      redirect_to = r;
      popup = popup;
    })
mcp_claims_of none c v r popup = none
mcp_claims_of (some u) none v r popup = none
mcp_claims_of (some u) (some c) none r popup = none
mcp_claims_of (some u) (some c) (some v) none popup = none

-- What each verifier does with the result of `decode`.
unfoldable pub session_claims : Option Payload → Option Claims
session_claims none = none
session_claims (some p) =
    if is_some (not_null (get p "typ"))
    then none
    else claims_of (get p "sub") (get p "email") (get p "role")

unfoldable pub state_redirect : Option Payload → Option Value
state_redirect none = none
state_redirect (some p) =
    if is_text "oauth_state" (get p "typ") then not_null (get p "redirect_to") else none

unfoldable pub mcp_state_claims : Option Payload → Option McpOauthStateClaims
mcp_state_claims none = none
mcp_state_claims (some p) =
    if is_text "mcp_oauth_state" (get p "typ")
    then mcp_claims_of (get p "user_id") (get p "connection_name") (get p "code_verifier")
        (get p "redirect_to") (or_false (get p "popup"))
    else none

-- The payloads of `issue_token`, `issue_state_token` and `issue_mcp_oauth_state_token`, with the times
-- of issue and expiry.
unfoldable pub session_payload : String → String → String → Value → Value → Payload
session_payload user_id email role iat exp =
    ("sub", text user_id)
    ∷ ("email", text email)
    ∷ ("role", text role)
    ∷ ("iat", iat)
    ∷ ("exp", exp)
    ∷ []

unfoldable pub state_payload : String → Value → Value → Payload
state_payload redirect_to iat exp =
    ("typ", text "oauth_state")
    ∷ ("redirect_to", text redirect_to)
    ∷ ("iat", iat)
    ∷ ("exp", exp)
    ∷ []

unfoldable pub mcp_state_payload :
    String → String → String → String → Bool → Value → Value → Payload
mcp_state_payload user_id connection_name code_verifier redirect_to popup iat exp =
    ("typ", text "mcp_oauth_state")
    ∷ ("user_id", text user_id)
    ∷ ("connection_name", text connection_name)
    ∷ ("code_verifier", text code_verifier)
    ∷ ("redirect_to", text redirect_to)
    ∷ ("popup", bool popup)
    ∷ ("iat", iat)
    ∷ ("exp", exp)
    ∷ []

module _ (encode : Payload → String) where
  unfoldable pub issue_token : String → String → String → Value → Value → String
  unfolding session_payload
  issue_token user_id email role iat exp = encode (session_payload user_id email role iat exp)

  unfoldable pub issue_state_token : String → Value → Value → String
  unfolding state_payload
  issue_state_token redirect_to iat exp = encode (state_payload redirect_to iat exp)

  unfoldable pub issue_mcp_oauth_state_token :
      String → String → String → String → Bool → Value → Value → String
  unfolding mcp_state_payload
  issue_mcp_oauth_state_token user_id connection_name code_verifier redirect_to popup iat exp =
      encode (mcp_state_payload user_id connection_name code_verifier redirect_to popup iat exp)

module _ (decode : String → Option Payload) where
  unfoldable pub verify_token : String → Option Claims
  unfolding session_claims
  verify_token token = session_claims (decode token)

  unfoldable pub verify_state_token : String → Option Value
  unfolding state_redirect
  verify_state_token token = state_redirect (decode token)

  unfoldable pub verify_mcp_oauth_state_token : String → Option McpOauthStateClaims
  unfolding mcp_state_claims
  verify_mcp_oauth_state_token token = mcp_state_claims (decode token)

abbrev pub OnePurpose : Bool → Bool → Bool → Type 0
OnePurpose session state mcp =
    ((session && state) ≡ false) × ((session && mcp) ≡ false) × ((state && mcp) ≡ false)

-- What a token is good for, by the payload that is read from it.
payload_purpose :
    (o : Option Payload)
    → OnePurpose
        (is_some (session_claims o))
        (is_some (state_redirect o))
        (is_some (mcp_state_claims o))
unfolding session_claims state_redirect mcp_state_claims
payload_purpose none = (refl, refl, refl)
payload_purpose (some p) = by_typ (get p "typ") refl
  where
    by_typ :
        (t : Option Value)
        → get p "typ" ≡ t
        → OnePurpose
            (is_some (session_claims (some p)))
            (is_some (state_redirect (some p)))
            (is_some (mcp_state_claims (some p)))
    by_typ none e = rw e (ground arith, ground arith, refl)
    by_typ (some null) e = rw e (ground arith, ground arith, refl)
    by_typ (some (bool b)) e = rw e (refl, refl, refl)
    by_typ (some (number n)) e = rw e (refl, refl, refl)
    by_typ (some (array vs)) e = rw e (refl, refl, refl)
    by_typ (some (object fs)) e = rw e (refl, refl, refl)
    by_typ (some (text t)) e = elim (Bool-cases (t == "oauth_state")) [
      | inl k ↦ rw (e, (==_iff t "oauth_state").0 k) (refl, refl, ground arith)
      | inr k ↦ rw (e, k) (refl, refl, refl)
    ]

-- No token is accepted for two of the three purposes: a session, the state of a sign-in, and the state of
-- a connection's round trip.
pub verify_token-OnePurpose :
    (decode : String → Option Payload) (token : String)
    → OnePurpose
        (is_some (verify_token decode token))
        (is_some (verify_state_token decode token))
        (is_some (verify_mcp_oauth_state_token decode token))
unfolding verify_token verify_state_token verify_mcp_oauth_state_token
verify_token-OnePurpose decode token = payload_purpose (decode token)

module _ (encode : Payload → String) (decode : String → Option Payload) (iat exp : Value) where
  -- If the library reads back the payload that it signed, each kind of token is verified with exactly
  -- what it was issued for.
  pub issue_token-verify_token :
      (user_id email role connection verifier target : String) (popup : Bool)
      → decode (encode (session_payload user_id email role iat exp))
        ≡ some (session_payload user_id email role iat exp)
      → decode (encode (state_payload target iat exp)) ≡ some (state_payload target iat exp)
      → decode (encode (mcp_state_payload user_id connection verifier target popup iat exp))
        ≡ some (mcp_state_payload user_id connection verifier target popup iat exp)
      → (verify_token decode (issue_token encode user_id email role iat exp)
          ≡ some (record { user_id = text user_id; email = text email; role = text role }))
        × (verify_state_token decode (issue_state_token encode target iat exp) ≡ some (text target))
        × (verify_mcp_oauth_state_token decode
              (issue_mcp_oauth_state_token encode user_id connection verifier target popup iat exp)
            ≡ some (record {
              user_id = text user_id;
              connection_name = text connection;
              code_verifier = text verifier;
              redirect_to = text target;
              popup = bool popup;
            }))
  unfolding verify_token verify_state_token verify_mcp_oauth_state_token issue_token
      issue_state_token issue_mcp_oauth_state_token get
  issue_token-verify_token user_id email role connection verifier target popup h k l =
      rw (h, k, l) (refl, refl, refl)
