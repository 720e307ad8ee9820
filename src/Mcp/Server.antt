-- ===== src/Mcp/Server.antt =====
-- backend/connections/mcp_server_connection.py and backend/mcp/transport.py: how a server is reached, and
-- `_server_config_for` of backend/mcp/generated_nodes.py, with whose credential.
use Prim.Native.String.{◌++◌ as str_append}
use agent_graph_studio.Prelude.{
  if◌then◌else◌, Bool-cases, string_eq, String, ◌≡◌, refl, ap, subst, ◌⊎◌, inl, inr, Bool, true,
  false, not, Option, none, some, List, arith, nat_eq, pair_eq, option_eq,
}
use agent_graph_studio.Prelude.Dict.{Dict, put}
use agent_graph_studio.Mcp.Secrets.{Cipher, Stored, missing, undecryptable, stored}
use agent_graph_studio.Mcp.ApiKeys.{McpApiKeyRow, get_api_key}
use agent_graph_studio.Mcp.Tokens.{
  McpOauthTokenRow, TokenResponse, AccessToken, valid, not_connected, no_refresh_token,
  refresh_failed, no_access_token, unreadable, get_valid_access_token,
}

-- `Literal["stdio", "remote"]` and `Literal["oauth2", "api_key", "bearer"]`
pub data Transport : Type 0 where
  stdio remote : Transport

pub data AuthType : Type 0 where
  oauth2 api_key bearer : AuthType

pub record McpServerConnectionConfig : Type 0 where
  pub transport : Transport
  pub command : String
  pub args : List String
  pub url : String
  pub headers : Dict String String
  pub trusted : Bool
  pub requires_oauth : Bool
  pub oauth_client_id : Option String
  pub oauth_client_secret : Option String
  pub oauth_scope : Option String
  pub credential_type : Option String
  pub auth_type : AuthType

pub record McpServerConfig : Type 0 where
  pub transport : Transport
  pub command : String
  pub args : List String
  pub url : String
  pub headers : Dict String String

abbrev pub transport_config : McpServerConnectionConfig → McpServerConfig
transport_config c = record {
  transport = c.transport;
  command = c.command;
  args = c.args;
  url = c.url;
  headers = c.headers;
}

-- `auth_type == "oauth2"`
abbrev pub is_oauth2 : AuthType → Bool
is_oauth2 oauth2 = true
is_oauth2 api_key = false
is_oauth2 bearer = false

-- The McpOAuthErrors, and the error of a secret that is not decrypted.
pub data CredentialError : Type 0 where
  key_without_owner key_not_connected oauth_without_owner key_unreadable : CredentialError
  no_valid_token : AccessToken → CredentialError

-- `{**base.headers, "Authorization": f"Bearer {secret}"}`
abbrev pub with_bearer : McpServerConfig → String → McpServerConfig
with_bearer c secret = record c {
  headers = put c.headers "Authorization" (str_append "Bearer " secret);
}

-- The two tables of credentials.
pub record Credentials : Type 0 where
  pub api_keys : List McpApiKeyRow
  pub tokens : List McpOauthTokenRow

abbrev pub Configured : Type 0
Configured = Credentials × (McpServerConfig ⊎ CredentialError)

module _ (cipher : Cipher) (expiring : String → Bool) (expires : String → String)
    (refresh : String → String → String → Option String → Option TokenResponse) (now : String) where
  abbrev pub with_stored_key : Credentials → McpServerConfig → Stored String → Configured
  with_stored_key s base missing = (s, inr key_not_connected)
  with_stored_key s base undecryptable = (s, inr key_unreadable)
  with_stored_key s base (stored k) = (s, inl (with_bearer base k))

  abbrev pub or_no_token : McpServerConfig → AccessToken → McpServerConfig ⊎ CredentialError
  or_no_token base (valid a) = inl (with_bearer base a)
  or_no_token base not_connected = inr (no_valid_token not_connected)
  or_no_token base no_refresh_token = inr (no_valid_token no_refresh_token)
  or_no_token base refresh_failed = inr (no_valid_token refresh_failed)
  or_no_token base no_access_token = inr (no_valid_token no_access_token)
  or_no_token base unreadable = inr (no_valid_token unreadable)

  abbrev pub with_token :
      Credentials → McpServerConfig → List McpOauthTokenRow × AccessToken → Configured
  with_token s base (t, a) = (record s { tokens = t }, or_no_token base a)

  unfoldable pub by_user_key : Credentials → McpServerConfig → String → Option String → Configured
  by_user_key s base name none = (s, inr key_without_owner)
  by_user_key s base name (some u) = with_stored_key s base (get_api_key cipher s.api_keys u name)

  unfoldable pub by_user_token : Credentials → McpServerConfig → String → Option String → Configured
  by_user_token s base name none = (s, inr oauth_without_owner)
  by_user_token s base name (some u) =
      with_token s base (get_valid_access_token cipher expiring expires refresh now s.tokens u name)

  unfoldable pub server_config_for :
      Credentials → McpServerConnectionConfig → String → Option String → Configured
  unfolding by_user_key by_user_token
  server_config_for s config name owner =
      let base = transport_config config in
      if not (is_oauth2 config.auth_type)
      then by_user_key s base name owner
      else if not config.requires_oauth
      then (s, inl base)
      else by_user_token s base name owner

  -- The configuration as it is, or with a key or a token that is the user's own for the connection.
  pub data IsOwn (s s' : Credentials) (name : String) (base c : McpServerConfig)
      : Option String → Type 0 where
    bare : {user : Option String} → c ≡ base → IsOwn s s' name base c user
    own_key :
        (u k : String)
        → get_api_key cipher s.api_keys u name ≡ stored k
        → c ≡ with_bearer base k
        → IsOwn s s' name base c (some u)
    own_token :
        (u a : String)
        → get_valid_access_token cipher expiring expires refresh now s.tokens u name
          ≡ (s'.tokens, valid a)
        → c ≡ with_bearer base a
        → IsOwn s s' name base c (some u)

  module _ (s s' : Credentials) (name : String) (c : McpServerConfig) where
    with_stored_key-IsOwn :
        (base : McpServerConfig) (u : String) (o : Stored String)
        → get_api_key cipher s.api_keys u name ≡ o
        → with_stored_key s base o ≡ (s', inl c)
        → IsOwn s s' name base c (some u)
    with_stored_key-IsOwn base u missing e h = absurd (ground arith)
    with_stored_key-IsOwn base u undecryptable e h = absurd (ground arith)
    with_stored_key-IsOwn base u (stored k) e h = own_key u k e (ground arith)

    with_token-IsOwn :
        (base : McpServerConfig) (u : String) (t : List McpOauthTokenRow) (o : AccessToken)
        → get_valid_access_token cipher expiring expires refresh now s.tokens u name ≡ (t, o)
        → with_token s base (t, o) ≡ (s', inl c)
        → IsOwn s s' name base c (some u)
    with_token-IsOwn base u t (valid a) e h =
        let same : t ≡ s'.tokens = ap (λ (x : Configured). x.0.tokens) h in
        own_token u a
          (subst
            (λ (x : List McpOauthTokenRow).
              get_valid_access_token cipher expiring expires refresh now s.tokens u name
              ≡ (x, valid a))
            same e)
          (ground arith)
    with_token-IsOwn base u t not_connected e h = absurd (ground arith)
    with_token-IsOwn base u t no_refresh_token e h = absurd (ground arith)
    with_token-IsOwn base u t refresh_failed e h = absurd (ground arith)
    with_token-IsOwn base u t no_access_token e h = absurd (ground arith)
    with_token-IsOwn base u t unreadable e h = absurd (ground arith)

    by_user_key-IsOwn :
        (base : McpServerConfig) (user : Option String)
        → by_user_key s base name user ≡ (s', inl c)
        → IsOwn s s' name base c user
    unfolding by_user_key
    by_user_key-IsOwn base none h = absurd (ground arith)
    by_user_key-IsOwn base (some u) h =
        with_stored_key-IsOwn base u (get_api_key cipher s.api_keys u name) refl h

    by_user_token-IsOwn :
        (base : McpServerConfig) (user : Option String)
        → by_user_token s base name user ≡ (s', inl c)
        → IsOwn s s' name base c user
    unfolding by_user_token
    by_user_token-IsOwn base none h = absurd (ground arith)
    by_user_token-IsOwn base (some u) h =
        let (t, o) = get_valid_access_token cipher expiring expires refresh now s.tokens u name in
        with_token-IsOwn base u t o refl h

    -- A server is called with the configuration of its connection, and with no credential but a key or a
    -- valid token that the given user has stored for the connection of that name.
    pub server_config_for-IsOwn :
        (config : McpServerConnectionConfig) (user : Option String)
        → server_config_for s config name user ≡ (s', inl c)
        → IsOwn s s' name (transport_config config) c user
    unfolding server_config_for
    server_config_for-IsOwn config user h = elim (Bool-cases (is_oauth2 config.auth_type)) [
      | inr e ↦ by_user_key-IsOwn (transport_config config) user (rw e at h)
      | inl e ↦ elim (Bool-cases config.requires_oauth) [
        | inl r ↦ by_user_token-IsOwn (transport_config config) user (rw (e, r) at h)
        | inr r ↦ let k = rw (e, r) at h in bare (ground arith)
      ]
    ]
