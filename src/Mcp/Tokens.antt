-- ===== src/Mcp/Tokens.antt =====
-- backend/mcp/oauth_token_storage.py, and the part of backend/mcp/oauth_flow.py that stores and refreshes
-- tokens. The clock and the token endpoint are parameters; `LIMIT 1` without an order is the first row.
pub mod Refresh
use agent_graph_studio.Prelude.{
  if◌then◌else◌, ◌==◌, string_eq, find, String, Bool, false, Option, none, some, List, nat_eq,
  pair_eq, option_eq,
}
use agent_graph_studio.Storage.Table.{map_option, select, delete, deletes, upsert}
use agent_graph_studio.Mcp.Secrets.{
  Cipher, Stored, missing, undecryptable, stored, or_undecryptable, CredentialKey,
}

pub record McpOauthTokenRow : Type 0 where
  pub user_id : String
  pub connection_name : String
  pub access_token : String
  pub refresh_token : Option String
  pub expires_at : Option String
  pub token_type : String
  pub scope : Option String
  pub token_endpoint : String
  pub client_id : Option String
  pub client_secret : Option String
  pub updated_at : String

abbrev pub token_key : McpOauthTokenRow → CredentialKey
token_key r = (r.user_id, r.connection_name)

unfoldable pub find_any_token_user : List McpOauthTokenRow → String → Option String
find_any_token_user t name =
    map_option (λ (r : McpOauthTokenRow). r.user_id)
      (find (λ (r : McpOauthTokenRow). r.connection_name == name) t)

unfoldable pub delete_token : List McpOauthTokenRow → String → String → List McpOauthTokenRow × Bool
delete_token t user_id name =
    (delete token_key t (user_id, name), deletes token_key t (user_id, name))

-- What the token endpoint answers, where a field that is absent is none.
pub record TokenResponse : Type 0 where
  pub access_token : Option String
  pub refresh_token : Option String
  pub expires_in : Option String
  pub token_type : Option String
  pub scope : Option String

abbrev pub or_text : Option String → String → String
or_text none s = s
or_text (some t) s = t

-- `a`, else `b`
abbrev pub or_else : Option String → Option String → Option String
or_else none b = b
or_else (some a) b = some a

-- A token, or the McpOAuthErrors, or the error of a secret that is not decrypted.
pub data AccessToken : Type 0 where
  valid : String → AccessToken
  not_connected no_refresh_token refresh_failed no_access_token unreadable : AccessToken

module _ (cipher : Cipher) where
  open cipher use {encrypt, decrypt}

  -- `_encrypt` and `_decrypt`
  abbrev pub encrypt_option : Option String → Option String
  encrypt_option none = none
  encrypt_option (some s) = some (encrypt s)

  -- `none` is the error
  abbrev pub decrypt_option : Option String → Option (Option String)
  decrypt_option none = some none
  decrypt_option (some s) = map_option some (decrypt s)

  abbrev pub encrypted : McpOauthTokenRow → McpOauthTokenRow
  encrypted r = record r {
    access_token = encrypt r.access_token;
    refresh_token = encrypt_option r.refresh_token;
    client_secret = encrypt_option r.client_secret;
  }

  -- The row's user and connection stay when a row is replaced.
  abbrev pub replaced_by : McpOauthTokenRow → McpOauthTokenRow → McpOauthTokenRow
  replaced_by r q = record r { user_id = q.user_id; connection_name = q.connection_name }

  unfoldable pub save_token : List McpOauthTokenRow → McpOauthTokenRow → List McpOauthTokenRow
  save_token t r = upsert token_key t (encrypted r) (replaced_by (encrypted r))

  abbrev pub with_secrets :
      McpOauthTokenRow
      → Option String
      → Option (Option String)
      → Option (Option String)
      → Option McpOauthTokenRow
  with_secrets r none refresh secret = none
  with_secrets r (some access) none secret = none
  with_secrets r (some access) (some refresh) none = none
  with_secrets r (some access) (some refresh) (some secret) =
      some (record r { access_token = access; refresh_token = refresh; client_secret = secret })

  abbrev pub read_token : Option McpOauthTokenRow → Stored McpOauthTokenRow
  read_token none = missing
  read_token (some r) = or_undecryptable (
      with_secrets r (decrypt r.access_token) (decrypt_option r.refresh_token)
        (decrypt_option r.client_secret))

  unfoldable pub get_token : List McpOauthTokenRow → String → String → Stored McpOauthTokenRow
  get_token t user_id name = read_token (select token_key t (user_id, name))

  -- `expiring` is `_is_expiring_soon`, `expires` the absolute time of a number of seconds, and `refresh` the
  -- call of the token endpoint with a refresh token, the client's id and its secret.
  module _ (expiring : String → Bool) (expires : String → String)
      (refresh : String → String → String → Option String → Option TokenResponse)
      (now : String) where
    abbrev pub token_row :
        String
        → String
        → TokenResponse
        → String
        → String
        → Option String
        → Option String
        → McpOauthTokenRow
    token_row user_id name r access endpoint client_id secret = record {
      user_id = user_id;
      connection_name = name;
      access_token = access;
      refresh_token = r.refresh_token;
      expires_at = map_option expires r.expires_in;
      token_type = or_text r.token_type "Bearer";
      scope = r.scope;
      token_endpoint = endpoint;
      client_id = client_id;
      client_secret = secret;
      updated_at = now;
    }

    -- `none` is the McpOAuthError of a response with no access token, or an empty one.
    unfoldable pub store_token_response :
        List McpOauthTokenRow
        → String
        → String
        → TokenResponse
        → String
        → Option String
        → Option String
        → Option (List McpOauthTokenRow × String)
    store_token_response t user_id name r endpoint client_id secret = elim r.access_token [
      | none ↦ none
      | some access ↦
          if access == ""
          then none
          else some
              (save_token t (token_row user_id name r access endpoint client_id secret), access)
    ]

    abbrev pub stored_or_failed :
        List McpOauthTokenRow
        → Option (List McpOauthTokenRow × String)
        → List McpOauthTokenRow × AccessToken
    stored_or_failed t none = (t, no_access_token)
    stored_or_failed t (some (t', access)) = (t', valid access)

    unfoldable pub refreshed :
        List McpOauthTokenRow
        → String
        → String
        → McpOauthTokenRow
        → String
        → Option TokenResponse
        → List McpOauthTokenRow × AccessToken
    unfolding store_token_response
    refreshed t user_id name row old none = (t, refresh_failed)
    refreshed t user_id name row old (some r) = stored_or_failed t (
        store_token_response t user_id name
          (record r { refresh_token = or_else r.refresh_token (some old) }) row.token_endpoint
          row.client_id row.client_secret)

    unfoldable pub refresh_row :
        List McpOauthTokenRow
        → String
        → String
        → McpOauthTokenRow
        → Option String
        → List McpOauthTokenRow × AccessToken
    unfolding refreshed
    refresh_row t user_id name row none = (t, no_refresh_token)
    refresh_row t user_id name row (some old) =
        refreshed t user_id name row old
          (refresh row.token_endpoint old (or_text row.client_id "") row.client_secret)

    abbrev pub is_expiring : Option String → Bool
    is_expiring none = false
    is_expiring (some at) = expiring at

    unfoldable pub valid_token :
        List McpOauthTokenRow
        → String
        → String
        → Stored McpOauthTokenRow
        → List McpOauthTokenRow × AccessToken
    unfolding refresh_row
    valid_token t user_id name missing = (t, not_connected)
    valid_token t user_id name undecryptable = (t, unreadable)
    valid_token t user_id name (stored row) =
        if is_expiring row.expires_at
        then refresh_row t user_id name row row.refresh_token
        else (t, valid row.access_token)

    unfoldable pub get_valid_access_token :
        List McpOauthTokenRow → String → String → List McpOauthTokenRow × AccessToken
    unfolding valid_token get_token
    get_valid_access_token t user_id name = valid_token t user_id name (get_token t user_id name)
