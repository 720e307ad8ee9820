-- ===== src/Examples/Servers.antt =====
-- Tool servers: `ann` has a private connection `mail` with her key, and `bob` is another user.
use agent_graph_studio.Prelude.{
  string_eq, String, ◌≡◌, refl, ◌⊎◌, inl, true, false, Option, none, some, List, [], ◌∷◌, nat_eq,
  pair_eq, option_eq,
}
use agent_graph_studio.Storage.Table.{select, upsert}
use agent_graph_studio.Mcp.Secrets.{Cipher, missing, stored}
use agent_graph_studio.Mcp.ApiKeys.{
  McpApiKeyRow, save_api_key, get_api_key, delete_api_key, get_api_key-save_api_key,
}
use agent_graph_studio.Mcp.Tokens.{
  McpOauthTokenRow, TokenResponse, valid, save_token, get_token, store_token_response, refreshed,
  refresh_row, valid_token, get_valid_access_token,
}
use agent_graph_studio.Mcp.Tokens.Refresh.{IsStored, IsRefreshed, get_valid_access_token-IsFresh}
use agent_graph_studio.Mcp.Server.{
  McpServerConnectionConfig, McpServerConfig, remote, api_key, Credentials, Configured,
  transport_config, with_bearer, by_user_key, server_config_for, IsOwn, server_config_for-IsOwn,
}

-- The texts stand for themselves.
abbrev pub cipher : Cipher
cipher = record { encrypt = λ t. t; decrypt = λ t. some t; decrypt-encrypt = λ t. refl }

abbrev no_keys : List McpApiKeyRow
no_keys = []

get_api_key-save_api_key_example :
    (get_api_key cipher (save_api_key cipher no_keys "ann" "mail" "k" "1") "ann" "mail"
      ≡ stored "k")
    × (get_api_key cipher (delete_api_key no_keys "ann" "mail").0 "ann" "mail" ≡ missing)
get_api_key-save_api_key_example =
    get_api_key-save_api_key cipher no_keys "ann" "mail" "k" "1" "ann" "mail"

-- A token that has expired, and the endpoint's answer, which has no refresh token.
abbrev old_token : McpOauthTokenRow
old_token = record {
  user_id = "ann";
  connection_name = "mail";
  access_token = "a";
  refresh_token = some "r";
  expires_at = some "1";
  token_type = "Bearer";
  scope = none;
  token_endpoint = "https://mail/token";
  client_id = some "c";
  client_secret = none;
  updated_at = "1";
}

abbrev answer : TokenResponse
answer = record {
  access_token = some "b";
  refresh_token = none;
  expires_in = none;
  token_type = none;
  scope = none;
}

abbrev new_token : McpOauthTokenRow
new_token = record old_token { access_token = "b"; expires_at = none; updated_at = "2" }

abbrev refresh : String → String → String → Option String → Option TokenResponse
refresh endpoint token id secret = some answer

token_refreshed :
    get_valid_access_token cipher (λ t. true) (λ s. s) refresh "2" (old_token ∷ []) "ann" "mail"
    ≡ (new_token ∷ [], valid "b")
unfolding get_valid_access_token valid_token refresh_row refreshed store_token_response get_token
    save_token select upsert
token_refreshed = refl

get_valid_access_token-IsFresh_example :
    (row : McpOauthTokenRow) × (get_token cipher (old_token ∷ []) "ann" "mail" ≡ stored row)
    × (IsStored cipher
          (λ t. true)
          (λ s. s)
          refresh
          "2"
          (old_token ∷ [])
          (new_token ∷ [])
          "ann"
          "mail"
          "b"
          row
        ⊎ IsRefreshed cipher
            (λ t. true)
            (λ s. s)
            refresh
            "2"
            (old_token ∷ [])
            (new_token ∷ [])
            "ann"
            "mail"
            "b"
            row)
get_valid_access_token-IsFresh_example =
    get_valid_access_token-IsFresh cipher (λ t. true) (λ s. s) refresh "2" (old_token ∷ [])
      (new_token ∷ []) "ann" "mail" "b" token_refreshed

abbrev pub config : McpServerConnectionConfig
config = record {
  transport = remote;
  command = "";
  args = [];
  url = "https://mail";
  headers = [];
  trusted = true;
  requires_oauth = false;
  oauth_client_id = none;
  oauth_client_secret = none;
  oauth_scope = none;
  credential_type = none;
  auth_type = api_key;
}

abbrev pub credentials : Credentials
credentials = record {
  api_keys =
      record { user_id = "ann"; connection_name = "mail"; api_key = "k"; updated_at = "1" } ∷ [];
  tokens = [];
}

abbrev pub server : McpServerConfig
server = with_bearer (transport_config config) "k"

abbrev pub configure : Credentials → McpServerConnectionConfig → String → Option String → Configured
configure = server_config_for cipher (λ t. true) (λ s. s) refresh "2"

pub ann_configured : configure credentials config "mail" (some "ann") ≡ (credentials, inl server)
unfolding server_config_for by_user_key get_api_key select
ann_configured = refl

server_config_for-IsOwn_example :
    IsOwn cipher
      (λ t. true)
      (λ s. s)
      refresh
      "2"
      credentials
      credentials
      "mail"
      (transport_config config)
      server
      (some "ann")
server_config_for-IsOwn_example =
    server_config_for-IsOwn cipher (λ t. true) (λ s. s) refresh "2" credentials credentials "mail"
      server config (some "ann") ann_configured
