-- ===== src/Mcp/Tokens/Refresh.antt =====
-- backend/mcp/oauth_flow.py: what the access token of a tool call is, and what a refresh leaves stored.
use agent_graph_studio.Prelude.{
  if◌then◌else◌, Bool-cases, ◌==◌, ==_iff, string_eq, String, ◌≡◌, refl, ap, subst, ◌∙◌, ◌⊎◌, inl,
  inr, Bool, false, Option, none, some, List, [], ◌∷◌, arith, nat_eq, pair_eq, option_eq,
}
use agent_graph_studio.Storage.Table.{map_option, select, select-upsert, merged}
use agent_graph_studio.Mcp.Secrets.{
  Cipher, Stored, missing, undecryptable, stored, CredentialKey, same_key, same_key-same,
}
use agent_graph_studio.Mcp.Tokens.{
  McpOauthTokenRow, token_key, TokenResponse, or_text, or_else, AccessToken, valid, encrypt_option,
  decrypt_option, encrypted, replaced_by, save_token, read_token, get_token, token_row,
  store_token_response, stored_or_failed, refreshed, refresh_row, is_expiring, valid_token,
  get_valid_access_token,
}

module _ (cipher : Cipher) where
  open cipher use {encrypt, decrypt, decrypt-encrypt}

  decrypt_option-encrypt_option :
      (o : Option String) → decrypt_option cipher (encrypt_option cipher o) ≡ some o
  decrypt_option-encrypt_option none = refl
  decrypt_option-encrypt_option (some s) = ap (map_option some) (decrypt-encrypt s)

  read_token-encrypted :
      (r : McpOauthTokenRow) → read_token cipher (some (encrypted cipher r)) ≡ stored r
  read_token-encrypted r =
      rw
        (
          decrypt-encrypt r.access_token,
          decrypt_option-encrypt_option r.refresh_token,
          decrypt_option-encrypt_option r.client_secret,
        )
        refl

  select-key :
      (t : List McpOauthTokenRow) (k : CredentialKey) (r : McpOauthTokenRow)
      → select token_key t k ≡ some r
      → token_key r ≡ k
  unfolding select
  select-key [] k r h = absurd (ground arith)
  select-key (q ∷ t) k r h = elim (Bool-cases (token_key q == k)) [
    | inl e ↦
        let same : q ≡ r = ground arith in
        subst (λ (x : McpOauthTokenRow). token_key x ≡ k) same ((==_iff (token_key q) k).0 e)
    | inr e ↦ select-key t k r (ground arith)
  ]

  merged-encrypted :
      (r : McpOauthTokenRow) (o : Option McpOauthTokenRow)
      → ((q : McpOauthTokenRow) → o ≡ some q → token_key q ≡ token_key r)
      → merged (replaced_by cipher (encrypted cipher r)) (encrypted cipher r) o ≡ encrypted cipher r
  merged-encrypted r none h = refl
  merged-encrypted r (some q) h =
      let user : q.user_id ≡ r.user_id = ap (λ (k : CredentialKey). k.0) (h q refl) in
      let name : q.connection_name ≡ r.connection_name =
        ap (λ (k : CredentialKey). k.1) (h q refl) in
      rw (user, name) refl

  read_token-if :
      (b : Bool) (r : McpOauthTokenRow) (o : Option McpOauthTokenRow)
      → read_token cipher (if b then some (encrypted cipher r) else o)
        ≡ (if b then stored r else read_token cipher o)
  read_token-if b r o = elim (Bool-cases b) [
    | inl e ↦ rw e (read_token-encrypted r)
    | inr e ↦ rw e refl
  ]

  -- A saved token is read back as it was given, by its user for its connection, and every other token is as
  -- it was.
  pub get_token-save_token :
      (t : List McpOauthTokenRow) (r : McpOauthTokenRow) (v m : String)
      → get_token cipher (save_token cipher t r) v m ≡ (
          if same_key (r.user_id, r.connection_name) (v, m)
          then stored r
          else get_token cipher t v m)
  unfolding get_token save_token
  get_token-save_token t r v m =
      let new = encrypted cipher r in
      let o = select token_key t (token_key r) in
      let left : merged (replaced_by cipher new) new o ≡ new =
        merged-encrypted r o (λ q h. select-key t (token_key r) q h) in
      ap (read_token cipher) (
        select-upsert token_key (replaced_by cipher new) (λ q. refl) t new (v, m)
        ∙ ap
            (λ (x : McpOauthTokenRow).
              if same_key (token_key r) (v, m) then some x else select token_key t (v, m))
            left)
      ∙ read_token-if (same_key (token_key r) (v, m)) r (select token_key t (v, m))

  module _ (expiring : String → Bool) (expires : String → String)
      (refresh : String → String → String → Option String → Option TokenResponse) (now : String)
      (t t' : List McpOauthTokenRow) (u n a : String) where
    -- The token is the stored one, which is not about to expire.
    abbrev pub IsStored : McpOauthTokenRow → Type 0
    IsStored row =
        (is_expiring cipher expiring expires refresh now row.expires_at ≡ false)
        × (a ≡ row.access_token)
        × (t' ≡ t)

    -- The token is that of the endpoint's answer to the stored refresh token, and it is stored now with the
    -- answer's refresh token, or the old one.
    pub record IsRefreshed (row : McpOauthTokenRow) : Type 0 where
      pub old : String
      pub answer : TokenResponse
      pub old_stored : row.refresh_token ≡ some old
      pub asked :
          refresh row.token_endpoint old (or_text row.client_id "") row.client_secret ≡ some answer
      pub answered : answer.access_token ≡ some a
      pub kept :
          get_token cipher t' u n
          ≡ stored (
              token_row cipher expiring expires refresh now u n
                (record answer { refresh_token = or_else answer.refresh_token (some old) })
                a
                row.token_endpoint
                row.client_id
                row.client_secret)

    stored_answer :
        (row : McpOauthTokenRow) (r : TokenResponse) (o : Option String)
        → r.access_token ≡ o
        → stored_or_failed cipher expiring expires refresh now t (
            store_token_response cipher expiring expires refresh now t u n r row.token_endpoint
              row.client_id row.client_secret)
          ≡ (t', valid a)
        → (o ≡ some a)
          × (get_token cipher t' u n
              ≡ stored (
                  token_row cipher expiring expires refresh now u n r a row.token_endpoint
                    row.client_id row.client_secret))
    unfolding store_token_response
    stored_answer row r none e h = let k = rw e at h in absurd (ground arith)
    stored_answer row r (some x) e h = elim (Bool-cases (x == "")) [
      | inl b ↦ let k = rw (e, b) at h in absurd (ground arith)
      | inr b ↦
          let k = rw (e, b) at h in
          let new : String → McpOauthTokenRow = λ y.
            token_row cipher expiring expires refresh now u n r y row.token_endpoint row.client_id
              row.client_secret in
          let same : x ≡ a = ground arith in
          let after : save_token cipher t (new x) ≡ t' =
            ap (λ (q : List McpOauthTokenRow × AccessToken). q.0) k in
          (
            ap some same,
            subst (λ (d : List McpOauthTokenRow). get_token cipher d u n ≡ stored (new a)) after
                (subst
                  (λ (y : String).
                    get_token cipher (save_token cipher t (new x)) u n ≡ stored (new y))
                  same
                  (get_token-save_token t (new x) u n
                    ∙ ap (λ (c : Bool). if c then stored (new x) else get_token cipher t u n)
                        (same_key-same (u, n)))),
          )
    ]

    refreshed-IsRefreshed :
        (row : McpOauthTokenRow) (old : String) (o : Option TokenResponse)
        → row.refresh_token ≡ some old
        → refresh row.token_endpoint old (or_text row.client_id "") row.client_secret ≡ o
        → refreshed cipher expiring expires refresh now t u n row old o ≡ (t', valid a)
        → IsRefreshed row
    unfolding refreshed
    refreshed-IsRefreshed row old none k e h = absurd (ground arith)
    refreshed-IsRefreshed row old (some r) k e h =
        let (given, kept) =
          stored_answer row (record r { refresh_token = or_else r.refresh_token (some old) })
            r.access_token refl h in
        record { old = old; answer = r; old_stored = k; asked = e; answered = given; kept = kept }

    refresh_row-IsRefreshed :
        (row : McpOauthTokenRow) (o : Option String)
        → row.refresh_token ≡ o
        → refresh_row cipher expiring expires refresh now t u n row o ≡ (t', valid a)
        → IsRefreshed row
    unfolding refresh_row
    refresh_row-IsRefreshed row none k h = absurd (ground arith)
    refresh_row-IsRefreshed row (some old) k h = refreshed-IsRefreshed row old _ k refl h

    valid_token-IsFresh :
        (o : Stored McpOauthTokenRow)
        → valid_token cipher expiring expires refresh now t u n o ≡ (t', valid a)
        → (row : McpOauthTokenRow) × (o ≡ stored row) × (IsStored row ⊎ IsRefreshed row)
    unfolding valid_token
    valid_token-IsFresh missing h = absurd (ground arith)
    valid_token-IsFresh undecryptable h = absurd (ground arith)
    valid_token-IsFresh (stored row) h =
        elim (Bool-cases (is_expiring cipher expiring expires refresh now row.expires_at)) [
          | inl e ↦
              (row, refl, inr (refresh_row-IsRefreshed row row.refresh_token refl (rw e at h)))
          | inr e ↦ let k = rw e at h in (row, refl, inl (e, ground arith, ground arith))
        ]

    -- An access token that is handed out for a tool call is one that is stored and not about to expire, or
    -- one that the token endpoint gave for the stored refresh token, which is then stored in its place.
    pub get_valid_access_token-IsFresh :
        get_valid_access_token cipher expiring expires refresh now t u n ≡ (t', valid a)
        → (row : McpOauthTokenRow) × (get_token cipher t u n ≡ stored row)
          × (IsStored row ⊎ IsRefreshed row)
    unfolding get_valid_access_token
    get_valid_access_token-IsFresh h = valid_token-IsFresh (get_token cipher t u n) h
