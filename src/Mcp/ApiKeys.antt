-- ===== src/Mcp/ApiKeys.antt =====
-- backend/mcp/api_key_storage.py: each user's key for a connection. `LIMIT 1` without an order is the
-- first row here.
use agent_graph_studio.Prelude.{
  if◌then◌else◌, Bool-cases, is_some, ◌==◌, string_eq, find, String, ◌≡◌, refl, ap, ◌∙◌, inl, inr,
  Bool, Option, none, some, List, nat_eq, pair_eq, option_eq,
}
use agent_graph_studio.Storage.Table.{
  map_option, select, select-delete, delete, deletes, upsert, select-upsert, merged,
}
use agent_graph_studio.Mcp.Secrets.{
  Cipher, Stored, missing, stored, or_undecryptable, CredentialKey, same_key,
}

pub record McpApiKeyRow : Type 0 where
  pub user_id : String
  pub connection_name : String
  pub api_key : String
  pub updated_at : String

abbrev pub api_key_of : McpApiKeyRow → CredentialKey
api_key_of r = (r.user_id, r.connection_name)

-- The row of any user who has a key for the connection.
unfoldable pub find_any_key_user : List McpApiKeyRow → String → Option String
find_any_key_user t name =
    map_option (λ (r : McpApiKeyRow). r.user_id)
      (find (λ (r : McpApiKeyRow). r.connection_name == name) t)

unfoldable pub has_api_key : List McpApiKeyRow → String → String → Bool
has_api_key t user_id name = is_some (select api_key_of t (user_id, name))

unfoldable pub delete_api_key : List McpApiKeyRow → String → String → List McpApiKeyRow × Bool
delete_api_key t user_id name =
    (delete api_key_of t (user_id, name), deletes api_key_of t (user_id, name))

module _ (cipher : Cipher) where
  open cipher use {encrypt, decrypt, decrypt-encrypt}

  unfoldable pub save_api_key :
      List McpApiKeyRow → String → String → String → String → List McpApiKeyRow
  save_api_key t user_id name api_key updated_at =
      upsert api_key_of t
        (record {
          user_id = user_id;
          connection_name = name;
          api_key = encrypt api_key;
          updated_at = updated_at;
        })
        (λ r. record r { api_key = encrypt api_key; updated_at = updated_at })

  abbrev read_key : Option McpApiKeyRow → Stored String
  read_key none = missing
  read_key (some r) = or_undecryptable (decrypt r.api_key)

  unfoldable pub get_api_key : List McpApiKeyRow → String → String → Stored String
  get_api_key t user_id name = read_key (select api_key_of t (user_id, name))

  read_key-if :
      (b : Bool) (o : Option McpApiKeyRow) (r : McpApiKeyRow) (k : String)
      → r.api_key ≡ encrypt k
      → read_key (if b then some r else o) ≡ (if b then stored k else read_key o)
  read_key-if b o r k h = elim (Bool-cases b) [
    | inl e ↦ rw (e, h, decrypt-encrypt k) refl
    | inr e ↦ rw e refl
  ]

  read_key-none :
      (b : Bool) (o : Option McpApiKeyRow)
      → read_key (if b then none else o) ≡ (if b then missing else read_key o)
  read_key-none b o = elim (Bool-cases b) [ inl e ↦ rw e refl | inr e ↦ rw e refl ]

  read_key-merged :
      (k now : String) (r : McpApiKeyRow) (o : Option McpApiKeyRow)
      → r.api_key ≡ encrypt k
      → (merged (λ q. record q { api_key = encrypt k; updated_at = now }) r o).api_key ≡ encrypt k
  read_key-merged k now r none h = h
  read_key-merged k now r (some q) h = refl

  -- A saved key is read back by its user for its connection, and every other key is as it was; after its
  -- deletion the key is missing, and every other key is as it was.
  pub get_api_key-save_api_key :
      (t : List McpApiKeyRow) (u n k now v m : String)
      → (get_api_key (save_api_key t u n k now) v m
          ≡ (if same_key (u, n) (v, m) then stored k else get_api_key t v m))
        × (get_api_key (delete_api_key t u n).0 v m
            ≡ (if same_key (u, n) (v, m) then missing else get_api_key t v m))
  unfolding get_api_key save_api_key delete_api_key
  get_api_key-save_api_key t u n k now v m =
      let row : McpApiKeyRow = record {
        user_id = u;
        connection_name = n;
        api_key = encrypt k;
        updated_at = now;
      } in
      let change : McpApiKeyRow → McpApiKeyRow =
        λ q. record q { api_key = encrypt k; updated_at = now } in
      (
        ap read_key (select-upsert api_key_of change (λ r. refl) t row (v, m))
            ∙ read_key-if (same_key (u, n) (v, m)) _ _ k
                (read_key-merged k now row (select api_key_of t (u, n)) refl),
        ap read_key (select-delete api_key_of t (u, n) (v, m))
            ∙ read_key-none (same_key (u, n) (v, m)) _,
      )
