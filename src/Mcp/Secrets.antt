-- ===== src/Mcp/Secrets.antt =====
-- backend/mcp: the encryption of the stored secrets. Fernet is a parameter; its law is what its
-- documentation promises, that what was encrypted is decrypted.
use agent_graph_studio.Prelude.{
  ◌==◌, ==_refl, string_eq, String, ◌≡◌, Bool, true, Option, none, some, nat_eq, pair_eq, option_eq,
}

pub record Cipher : Type 0 where
  pub encrypt : String → String
  -- `none` is `InvalidToken`
  pub decrypt : String → Option String
  pub decrypt-encrypt : (text : String) → decrypt (encrypt text) ≡ some text

-- What a read of a secret gives: no row, a row that is not decrypted, which raises, or the secret.
pub data Stored {ℓ} (A : Type ℓ) : Type ℓ where
  missing : Stored A
  undecryptable : Stored A
  stored : A → Stored A

abbrev pub or_undecryptable {ℓ} : {A : Type ℓ} → Option A → Stored A
or_undecryptable none = undecryptable
or_undecryptable (some a) = stored a

-- A user and the name of a connection.
abbrev pub CredentialKey : Type 0
CredentialKey = String × String

abbrev pub same_key : CredentialKey → CredentialKey → Bool
same_key a b = a == b

pub same_key-same : (k : CredentialKey) → same_key k k ≡ true
same_key-same k = ==_refl k
