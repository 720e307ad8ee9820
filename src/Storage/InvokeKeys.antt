-- ===== src/Storage/InvokeKeys.antt =====
-- backend/storage/invoke_keys_store.py: keys that may invoke one graph. The hash (sha256) and the
-- random token and id (`secrets`) are parameters.
use agent_graph_studio.Prelude.{
  if◌then◌else◌, Bool-cases, is_some, ◌==◌, ==_iff, string_eq, any, filter_list, find, ℕ, zero, suc,
  String, ◌≡◌, refl, inl, inr, Bool, false, not, ◌&&◌, ◌||◌, Option, none, some, List, [], ◌∷◌,
  ◌++◌, arith,
}
use agent_graph_studio.Storage.Table.{insert}

pub record InvokeKeyRow : Type 0 where
  pub key_id : String
  pub graph_id : String
  pub label : String
  pub key_hash : String
  pub key_prefix : String
  pub timeout_seconds : ℕ
  pub created_at : String
  pub created_by : Option String
  pub last_used_at : Option String

abbrev pub invoke_key : InvokeKeyRow → String
invoke_key r = r.key_id

-- `token[:n]`
abbrev take_chars : ℕ → String → String
take_chars zero s = String.[]
take_chars (suc n) String.[] = String.[]
take_chars (suc n) (String.◌∷◌ c s) = String.◌∷◌ c (take_chars n s)

-- `graph_id = ? AND key_hash = ?`, and `graph_id = ? AND key_id = ?`
abbrev pub matches : String → String → InvokeKeyRow → Bool
matches graph_id hash r = r.graph_id == graph_id && r.key_hash == hash

abbrev pub is_key : String → String → InvokeKeyRow → Bool
is_key graph_id key_id r = r.graph_id == graph_id && r.key_id == key_id

-- The `UPDATE` of `last_used_at`.
stamp : List InvokeKeyRow → String → String → List InvokeKeyRow
stamp [] key_id now = []
stamp (r ∷ t) key_id now =
    (if r.key_id == key_id then record r { last_used_at = some now } else r) ∷ stamp t key_id now

module _ (hash : String → String) where
  abbrev new_row : String → String → String → ℕ → Option String → String → String → InvokeKeyRow
  new_row graph_id label created_at timeout_seconds created_by token key_id = record {
    key_id = key_id;
    graph_id = graph_id;
    label = label;
    key_hash = hash token;
    key_prefix = take_chars 12 token;
    timeout_seconds = timeout_seconds;
    created_at = created_at;
    created_by = created_by;
    last_used_at = none;
  }

  -- `none` is the error of a key id that is taken. The row and the token are returned.
  unfoldable pub generate_invoke_key :
      List InvokeKeyRow
      → String
      → String
      → String
      → ℕ
      → Option String
      → String
      → String
      → Option (List InvokeKeyRow × (InvokeKeyRow × String))
  generate_invoke_key t graph_id label created_at timeout_seconds created_by token key_id =
      let row : InvokeKeyRow =
        new_row graph_id label created_at timeout_seconds created_by token key_id in
      elim (insert invoke_key t row) [ none ↦ none | some t' ↦ some (t', (row, token)) ]

  unfoldable pub validated :
      List InvokeKeyRow
      → Option String
      → Option InvokeKeyRow
      → List InvokeKeyRow × Option InvokeKeyRow
  unfolding stamp
  validated t now none = (t, none)
  validated t none (some r) = (t, some r)
  validated t (some now) (some r) =
      (stamp t r.key_id now, some (record r { last_used_at = some now }))

  unfoldable pub validate_invoke_key :
      List InvokeKeyRow → String → String → Option String → List InvokeKeyRow × Option InvokeKeyRow
  unfolding validated
  validate_invoke_key t graph_id token now =
      validated t now (find (matches graph_id (hash token)) t)

pub revoke_invoke_key : List InvokeKeyRow → String → String → List InvokeKeyRow × Bool
revoke_invoke_key t graph_id key_id =
    (filter_list (λ r. not (is_key graph_id key_id r)) t, any (is_key graph_id key_id) t)

module _ (hash : String → String) where
  abbrev pub accepts : List InvokeKeyRow → String → String → Bool
  accepts t graph_id token = is_some (validate_invoke_key hash t graph_id token none).1

  abbrev pub Owned : String → String → Option InvokeKeyRow → Type 0
  Owned graph_id token none = Unit
  Owned graph_id token (some r) = (r.graph_id ≡ graph_id) × (r.key_hash ≡ hash token)

  find-Owned :
      (t : List InvokeKeyRow) (graph_id token : String)
      → Owned graph_id token (find (matches graph_id (hash token)) t)
  find-Owned [] graph_id token = tt
  find-Owned (r ∷ t) graph_id token = elim (Bool-cases (matches graph_id (hash token) r)) [
    | inl h ↦
        rw h (
          ground (arith, ==_iff r.graph_id graph_id),
          ground (arith, ==_iff r.key_hash (hash token)),
        )
    | inr h ↦ rw h (find-Owned t graph_id token)
  ]

  validated-Owned :
      (t : List InvokeKeyRow) (graph_id token : String) (now : Option String)
      (o : Option InvokeKeyRow)
      → Owned graph_id token o
      → Owned graph_id token (validated hash t now o).1
  unfolding validated
  validated-Owned t graph_id token now none h = tt
  validated-Owned t graph_id token none (some r) h = h
  validated-Owned t graph_id token (some n) (some r) h = h

  -- A validated key is a key of the graph that was asked for, and stores the hash of the token.
  pub validate_invoke_key-Owned :
      (t : List InvokeKeyRow) (graph_id token : String) (now : Option String)
      → Owned graph_id token (validate_invoke_key hash t graph_id token now).1
  unfolding validate_invoke_key
  validate_invoke_key-Owned t graph_id token now =
      validated-Owned t graph_id token now _ (find-Owned t graph_id token)

  find-snoc_match :
      (p : InvokeKeyRow → Bool) (t : List InvokeKeyRow) (r : InvokeKeyRow)
      → is_some (find p (t ++ r ∷ [])) ≡ (is_some (find p t) || p r)
  find-snoc_match p [] r = ground arith
  find-snoc_match p (q ∷ t) r = ground (arith, find-snoc_match p t r)

  accepts-find :
      (t : List InvokeKeyRow) (graph_id token : String)
      → accepts t graph_id token ≡ is_some (find (matches graph_id (hash token)) t)
  unfolding validate_invoke_key validated
  accepts-find t graph_id token = ground arith

  -- After a key is generated for a graph, a token is accepted for a graph if it was before, or if the
  -- graph is that one and the token has the hash of the new one.
  pub accepts-generate :
      (t t' : List InvokeKeyRow) (graph_id label now : String) (timeout : ℕ) (by : Option String)
      (token key_id : String) (row : InvokeKeyRow × String) (g other : String)
      → generate_invoke_key hash t graph_id label now timeout by token key_id ≡ some (t', row)
      → accepts t' g other ≡ (accepts t g other || (graph_id == g && hash token == hash other))
  unfolding generate_invoke_key insert
  accepts-generate t t' graph_id label now timeout by token key_id row g other h = ground (
    arith,
    accepts-find t g other,
    accepts-find t' g other,
    find-snoc_match (matches g (hash other)) t
        (new_row hash graph_id label now timeout by token key_id),
  )

  filter-accepts :
      (t : List InvokeKeyRow) (graph_id key_id g other : String)
      → (graph_id == g) ≡ false
      → find (matches g (hash other)) (filter_list (λ r. not (is_key graph_id key_id r)) t)
        ≡ find (matches g (hash other)) t
  filter-accepts [] graph_id key_id g other h = refl
  filter-accepts (r ∷ t) graph_id key_id g other h = ground (
    arith,
    filter-accepts t graph_id key_id g other h,
    ==_iff r.graph_id graph_id,
    ==_iff r.graph_id g,
    ==_iff graph_id g,
  )

  -- Revoking a key of one graph does not change which tokens any other graph accepts.
  pub accepts-revoke_other :
      (t : List InvokeKeyRow) (graph_id key_id g other : String)
      → (graph_id == g) ≡ false
      → accepts (revoke_invoke_key t graph_id key_id).0 g other ≡ accepts t g other
  unfolding revoke_invoke_key
  accepts-revoke_other t graph_id key_id g other h = ground (
    arith,
    accepts-find t g other,
    accepts-find (filter_list (λ r. not (is_key graph_id key_id r)) t) g other,
    filter-accepts t graph_id key_id g other h,
  )
