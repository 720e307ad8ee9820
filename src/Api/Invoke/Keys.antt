-- ===== src/Api/Invoke/Keys.antt =====
-- backend/api/app.py: `create_invoke_key`, and the timeouts of invocations. The token and the key's id are
-- parameters.
use agent_graph_studio.Prelude.{
  leb, if◌then◌else◌, Bool-cases, ◌==◌, string_eq, any, find, All, All-append, ℕ, ◌≤◌, String, ◌≡◌,
  refl, subst, inl, inr, Bool, ◌&&◌, Option, none, some, List, [], ◌∷◌, arith, nat_eq, pair_eq,
  option_eq,
}
use agent_graph_studio.Prelude.Int.{ℤ, pos, negsuc}
use agent_graph_studio.Storage.Graphs.{GraphRow, get_graph}
use agent_graph_studio.Storage.Table.{insert}
use agent_graph_studio.Storage.InvokeKeys.{
  InvokeKeyRow, invoke_key, generate_invoke_key, matches, validated, validate_invoke_key,
}
use agent_graph_studio.Api.Invoke.{timeout_of}

-- The answers 404, 422, 500 for a key id that is taken, and 201 with the row and the token.
pub data KeyReply : Type 0 where
  no_graph bad_timeout store_error : KeyReply
  created : InvokeKeyRow → String → KeyReply

abbrev pub max_invoke_timeout_seconds : ℕ
max_invoke_timeout_seconds = 300

-- The seconds of a request that is in range.
abbrev pub seconds_in_range : ℤ → Option ℕ
seconds_in_range (negsuc n) = none
seconds_in_range (pos n) = if leb 1 n && leb n max_invoke_timeout_seconds then some n else none

abbrev minted :
    List InvokeKeyRow
    → Option (List InvokeKeyRow × (InvokeKeyRow × String))
    → List InvokeKeyRow × KeyReply
minted t none = (t, store_error)
minted t (some (t', (row, token))) = (t', created row token)

module _ (hash : String → String) (token key_id now : String) where
  key_for :
      List InvokeKeyRow → String → String → Option String → Option ℕ → List InvokeKeyRow × KeyReply
  key_for t graph_id label by none = (t, bad_timeout)
  key_for t graph_id label by (some n) =
      minted t (generate_invoke_key hash t graph_id label now n by token key_id)

  create_key_on :
      List InvokeKeyRow
      → String
      → String
      → Option String
      → ℤ
      → Option GraphRow
      → List InvokeKeyRow × KeyReply
  unfolding key_for
  create_key_on t graph_id label by seconds none = (t, no_graph)
  create_key_on t graph_id label by seconds (some row) =
      key_for t graph_id label by (seconds_in_range seconds)

  unfoldable pub create_invoke_key :
      List GraphRow
      → List InvokeKeyRow
      → String
      → String
      → ℤ
      → Option String
      → List InvokeKeyRow × KeyReply
  unfolding create_key_on
  create_invoke_key graphs t graph_id label seconds by =
      create_key_on t graph_id label by seconds (get_graph graphs graph_id)

-- Every key's timeout is in range.
abbrev pub InRange : InvokeKeyRow → Type 0
InRange k = (1 ≤ k.timeout_seconds) × (k.timeout_seconds ≤ max_invoke_timeout_seconds)

module _ (hash : String → String) (token key_id now : String) where
  insert-InRange :
      (t : List InvokeKeyRow) (row : InvokeKeyRow)
      → InRange row
      → All InRange t
      → All InRange
          (minted t
            (elim (insert invoke_key t row) [ none ↦ none | some t' ↦ some (t', (row, token)) ])).0
  unfolding insert
  insert-InRange t row r v = elim (Bool-cases (any (λ q. invoke_key q == invoke_key row) t)) [
    | inl h ↦ rw h v
    | inr h ↦ rw h (All-append InRange t (row ∷ []) v (r, tt))
  ]

  seconds_in_range-bounds :
      (seconds : ℤ) (n : ℕ)
      → seconds_in_range seconds ≡ some n
      → (1 ≤ n) × (n ≤ max_invoke_timeout_seconds)
  seconds_in_range-bounds (negsuc m) n h = absurd (ground arith)
  seconds_in_range-bounds (pos m) n h = elim (Bool-cases (leb 1 m && leb m 300)) [
    | inl k ↦ (ground arith, ground arith)
    | inr k ↦ absurd (ground arith)
  ]

  key_for-InRange :
      (t : List InvokeKeyRow) (graph_id label : String) (by : Option String) (o : Option ℕ)
      → ((n : ℕ) → o ≡ some n → (1 ≤ n) × (n ≤ max_invoke_timeout_seconds))
      → All InRange t
      → All InRange (key_for hash token key_id now t graph_id label by o).0
  unfolding key_for generate_invoke_key
  key_for-InRange t graph_id label by none b v = v
  key_for-InRange t graph_id label by (some n) b v = insert-InRange t _ (b n refl) v

  create_key_on-InRange :
      (t : List InvokeKeyRow) (graph_id label : String) (by : Option String) (seconds : ℤ)
      (row : Option GraphRow)
      → All InRange t
      → All InRange (create_key_on hash token key_id now t graph_id label by seconds row).0
  unfolding create_key_on
  create_key_on-InRange t graph_id label by seconds none v = v
  create_key_on-InRange t graph_id label by seconds (some row) v =
      key_for-InRange t graph_id label by (seconds_in_range seconds)
        (seconds_in_range-bounds seconds) v

module _ (hash : String → String) where
  find-InRange :
      (p : InvokeKeyRow → Bool) (t : List InvokeKeyRow) (k : InvokeKeyRow)
      → find p t ≡ some k
      → All InRange t
      → InRange k
  find-InRange p [] k h v = absurd (ground arith)
  find-InRange p (r ∷ t) k h v = elim (Bool-cases (p r)) [
    | inl e ↦ let same : r ≡ k = ground arith in subst InRange same v.0
    | inr e ↦ find-InRange p t k (ground arith) v.1
  ]

  validated-InRange :
      (t : List InvokeKeyRow) (now : Option String) (o : Option InvokeKeyRow)
      → ((k : InvokeKeyRow) → o ≡ some k → InRange k)
      → (1 ≤ timeout_of (validated hash t now o).1)
        × (timeout_of (validated hash t now o).1 ≤ max_invoke_timeout_seconds)
  unfolding validated
  validated-InRange t now none b = (ground arith, ground arith)
  validated-InRange t none (some k) b = b k refl
  validated-InRange t (some n) (some k) b = b k refl

-- If every stored key's timeout is from 1 to 300 seconds, it is so after a request for a new key, whatever
-- timeout it asks for, and an invocation waits from 1 to 300 seconds, with a key or without one.
pub create_invoke_key-timeout_of :
    (hash : String → String) (token key_id now : String) (graphs : List GraphRow)
    (t : List InvokeKeyRow) (graph_id label : String) (seconds : ℤ) (by : Option String)
    (supplied : String) (at : Option String)
    → All InRange t
    → let t' = (create_invoke_key hash token key_id now graphs t graph_id label seconds by).0 in
      let waits = timeout_of (validate_invoke_key hash t' graph_id supplied at).1 in
      All InRange t' × (1 ≤ waits) × (waits ≤ max_invoke_timeout_seconds)
unfolding create_invoke_key validate_invoke_key
create_invoke_key-timeout_of hash token key_id now graphs t graph_id label seconds by supplied at
      v =
    let t' = (create_invoke_key hash token key_id now graphs t graph_id label seconds by).0 in
    let w : All InRange t' =
      create_key_on-InRange hash token key_id now t graph_id label by seconds
        (get_graph graphs graph_id) v in
    let (least, most) =
      validated-InRange hash t' at (find (matches graph_id (hash supplied)) t')
        (λ k h. find-InRange hash (matches graph_id (hash supplied)) t' k h w) in
    (w, least, most)
