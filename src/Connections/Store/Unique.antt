-- ===== src/Connections/Store/Unique.antt =====
-- backend/connections/store.py: the pairs `(user_id, name)` under every operation.
use agent_graph_studio.Prelude.{
  Bool-cases, ◌==◌, ==_iff, string_eq, length, any, filter_list, find, String, ◌≡◌, refl, inl, inr,
  Bool, true, false, not, ◌||◌, Option, none, some, List, [], ◌∷◌, ◌++◌, arith,
}
use agent_graph_studio.Prelude.{option_eq, nat_eq}
use agent_graph_studio.Prelude.Dict.{Dict}
use agent_graph_studio.Schema.Value.{Value}
use agent_graph_studio.Connections.Store.{
  ConnectionProfile, is_at, add_connection, delete_connection, replace_first, write_update,
  update_connection_config, set_connection_owner, after,
}

-- No two profiles have the same name and owner.
abbrev pub IsUnique : List ConnectionProfile → Type 0
IsUnique [] = Unit
IsUnique (c ∷ cs) = (any (is_at c.name c.user_id) cs ≡ false) × IsUnique cs

is_at-flip : (c d : ConnectionProfile) → is_at c.name c.user_id d ≡ is_at d.name d.user_id c
is_at-flip c d = ground (
  arith,
  ==_iff c.name d.name,
  ==_iff d.name c.name,
  ==_iff c.user_id d.user_id,
  ==_iff d.user_id c.user_id,
)

any-append :
    (p : ConnectionProfile → Bool) (xs ys : List ConnectionProfile)
    → any p (xs ++ ys) ≡ (any p xs || any p ys)
any-append p [] ys = refl
any-append p (x ∷ xs) ys = ground (arith, any-append p xs ys)

IsUnique-snoc :
    (cs : List ConnectionProfile) (d : ConnectionProfile)
    → IsUnique cs
    → any (is_at d.name d.user_id) cs ≡ false
    → IsUnique (cs ++ d ∷ [])
IsUnique-snoc [] d v h = (refl, tt)
IsUnique-snoc (c ∷ cs) d v h = (
  ground (arith, any-append (is_at c.name c.user_id) cs (d ∷ []), v.0, is_at-flip c d),
  IsUnique-snoc cs d v.1 (ground arith),
)

any-filter_list_le :
    (p q : ConnectionProfile → Bool) (cs : List ConnectionProfile)
    → any p cs ≡ false
    → any p (filter_list q cs) ≡ false
any-filter_list_le p q [] h = refl
any-filter_list_le p q (c ∷ cs) h = ground (arith, any-filter_list_le p q cs)

IsUnique-filter_list :
    (q : ConnectionProfile → Bool) (cs : List ConnectionProfile)
    → IsUnique cs
    → IsUnique (filter_list q cs)
IsUnique-filter_list q [] v = tt
IsUnique-filter_list q (c ∷ cs) v =
    ground (arith, IsUnique-filter_list q cs v.1, any-filter_list_le (is_at c.name c.user_id) q cs)

-- Replacing a profile at `(name, from)` by one at `(name, to)`, where no other stands there.
any-replace_first :
    (p q : ConnectionProfile → Bool) (f : ConnectionProfile → ConnectionProfile)
    (cs : List ConnectionProfile)
    → any q cs ≡ false
    → ((c : ConnectionProfile) → p c ≡ true → q (f c) ≡ false)
    → any q (replace_first p f cs) ≡ false
unfolding replace_first
any-replace_first p q f [] h k = refl
any-replace_first p q f (c ∷ cs) h k = ground (arith, any-replace_first p q f cs, k c)

any-replace_same :
    (p q : ConnectionProfile → Bool) (f : ConnectionProfile → ConnectionProfile)
    (cs : List ConnectionProfile)
    → ((c : ConnectionProfile) → q (f c) ≡ q c)
    → any q (replace_first p f cs) ≡ any q cs
unfolding replace_first
any-replace_same p q f [] k = refl
any-replace_same p q f (c ∷ cs) k = ground (arith, any-replace_same p q f cs k, k c)

IsUnique-replace_config :
    (p : ConnectionProfile → Bool) (config : Dict String Value) (cs : List ConnectionProfile)
    → IsUnique cs
    → IsUnique (replace_first p (λ c. record c { config = config }) cs)
unfolding replace_first
IsUnique-replace_config p config [] v = tt
IsUnique-replace_config p config (c ∷ cs) v = elim (Bool-cases (p c)) [
  | inl h ↦ rw h v
  | inr h ↦
      let same =
        any-replace_same p (is_at c.name c.user_id) (λ d. record d { config = config }) cs
          (λ d. refl) in
      let rest = IsUnique-replace_config p config cs v.1 in rw h (cc (same, v.0), rest)
]

IsUnique-replace_owner :
    (name : String) (current new : Option String) (cs : List ConnectionProfile)
    → IsUnique cs
    → any (is_at name new) cs ≡ false
    → IsUnique (replace_first (is_at name current) (λ c. record c { user_id = new }) cs)
unfolding replace_first
IsUnique-replace_owner name current new [] v free = tt
IsUnique-replace_owner name current new (c ∷ cs) v free = elim (Bool-cases (is_at name current c)) [
  | inl h ↦
      let named : c.name ≡ name = ground (arith, ==_iff c.name name) in
      let apart : any (is_at c.name new) cs ≡ false = rw named (ground arith) in rw h (apart, v.1)
  | inr h ↦
      let apart =
        any-replace_first (is_at name current) (is_at c.name c.user_id)
          (λ d. record d { user_id = new }) cs v.0
          (λ d k. ground (
            arith,
            ==_iff d.name name,
            ==_iff d.name c.name,
            ==_iff c.name name,
            ==_iff new c.user_id,
            ==_iff c.user_id new,
          )) in
      let rest = IsUnique-replace_owner name current new cs v.1 (ground arith) in rw h (apart, rest)
]

write_update-IsUnique :
    (p : ConnectionProfile → Bool) (f : ConnectionProfile → ConnectionProfile)
    (cs : List ConnectionProfile) (o : Option ConnectionProfile)
    → IsUnique cs
    → IsUnique (replace_first p f cs)
    → IsUnique (after cs (write_update p f cs o))
unfolding write_update
write_update-IsUnique p f cs none v w = v
write_update-IsUnique p f cs (some c) v w = w

-- What an operation asks of the store.
pub data Operation : Type 0 where
  add : String → String → Dict String Value → Option String → Operation
  delete : String → Option String → Operation
  update_config : String → Option String → Dict String Value → Operation
  set_owner : String → Option String → Option String → Operation

unfoldable pub perform : Operation → List ConnectionProfile → List ConnectionProfile
perform (add name type config user) cs = after cs (add_connection name type config user cs)
perform (delete name user) cs = after cs (delete_connection name user cs)
perform (update_config name user config) cs =
    after cs (update_connection_config name user config cs)
perform (set_owner name current new) cs = after cs (set_connection_owner name current new cs)

-- Adding, deleting, updating and handing over a connection each keep the pairs of name and owner
-- unique.
pub perform-IsUnique :
    (o : Operation) (cs : List ConnectionProfile) → IsUnique cs → IsUnique (perform o cs)
unfolding perform
perform-IsUnique (add name type config user) cs v =
    unfold add_connection in
    elim (Bool-cases (any (is_at name user) cs)) [
      | inl h ↦ rw h v
      | inr h ↦ rw h (IsUnique-snoc cs _ v h)
    ]
perform-IsUnique (delete name user) cs v =
    unfold delete_connection in
    elim (Bool-cases (length (filter_list (λ c. not (is_at name user c)) cs) == length cs)) [
      | inl h ↦ rw h v
      | inr h ↦ rw h (IsUnique-filter_list (λ c. not (is_at name user c)) cs v)
    ]
perform-IsUnique (update_config name user config) cs v =
    unfold update_connection_config in
    write_update-IsUnique (is_at name user) (λ c. record c { config = config }) cs
      (find (is_at name user) cs) v (IsUnique-replace_config (is_at name user) config cs v)
perform-IsUnique (set_owner name current new) cs v =
    unfold set_connection_owner in
    elim (Bool-cases (any (is_at name new) cs)) [
      | inl h ↦ rw h v
      | inr h ↦ rw h (
          write_update-IsUnique (is_at name current) (λ c. record c { user_id = new }) cs
            (find (is_at name current) cs) v (IsUnique-replace_owner name current new cs v h))
    ]
