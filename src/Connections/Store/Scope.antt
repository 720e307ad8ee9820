-- ===== src/Connections/Store/Scope.antt =====
-- backend/connections/store.py: what a caller sees of the store, and the operations of one user beside
-- the lookups of another.
use agent_graph_studio.Prelude.{
  Bool-cases, Option-cases, ◌==◌, ==_iff, string_eq, length, any, filter_list, find, String, ◌≡◌,
  refl, ◌≢◌, ◌⊎◌, inl, inr, Bool, true, false, not, Option, none, some, List, [], ◌∷◌, ◌++◌, arith,
}
use agent_graph_studio.Prelude.{option_eq, nat_eq}
use agent_graph_studio.Prelude.Dict.{Dict}
use agent_graph_studio.Schema.Value.{Value}
use agent_graph_studio.Connections.Store.{
  ConnectionProfile, is_at, get_connection, resolve_connection_for_user, add_connection,
  delete_connection, replace_first, write_update, update_connection_config, after,
}

find-true :
    (p : ConnectionProfile → Bool) (cs : List ConnectionProfile) (c : ConnectionProfile)
    → find p cs ≡ some c
    → p c ≡ true
find-true p [] c h = cc
find-true p (d ∷ cs) c h = ground (arith, find-true p cs c)

-- A resolved connection has the name that was asked for, and belongs to the asking user or to nobody.
pub resolve_connection_for_user-owner :
    (name : String) (user : Option String) (cs : List ConnectionProfile) (c : ConnectionProfile)
    → resolve_connection_for_user name user cs ≡ some c
    → (c.name ≡ name) × ((c.user_id ≡ user) ⊎ (c.user_id ≡ none))
unfolding resolve_connection_for_user get_connection
resolve_connection_for_user-owner name none cs c h =
    ground (arith, find-true (is_at name none) cs c, ==_iff c.name name, ==_iff c.user_id none)
resolve_connection_for_user-owner name (some u) cs c h = ground (
  arith,
  find-true (is_at name (some u)) cs c,
  find-true (is_at name none) cs c,
  ==_iff c.name name,
  ==_iff c.user_id (some u),
  ==_iff c.user_id none,
)

find-snoc_other :
    (p : ConnectionProfile → Bool) (cs : List ConnectionProfile) (d : ConnectionProfile)
    → p d ≡ false
    → find p (cs ++ d ∷ []) ≡ find p cs
find-snoc_other p [] d h = ground arith
find-snoc_other p (c ∷ cs) d h = ground (arith, find-snoc_other p cs d)

pub find-filter_list_other :
    (p q : ConnectionProfile → Bool) (cs : List ConnectionProfile)
    → ((c : ConnectionProfile) → p c ≡ true → q c ≡ true)
    → find p (filter_list q cs) ≡ find p cs
find-filter_list_other p q [] k = refl
find-filter_list_other p q (c ∷ cs) k = ground (arith, find-filter_list_other p q cs k, k c)

find-replace_first_other :
    (p q : ConnectionProfile → Bool) (f : ConnectionProfile → ConnectionProfile)
    (cs : List ConnectionProfile)
    → ((c : ConnectionProfile) → q c ≡ true → (p c ≡ false) × (p (f c) ≡ false))
    → find p (replace_first q f cs) ≡ find p cs
unfolding replace_first
find-replace_first_other p q f [] k = refl
find-replace_first_other p q f (c ∷ cs) k = ground (arith, find-replace_first_other p q f cs k, k c)

-- An operation of the user `u` on the user's own connections.
pub data OwnOperation : Type 0 where
  add : String → String → Dict String Value → OwnOperation
  delete : String → OwnOperation
  update_config : String → Dict String Value → OwnOperation

unfoldable pub perform_own :
    Option String → OwnOperation → List ConnectionProfile → List ConnectionProfile
perform_own u (add name type config) cs = after cs (add_connection name type config u cs)
perform_own u (delete name) cs = after cs (delete_connection name u cs)
perform_own u (update_config name config) cs = after cs (update_connection_config name u config cs)

module _ (u v : Option String) (other : u ≢ v) (cs : List ConnectionProfile) where
  is_at-other :
      (name n : String) (c : ConnectionProfile) → is_at name u c ≡ true → is_at n v c ≡ false
  is_at-other name n c h = ground (arith, ==_iff c.user_id u, ==_iff c.user_id v)

  -- Whatever `u` adds, deletes or updates of its own leaves every exact lookup of `v` as it was.
  pub get_connection-perform_own :
      (o : OwnOperation) (n : String)
      → get_connection n v (perform_own u o cs) ≡ get_connection n v cs
  unfolding perform_own get_connection
  get_connection-perform_own (add name type config) n =
      unfold add_connection in
      elim (Bool-cases (any (is_at name u) cs)) [
        | inl h ↦ rw h
        | inr h ↦ rw h (find-snoc_other (is_at n v) cs _ (ground (arith, ==_iff u v)))
      ]
  get_connection-perform_own (delete name) n =
      unfold delete_connection in
      elim (Bool-cases (length (filter_list (λ c. not (is_at name u c)) cs) == length cs)) [
        | inl h ↦ rw h
        | inr h ↦ rw h (
            find-filter_list_other (is_at n v) (λ c. not (is_at name u c)) cs
              (λ c k. ground (arith, is_at-other name n c)))
      ]
  get_connection-perform_own (update_config name config) n =
      unfold update_connection_config write_update in
      elim (Option-cases (find (is_at name u) cs)) [
        | inl h ↦ rw h
        | inr (c, h) ↦ rw h (
            find-replace_first_other (is_at n v) (is_at name u) (λ d. record d { config = config })
              cs (λ d k. (is_at-other name n d k, is_at-other name n d k)))
      ]

-- A user's operations on the user's own connections do not change what a name resolves to for any
-- other user, nor for a caller with no user.
pub resolve-perform_own :
    (u : String) (v : Option String) (cs : List ConnectionProfile) (o : OwnOperation) (n : String)
    → some u ≢ v
    → resolve_connection_for_user n v (perform_own (some u) o cs)
      ≡ resolve_connection_for_user n v cs
unfolding resolve_connection_for_user
resolve-perform_own u none cs o n h = get_connection-perform_own (some u) none h cs o n
resolve-perform_own u (some w) cs o n h = cc (
  get_connection-perform_own (some u) (some w) h cs o n,
  get_connection-perform_own (some u) none (λ e. cc) cs o n,
)
