-- ===== src/Connections/Resolver.antt =====
-- backend/connections/resolver.py: which connections a graph refers to, and what they resolve to.
-- The store is given as its profiles; a connection type's config model and client are parameters.
pub mod Sound
pub mod Clients
use agent_graph_studio.Prelude.{
  if◌then◌else◌, ◌==◌, string_eq, contains, ◌+◌, String, ◌⊎◌, inl, inr, Bool, ◌||◌, Option, none,
  some, List, [], ◌∷◌, ◌++◌,
}
use agent_graph_studio.Prelude.Dict.{Dict, get, put}
use agent_graph_studio.Schema.Value.{Value, null, bool, number, text, array, object}
use agent_graph_studio.Schema.Models.{NodeSpec, GraphSpec}
use agent_graph_studio.Connections.Store.{ConnectionProfile, resolve_connection_for_user}

-- `s.endswith(t)`
abbrev ends_with : String → String → Bool
ends_with String.[] t = String.[] == t
ends_with (String.◌∷◌ c s) t = String.◌∷◌ c s == t || ends_with s t

is_reference_key : String → Bool
is_reference_key key = key == "connection" || ends_with key "_connection"

-- A config entry that is a connection reference: its value, if that is a text.
reference_of : String → Value → Option String
unfolding is_reference_key
reference_of key (text name) = if is_reference_key key then some name else none
reference_of key null = none
reference_of key (bool b) = none
reference_of key (number n) = none
reference_of key (array items) = none
reference_of key (object fields) = none

abbrev prepend {ℓ} : {A : Type ℓ} → Option A → List A → List A
prepend none xs = xs
prepend (some x) xs = x ∷ xs

unfoldable pub connection_reference_names : Dict String Value → List String
unfolding reference_of
connection_reference_names [] = []
connection_reference_names ((key, value) ∷ config) =
    prepend (reference_of key value) (connection_reference_names config)

-- `set.update`; a set is a list without repetition, in order of first insertion
abbrev add_names : List String → List String → List String
add_names names [] = names
add_names names (n ∷ ns) = add_names (if contains names n then names else names ++ n ∷ []) ns

referenced_from : List String → List NodeSpec → List String
referenced_from names [] = names
referenced_from names (node ∷ nodes) =
    referenced_from (add_names names (connection_reference_names node.config)) nodes

unfoldable pub referenced_connection_names : GraphSpec → List String
unfolding referenced_from
referenced_connection_names g = referenced_from [] g.nodes

-- `slot_mappings.get(name, name) if slot_mappings else name`
abbrev or_same : String → Option String → String
or_same name none = name
or_same name (some mapped) = mapped

unfoldable pub actual_name : String → Option (Dict String String) → String
actual_name name none = name
actual_name name (some mappings) = or_same name (get mappings name)

unfoldable pub resolve_slot_aware :
    String
    → Option String
    → Option (Dict String String)
    → List ConnectionProfile
    → Option ConnectionProfile
unfolding actual_name
resolve_slot_aware name user_id mappings store =
    resolve_connection_for_user (actual_name name mappings) user_id store

-- `ConnectionNotFoundError`, `ValueError` for the type, and the config model's error.
pub data ResolveError : Type 0 where
  not_found unknown_type invalid_config : String → ResolveError

pub data Resolved (A : Type 0) : Type 0 where
  resolved : Dict String A → Resolved A
  failed : ResolveError → Resolved A

-- A connection type: its validated config and the client built from it, where `none` is an error.
pub record ConnectionType (Client : Type 0) : Type 0 where
  pub type_name : String
  pub build_client : Dict String Value → Option Client

module _ (user_id : Option String) (mappings : Option (Dict String String))
    (store : List ConnectionProfile) where
  module _ {A : Type 0} (use_profile : String → ConnectionProfile → A ⊎ ResolveError) where
    resolve_one : String → Option ConnectionProfile → A ⊎ ResolveError
    resolve_one name none = inr (not_found name)
    resolve_one name (some profile) = use_profile name profile

    -- `for name in _referenced_connection_names(graph)`
    resolve_names : Dict String A → List String → Resolved A
    unfolding resolve_one
    resolve_names acc [] = resolved acc
    resolve_names acc (name ∷ names) =
        elim (resolve_one name (resolve_slot_aware name user_id mappings store)) [
          | inr e ↦ failed e
          | inl a ↦ resolve_names (put acc name a) names
        ]

  unfoldable pub resolve_connection_profiles : GraphSpec → Resolved ConnectionProfile
  unfolding resolve_names
  resolve_connection_profiles g =
      resolve_names (λ name profile. inl profile) [] (referenced_connection_names g)

  module _ {Client : Type 0} (types : Dict String (ConnectionType Client)) where
    built : String → Option Client → Client ⊎ ResolveError
    built name none = inr (invalid_config name)
    built name (some client) = inl client

    client_of : String → ConnectionProfile → Option (ConnectionType Client) → Client ⊎ ResolveError
    unfolding built
    client_of name profile none = inr (unknown_type name)
    client_of name profile (some t) = built name (t.build_client profile.config)

    unfoldable pub resolve_connections : GraphSpec → Resolved Client
    unfolding resolve_names client_of
    resolve_connections g =
        resolve_names (λ name profile. client_of name profile (get types profile.type)) []
          (referenced_connection_names g)
