-- ===== src/Connections/Store.antt =====
-- backend/connections/store.py: connection profiles, named by `(user_id, name)`. An operation reads
-- the file, computes on the list of profiles, and writes it back; `File` has that part.
pub mod File
pub mod Unique
pub mod Scope
pub mod Deletion
use agent_graph_studio.Prelude.{
  if◌then◌else◌, is_some, ◌==◌, string_eq, length, any, filter_list, find, ◌+◌, String, Bool, true,
  false, not, ◌&&◌, ◌||◌, Option, none, some, List, [], ◌∷◌, ◌++◌,
}
use agent_graph_studio.Prelude.{option_eq, nat_eq}
use agent_graph_studio.Prelude.Dict.{Dict}
use agent_graph_studio.Schema.Value.{Value}

pub record ConnectionProfile : Type 0 where
  pub name : String
  pub type : String
  pub config : Dict String Value
  pub user_id : Option String

-- `c.name == name and c.user_id == user_id`
abbrev pub is_at : String → Option String → ConnectionProfile → Bool
is_at name user_id c = c.name == name && c.user_id == user_id

-- What an operation does with the profiles: leave the file as it is, or write the list back.
pub data Change {ℓ} (A : Type ℓ) : Type ℓ where
  keep : A → Change A
  write : List ConnectionProfile → A → Change A
  duplicate : String → Change A

unfoldable pub list_connections : Option String → List ConnectionProfile → List ConnectionProfile
list_connections none profiles =
    filter_list (λ (c : ConnectionProfile). not (is_some c.user_id)) profiles
list_connections (some u) profiles =
    filter_list (λ (c : ConnectionProfile). c.user_id == some u || not (is_some c.user_id)) profiles

unfoldable pub get_connection :
    String → Option String → List ConnectionProfile → Option ConnectionProfile
get_connection name user_id profiles = find (is_at name user_id) profiles

abbrev pub own_or : Option ConnectionProfile → Option ConnectionProfile → Option ConnectionProfile
own_or (some own) global = some own
own_or none global = global

unfoldable pub resolve_connection_for_user :
    String → Option String → List ConnectionProfile → Option ConnectionProfile
unfolding get_connection
resolve_connection_for_user name none profiles = get_connection name none profiles
resolve_connection_for_user name (some u) profiles =
    own_or (get_connection name (some u) profiles) (get_connection name none profiles)

unfoldable pub add_connection :
    String
    → String
    → Dict String Value
    → Option String
    → List ConnectionProfile
    → Change ConnectionProfile
add_connection name type_name config user_id profiles =
    let profile : ConnectionProfile = record {
      name = name;
      type = type_name;
      config = config;
      user_id = user_id;
    } in
    if any (is_at name user_id) profiles
    then duplicate name
    else write (profiles ++ profile ∷ []) profile

unfoldable pub delete_connection : String → Option String → List ConnectionProfile → Change Bool
delete_connection name user_id profiles =
    let remaining = filter_list (λ c. not (is_at name user_id c)) profiles in
    if length remaining == length profiles then keep false else write remaining true

-- The loop of the two updates: the first match is replaced, and returned.
unfoldable pub replace_first :
    (ConnectionProfile → Bool)
    → (ConnectionProfile → ConnectionProfile)
    → List ConnectionProfile
    → List ConnectionProfile
replace_first p f [] = []
replace_first p f (c ∷ cs) = if p c then f c ∷ cs else c ∷ replace_first p f cs

write_update :
    (ConnectionProfile → Bool)
    → (ConnectionProfile → ConnectionProfile)
    → List ConnectionProfile
    → Option ConnectionProfile
    → Change (Option ConnectionProfile)
unfolding replace_first
write_update p f profiles none = keep none
write_update p f profiles (some c) = write (replace_first p f profiles) (some (f c))

unfoldable pub update_connection_config :
    String
    → Option String
    → Dict String Value
    → List ConnectionProfile
    → Change (Option ConnectionProfile)
unfolding write_update
update_connection_config name user_id config profiles =
    write_update (is_at name user_id) (λ c. record c { config = config }) profiles
      (find (is_at name user_id) profiles)

unfoldable pub set_connection_owner :
    String
    → Option String
    → Option String
    → List ConnectionProfile
    → Change (Option ConnectionProfile)
unfolding write_update
set_connection_owner name current_user_id new_user_id profiles =
    if any (is_at name new_user_id) profiles
    then keep none
    else write_update (is_at name current_user_id) (λ c. record c { user_id = new_user_id })
        profiles (find (is_at name current_user_id) profiles)

-- The list of profiles after an operation.
abbrev pub after {ℓ} : {A : Type ℓ} → List ConnectionProfile → Change A → List ConnectionProfile
after profiles (keep a) = profiles
after profiles (write ps a) = ps
after profiles (duplicate name) = profiles
