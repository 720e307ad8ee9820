-- ===== src/Api/Options.antt =====
-- backend/api/app.py: `resolve_node_type_options` with its cache. The bindings, the config model, the call
-- of the tool server and the clock are parameters; times are whole seconds.
use agent_graph_studio.Prelude.{
  ltb, if◌then◌else◌, Bool-cases, ◌==◌, string_eq, ℕ, ◌-◌, ◌<◌, String, ◌≡◌, refl, subst, inl, inr,
  true, Option, none, some, List, arith, nat_eq, pair_eq, option_eq,
}
use agent_graph_studio.Prelude.Dict.{Dict, get, put, get-put_self}
use agent_graph_studio.Schema.Value.{Value}
use agent_graph_studio.Connections.Store.{ConnectionProfile, resolve_connection_for_user}

-- `(connection_name, field_name, tuple(sorted(arguments.items())))`, with the arguments as one text
abbrev pub OptionKey : Type 0
OptionKey = String × (String × String)

pub record OptionBinding (Config Options : Type 0) : Type 0 where
  pub arguments : Dict String Value → String
  -- the call of `source_tool` for a user's token, where `none` is any exception, and its parsed answer, where
  -- `none` is an exception of `parse`
  pub fetch : Config → String → Option String → String → Option (Option Options)

pub data OptionsReply (Options : Type 0) : Type 0 where
  no_binding unknown_connection not_mcp_server invalid_config failed_to_load crashed :
      OptionsReply Options
  options : Options → OptionsReply Options

module _ {Config Options : Type 0}
    (bindings : Dict (String × String) (OptionBinding Config Options))
    (validated : Dict String Value → Option Config) (store : List ConnectionProfile) where
  abbrev pub OptionCache : Type 0
  OptionCache = Dict OptionKey (ℕ × Options)

  -- `caller if profile.user_id is None else profile.user_id`
  abbrev pub token_user : Option String → Option String → Option String
  token_user caller none = caller
  token_user caller (some owner) = some owner

  fetched :
      OptionCache → OptionKey → ℕ → Option (Option Options) → OptionCache × OptionsReply Options
  fetched cache key now none = (cache, failed_to_load)
  fetched cache key now (some none) = (cache, crashed)
  fetched cache key now (some (some o)) = (put cache key (now, o), options o)

  -- The entry of the cache, if it is younger than a minute.
  abbrev pub young : ℕ → Option (ℕ × Options) → Option Options
  young now none = none
  young now (some (at, o)) = if ltb (now - at) 60 then some o else none

  cached_or :
      OptionCache
      → OptionKey
      → ℕ
      → Option Options
      → Option (Option Options)
      → OptionCache × OptionsReply Options
  unfolding fetched
  cached_or cache key now (some o) fresh = (cache, options o)
  cached_or cache key now none fresh = fetched cache key now fresh

  with_config :
      OptionCache
      → OptionBinding Config Options
      → String
      → String
      → Dict String Value
      → Option String
      → ℕ
      → ConnectionProfile
      → Option Config
      → OptionCache × OptionsReply Options
  unfolding cached_or
  with_config cache b field name current caller now p none = (cache, invalid_config)
  with_config cache b field name current caller now p (some config) =
      let key : OptionKey = (name, (field, b.arguments current)) in
      cached_or cache key now (young now (get cache key))
        (b.fetch config name (token_user caller p.user_id) (b.arguments current))

  with_profile :
      OptionCache
      → OptionBinding Config Options
      → String
      → String
      → Dict String Value
      → Option String
      → ℕ
      → Option ConnectionProfile
      → OptionCache × OptionsReply Options
  unfolding with_config
  with_profile cache b field name current caller now none = (cache, unknown_connection)
  with_profile cache b field name current caller now (some p) =
      if p.type == "mcp_server"
      then with_config cache b field name current caller now p (validated p.config)
      else (cache, not_mcp_server)

  with_binding :
      OptionCache
      → Option (OptionBinding Config Options)
      → String
      → String
      → Dict String Value
      → Option String
      → ℕ
      → OptionCache × OptionsReply Options
  unfolding with_profile
  with_binding cache none field name current caller now = (cache, no_binding)
  with_binding cache (some b) field name current caller now =
      with_profile cache b field name current caller now
        (resolve_connection_for_user name caller store)

  unfoldable pub resolve_node_type_options :
      OptionCache
      → String
      → String
      → String
      → Dict String Value
      → Option String
      → ℕ
      → OptionCache × OptionsReply Options
  unfolding with_binding
  resolve_node_type_options cache type_name field name current caller now =
      with_binding cache (get bindings (type_name, field)) field name current caller now

  fetched-fills :
      (cache cache' : OptionCache) (key : OptionKey) (now : ℕ) (fresh : Option (Option Options))
      (o : Options)
      → cached_or cache key now none fresh ≡ (cache', options o)
      → get cache' key ≡ some (now, o)
  unfolding cached_or fetched
  fetched-fills cache cache' key now none o h = absurd (ground arith)
  fetched-fills cache cache' key now (some none) o h = absurd (ground arith)
  fetched-fills cache cache' key now (some (some x)) o h =
      let same : x ≡ o = ground arith in
      let after : put cache key (now, x) ≡ cache' = ground arith in
      subst (λ d. get d key ≡ some (now, o)) after
        (subst (λ y. get (put cache key (now, x)) key ≡ some (now, y)) same
          (get-put_self cache key (now, x)))

  with_config-fills :
      (cache cache' : OptionCache) (b : OptionBinding Config Options) (field name : String)
      (current : Dict String Value) (caller : Option String) (now : ℕ) (p : ConnectionProfile)
      (c : Option Config) (o : Options)
      → with_config cache b field name current caller now p c ≡ (cache', options o)
      → get cache (name, (field, b.arguments current)) ≡ none
      → get cache' (name, (field, b.arguments current)) ≡ some (now, o)
  unfolding with_config
  with_config-fills cache cache' b field name current caller now p none o h e =
      absurd (ground arith)
  with_config-fills cache cache' b field name current caller now p (some config) o h e =
      fetched-fills cache cache' (name, (field, b.arguments current)) now _ o
        (subst
          (λ x.
            cached_or cache (name, (field, b.arguments current)) now (young now x)
              (b.fetch config name (token_user caller p.user_id) (b.arguments current))
            ≡ (cache', options o))
          e h)

  with_profile-fills :
      (cache cache' : OptionCache) (b : OptionBinding Config Options) (field name : String)
      (current : Dict String Value) (caller : Option String) (now : ℕ)
      (p : Option ConnectionProfile) (o : Options)
      → with_profile cache b field name current caller now p ≡ (cache', options o)
      → get cache (name, (field, b.arguments current)) ≡ none
      → get cache' (name, (field, b.arguments current)) ≡ some (now, o)
  unfolding with_profile
  with_profile-fills cache cache' b field name current caller now none o h e = absurd (ground arith)
  with_profile-fills cache cache' b field name current caller now (some p) o h e =
      elim (Bool-cases (p.type == "mcp_server")) [
        | inl t ↦
            with_config-fills cache cache' b field name current caller now p (validated p.config) o
              (ground arith) e
        | inr t ↦ absurd (ground arith)
      ]

  with_profile-reads :
      (cache : OptionCache) (b : OptionBinding Config Options) (field name : String)
      (current : Dict String Value) (other : Option String) (now later : ℕ) (q : ConnectionProfile)
      (c : Config) (o : Options)
      → (q.type == "mcp_server") ≡ true
      → validated q.config ≡ some c
      → get cache (name, (field, b.arguments current)) ≡ some (now, o)
      → later - now < 60
      → (with_profile cache b field name current other later (some q)).1 ≡ options o
  unfolding with_profile with_config cached_or
  with_profile-reads cache b field name current other now later q c o t v e l =
      let fresh : ltb (later - now) 60 ≡ true = ground arith in rw (t, v, e, fresh) refl

  -- What one caller's request put into the cache answers every other caller's request for the same
  -- connection name, field and arguments within a minute, if that name stands for a valid connection of
  -- the same kind to that caller, be it another connection with another account behind it.
  pub resolve_node_type_options-shared :
      (cache cache' : OptionCache) (type_name field name : String) (current : Dict String Value)
      (caller other : Option String) (now later : ℕ) (b : OptionBinding Config Options)
      (q : ConnectionProfile) (c : Config) (o : Options)
      → get bindings (type_name, field) ≡ some b
      → get cache (name, (field, b.arguments current)) ≡ none
      → resolve_node_type_options cache type_name field name current caller now
        ≡ (cache', options o)
      → resolve_connection_for_user name other store ≡ some q
      → (q.type == "mcp_server") ≡ true
      → validated q.config ≡ some c
      → later - now < 60
      → (resolve_node_type_options cache' type_name field name current other later).1 ≡ options o
  unfolding resolve_node_type_options with_binding
  resolve_node_type_options-shared cache cache' type_name field name current caller other now later
        b q c o bound free h seen t v l =
      let filled : get cache' (name, (field, b.arguments current)) ≡ some (now, o) =
        with_profile-fills cache cache' b field name current caller now
          (resolve_connection_for_user name caller store) o
          (subst (λ x. with_binding cache x field name current caller now ≡ (cache', options o))
            bound h)
          free in
      rw (bound, seen)
        (with_profile-reads cache' b field name current other now later q c o t v filled l)
