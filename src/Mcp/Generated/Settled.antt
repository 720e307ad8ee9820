-- ===== src/Mcp/Generated/Settled.antt =====
-- backend/mcp/generated_nodes.py: what a generation leaves, on every branch.
use agent_graph_studio.Prelude.{
  Bool-cases, ◌==◌, string_eq, String, ◌≡◌, refl, ◌⊎◌, inl, inr, Bool, Option, none, some, List, [],
  ◌∷◌, nat_eq, pair_eq, option_eq,
}
use agent_graph_studio.Prelude.Dict.{Dict}
use agent_graph_studio.Schema.Value.{Value}
use agent_graph_studio.Execution.Trace.{ExecutionContext, Execution}
use agent_graph_studio.Connections.Store.{ConnectionProfile, get_connection}
use agent_graph_studio.Mcp.Server.{
  McpServerConnectionConfig, McpServerConfig, Credentials, Configured,
}
use agent_graph_studio.Mcp.Generated.{
  McpToolInfo, NodeTypes, type_taken, Generated, register_tools, after_registration, named_too,
  track, replace_types, listed_types, discovered, with_server_config, with_server_profile,
  generate_node_types_for_connection,
}
use agent_graph_studio.Mcp.Generated.Registering.{IsReplaced, replace_types-IsReplaced}
use agent_graph_studio.Registry.{Registration, registered, duplicate_type, no_such_result_slot}

module _ (execute : String → McpToolInfo → Option String → ExecutionContext → Execution)
    (name : String) (owner : Option String)
    (list_tools : McpServerConfig → Option (List McpToolInfo)) (s : NodeTypes) where
  -- Either the types of the listed tools have taken the place of the connection's, or nothing has changed, or
  -- a type of the same name was there.
  abbrev pub IsSettled : Generated → Type 0
  IsSettled (s', inl ts) =
      (server : McpServerConfig) × (tools : List McpToolInfo) × (list_tools server ≡ some tools)
      × IsReplaced execute name owner s s' tools ts
  IsSettled (s', inr e) = (s' ≡ s) ⊎ (t : String) × (e ≡ type_taken t)

  Taken : Generated → Type 0
  Taken (q, inl ts) = Unit
  Taken (q, inr e) = (t : String) × (e ≡ type_taken t)

  named_too-Taken : (n : String) (g : Generated) → Taken g → Taken (named_too n g)
  unfolding Taken
  named_too-Taken n (q, inl ts) h = tt
  named_too-Taken n (q, inr e) h = h

  after_registration-Taken :
      (q : NodeTypes) (shaped : Bool) (tool : McpToolInfo) (rest : NodeTypes → Generated)
      (r : Registration)
      → ((p : NodeTypes) → Taken (rest p))
      → Taken (after_registration execute name owner q shaped tool rest r)
  unfolding Taken
  after_registration-Taken q shaped tool rest (registered defs) k = named_too-Taken _ _ (k _)
  after_registration-Taken q shaped tool rest (duplicate_type t) k = (t, refl)
  after_registration-Taken q shaped tool rest (no_such_result_slot t slot) k = (t, refl)

  register_tools-Taken :
      (tools : List McpToolInfo) (q : NodeTypes) (shaped : Bool)
      → Taken (register_tools execute name owner q shaped tools)
  unfolding Taken register_tools
  register_tools-Taken [] q shaped = tt
  register_tools-Taken (tool ∷ tools) q shaped =
      after_registration-Taken q shaped tool (λ p. register_tools execute name owner p shaped tools)
        _ (λ p. register_tools-Taken tools p shaped)

  track-Taken : (g : Generated) → Taken g → Taken (track execute name owner g)
  unfolding Taken
  track-Taken (q, inl ts) h = tt
  track-Taken (q, inr e) h = h

  listed-IsSettled :
      (server : McpServerConfig) (tools : List McpToolInfo) (g : Generated)
      → list_tools server ≡ some tools
      → replace_types execute name owner s tools ≡ g
      → Taken g
      → IsSettled g
  unfolding Taken
  listed-IsSettled server tools (s', inl ts) l h k =
      (server, tools, l, replace_types-IsReplaced execute name owner s s' tools ts h)
  listed-IsSettled server tools (s', inr e) l h k = inr k

  listed_types-IsSettled :
      (server : McpServerConfig) (o : Option (List McpToolInfo))
      → list_tools server ≡ o
      → IsSettled (listed_types execute name owner list_tools s o)
  listed_types-IsSettled server none l = inl refl
  listed_types-IsSettled server (some tools) l =
      listed-IsSettled server tools (replace_types execute name owner s tools) l refl
        (unfold replace_types in track-Taken _ (register_tools-Taken tools _ _))

  discovered-IsSettled :
      (c : Credentials) (o : Configured)
      → IsSettled (discovered execute name owner list_tools c s o).1
  discovered-IsSettled c (c', inr e) = inl refl
  discovered-IsSettled c (c', inl server) = listed_types-IsSettled server (list_tools server) refl

  module _ (config_of : Dict String Value → Option McpServerConnectionConfig)
      (server_config : Credentials
        → McpServerConnectionConfig
        → String
        → Option String
        → Configured)
      (store : List ConnectionProfile) (c : Credentials) (user : Option String) where
    with_server_config-IsSettled :
        (o : Option McpServerConnectionConfig)
        → IsSettled
            (with_server_config execute name owner list_tools config_of server_config store c s user
              o).1
    with_server_config-IsSettled none = inl refl
    with_server_config-IsSettled (some config) = discovered-IsSettled c _

    with_server_profile-IsSettled :
        (o : Option ConnectionProfile)
        → IsSettled
            (with_server_profile execute name owner list_tools config_of server_config store c s
              user o).1
    with_server_profile-IsSettled none = inl refl
    with_server_profile-IsSettled (some p) = elim (Bool-cases (p.type == "mcp_server")) [
      | inl h ↦ rw h (with_server_config-IsSettled (config_of p.config))
      | inr h ↦ rw h (inl refl)
    ]

    -- A generation puts the types of the tools that the server lists in the place of those that the
    -- connection had, and keeps track of them, while every other type stays; or it fails and leaves all as it
    -- was, unless it fails because a type of the same name is there.
    pub generate_node_types_for_connection-IsSettled :
        IsSettled
          (generate_node_types_for_connection execute name owner list_tools config_of server_config
            store c s user).1
    unfolding generate_node_types_for_connection
    generate_node_types_for_connection-IsSettled =
        with_server_profile-IsSettled (get_connection name owner store)
