-- ===== src/Mcp/Generated/Startup.antt =====
-- backend/mcp/generated_nodes.py: `regenerate_all_on_startup`. A generation that fails is logged, and the
-- next connection has its turn.
use agent_graph_studio.Prelude.{
  if◌then◌else◌, Bool-cases, is_some, ◌==◌, string_eq, any, String, ◌≡◌, refl, inl, inr, Bool, not,
  ◌&&◌, Option, none, some, List, [], ◌∷◌, arith, nat_eq, pair_eq, option_eq,
}
use agent_graph_studio.Prelude.Dict.{Dict}
use agent_graph_studio.Schema.Value.{Value}
use agent_graph_studio.Execution.Trace.{ExecutionContext, Execution}
use agent_graph_studio.Connections.Store.{ConnectionProfile}
use agent_graph_studio.Mcp.ApiKeys.{find_any_key_user}
use agent_graph_studio.Mcp.Tokens.{find_any_token_user}
use agent_graph_studio.Mcp.Server.{
  McpServerConnectionConfig, McpServerConfig, is_oauth2, Credentials, Configured,
}
use agent_graph_studio.Mcp.Generated.{McpToolInfo, NodeTypes, generate_node_types_for_connection}

-- Any user with a credential for a global connection.
abbrev any_user : Credentials → String → McpServerConnectionConfig → Option String
any_user c name config =
    if not (is_oauth2 config.auth_type)
    then find_any_key_user c.api_keys name
    else if config.requires_oauth
    then find_any_token_user c.tokens name
    else none

module _ (execute : String → McpToolInfo → Option String → ExecutionContext → Execution)
    (list_tools : McpServerConfig → Option (List McpToolInfo))
    (config_of : Dict String Value → Option McpServerConnectionConfig)
    (server_config : Credentials → McpServerConnectionConfig → String → Option String → Configured)
    (store : List ConnectionProfile) where
  abbrev regenerate_as :
      Credentials × NodeTypes → ConnectionProfile → Option String → Credentials × NodeTypes
  regenerate_as (c, s) p user =
      let (c', (s', result)) =
        generate_node_types_for_connection execute p.name p.user_id list_tools config_of
          server_config store c s user in
      (c', s')

  -- `none` is the error of a global connection's config, which is not caught.
  abbrev regenerate_global :
      Credentials × NodeTypes
      → ConnectionProfile
      → Option McpServerConnectionConfig
      → Option (Credentials × NodeTypes)
  regenerate_global (c, s) p none = none
  regenerate_global (c, s) p (some config) =
      some (regenerate_as (c, s) p (any_user c p.name config))

  abbrev regenerate :
      Credentials × NodeTypes → ConnectionProfile → Option String → Option (Credentials × NodeTypes)
  regenerate cs p none = regenerate_global cs p (config_of p.config)
  regenerate cs p (some owner) = some (regenerate_as cs p (some owner))

  abbrev then_rest_of :
      Option (Credentials × NodeTypes)
      → (Credentials × NodeTypes → Option (Credentials × NodeTypes))
      → Option (Credentials × NodeTypes)
  then_rest_of none rest = none
  then_rest_of (some cs) rest = rest cs

  unfoldable pub regenerate_all_on_startup :
      List ConnectionProfile → Credentials × NodeTypes → Option (Credentials × NodeTypes)
  regenerate_all_on_startup [] cs = some cs
  regenerate_all_on_startup (p ∷ ps) cs =
      if p.type == "mcp_server"
      then then_rest_of (regenerate cs p p.user_id) (λ cs'. regenerate_all_on_startup ps cs')
      else regenerate_all_on_startup ps cs

  -- A global connection to a tool server whose config is not read.
  abbrev pub is_unreadable : ConnectionProfile → Bool
  is_unreadable p =
      p.type == "mcp_server" && (not (is_some p.user_id) && not (is_some (config_of p.config)))

  then_rest_of-is_some :
      (o : Option (Credentials × NodeTypes))
      (rest : Credentials × NodeTypes → Option (Credentials × NodeTypes)) (b : Bool)
      → ((cs : Credentials × NodeTypes) → is_some (rest cs) ≡ b)
      → is_some (then_rest_of o rest) ≡ (is_some o && b)
  then_rest_of-is_some none rest b h = refl
  then_rest_of-is_some (some cs) rest b h = h cs

  regenerate_global-is_some :
      (cs : Credentials × NodeTypes) (p : ConnectionProfile) (o : Option McpServerConnectionConfig)
      → is_some (regenerate_global cs p o) ≡ is_some o
  regenerate_global-is_some cs p none = refl
  regenerate_global-is_some cs p (some config) = refl

  regenerate-is_some :
      (cs : Credentials × NodeTypes) (p : ConnectionProfile) (owner : Option String)
      → is_some (regenerate cs p owner)
        ≡ not (not (is_some owner) && not (is_some (config_of p.config)))
  regenerate-is_some cs p none = ground (arith, regenerate_global-is_some cs p (config_of p.config))
  regenerate-is_some cs p (some owner) = refl

  -- The generation at a start raises exactly if there is a global connection to a tool server whose config is
  -- not read; no answer of a server, and no credential that is missing, makes it raise.
  pub regenerate_all_on_startup-is_some :
      (ps : List ConnectionProfile) (cs : Credentials × NodeTypes)
      → is_some (regenerate_all_on_startup ps cs) ≡ not (any is_unreadable ps)
  unfolding regenerate_all_on_startup
  regenerate_all_on_startup-is_some [] cs = refl
  regenerate_all_on_startup-is_some (p ∷ ps) cs = elim (Bool-cases (p.type == "mcp_server")) [
    | inl e ↦ rw e (
        ground (
          arith,
          then_rest_of-is_some (regenerate cs p p.user_id) (λ cs'. regenerate_all_on_startup ps cs')
              (not (any is_unreadable ps)) (λ cs'. regenerate_all_on_startup-is_some ps cs'),
          regenerate-is_some cs p p.user_id,
        ))
    | inr e ↦ rw e (regenerate_all_on_startup-is_some ps cs)
  ]
