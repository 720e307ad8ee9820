-- ===== src/Lib.antt =====
-- A model of the backend of agent-graph-studio: graphs of nodes that are checked, run in rounds, and
-- kept with their connections, keys and histories.
--
-- Parts, and the code that each is about:
--   Prelude      equality classes, lists, dictionaries in order of insertion (a Python `dict`), and
--                integers, shared by all parts
--   Schema       backend/schema: values (Value), slot types (Types), graphs with the checks of their
--                shape (Models), and Kahn's algorithm (Topo)
--   Registry     backend/registry/base.py: node definitions and their registry
--   Validation   backend/validation: `check_structural`, `check_unregistered_types`,
--                `check_required_inputs` and `check_config_schema` (Slots), `check_type_mismatches`
--                and `check_cycles` (Flow), `check_missing_connections` (Names),
--                `check_sub_node_edges` (SubNodes), and `validate_graph` (Validator)
--   Execution    backend/execution: trace records (Trace); `_run_graph_async` as `gather_inputs`
--                (Engine/Gather), one round of the loop (Engine/Round) and the loop (Engine/Loop);
--                `run_graph` (RunGraph); the approval gate (Approvals)
--   Connections  backend/connections/store.py (Store, with its file in Store/File) and resolver.py
--                (Resolver)
--   Storage      backend/storage: graphs_store.py (Graphs), graph_sharing_store.py (Sharing),
--                invoke_keys_store.py (InvokeKeys), runs_store.py (Runs) and users_store.py (Users), over
--                tables (Table)
--   Nodes        backend/nodes/agent.py: the loop of an agent (Agent/Loop) and its lookups (Agent/Setup)
--   Auth         backend/auth/jwt.py: the three kinds of tokens (Tokens)
--   Triggers     backend/triggers: registry.py and scheduler.py (Registry), webhook_sync.py (Sync)
--   Api          backend/api/runs.py: the record of a run (Runs), `create_run` and `execute_run` on all
--                that they change (Runs/Worker), and the counters of active sub-nodes (Runs/Activity);
--                backend/api/app.py: `require_auth` (Auth) and the sign-in (Auth/SignIn), activation and
--                deactivation (Activation/Change), the start of the process and `fire` of
--                backend/triggers/runner.py (Activation/Startup); `submit_run` (Submit), the contract of an
--                invocation (Contract), `invoke_graph` up to its run's thread (Invoke),
--                `create_invoke_key` (Invoke/Keys) and `resolve_node_type_options` (Options); the
--                routes on connections (Connections/Change, Discovery and Create), and what a caller
--                is shown of one (Connections/State)
--   Mcp          backend/mcp: api_key_storage.py (ApiKeys), oauth_token_storage.py with the refresh of
--                oauth_flow.py (Tokens), the configuration and credential of a call (Server), and
--                generated_nodes.py (Generated, with the body of a node in Generated/Execute and the
--                start in Generated/Startup)
--   Examples     concrete graphs and states
--
-- How they interact: `run_graph` validates a graph with the rules, adds the tables of nodes and
-- sub-nodes to the resources, and runs the loop. The loop hands every record to its observer; the run
-- worker builds the run's record from these. The rule on missing connections and the resolver both look
-- names up in the connection store. An agent is a node that finds its model, memory and tools in the
-- tables of the run, and calls the tools' `execute`. Activation validates a graph, registers its jobs and
-- routes, and stores its state; a job or route fires a run as the graph's owner. The credential check
-- stands in front of every route and reads the session tokens and the invoke keys. A submission or an
-- invocation validates a graph and resolves its connections before its run starts, and `run_graph`
-- validates it again. A route on a connection changes the store, the credentials and the registry of node
-- types, which is what the validation and the runs read. A definition of the same name as the function
-- stands for it, and a function of the source with several branches has helpers by clauses beside it.
--
-- State: the loop's variables are the record RunState, and its closure's are Setup. A set or a list of
-- ids is a list, a `dict` is a list of pairs with the first position of a key kept. A node's `execute`,
-- its slot resolver and its config model are functions in its definition. An exception inside a node is
-- a value (`raised`), and one that ends the run is `raised_error` with the events before it. Nodes of
-- one round run at the same time in the source; they share no state in the loop, so the model runs
-- them in order, as the source collects them.
--
-- Fuel: the loop has one round for every node of the graph, since a round with a ready node takes one
-- out of `pending`, and any other round ends it. Kahn's loop has twice as many steps as ids: one for
-- every node that enters its queue at the start, and one for every counter that goes down to zero.
--
-- Parameters: the file's encryption and JSON (a Vault, with laws), the hash of a key, the order of a
-- page of runs, the texts of errors, times and ids; the model's answers, the config models of an agent's
-- nodes and `json.dumps`; PyJWT's `encode` and `decode`; the identity provider's answer; the parsing of a
-- cron text and of a stored graph, the handlers of external webhooks, the bindings of a field's
-- options with their calls, whether a config value is true, Fernet, the answers of tool servers and of
-- their authorization servers. An SQL statement is the operation on the table that it documents.
--
-- Not modelled: the other node types in backend/nodes, the other HTTP routes of backend/api/app.py, the
-- connection types, the clients of tool servers and models, and integrations, which call libraries and
-- services outside the repository; paths, environment variables and locks; the loading of JSON; the
-- settings' store; the canvas in frontend, and discord-mcp-server.
pub mod Prelude
pub mod Schema
pub mod Registry
pub mod Execution
pub mod Validation
pub mod Connections
pub mod Nodes
pub mod Auth
pub mod Triggers
pub mod Storage
pub mod Mcp
pub mod Api
pub mod Examples
