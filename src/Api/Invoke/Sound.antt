-- ===== src/Api/Invoke/Sound.antt =====
-- backend/api/app.py: what an invocation that is started is based on.
use agent_graph_studio.Prelude.{
  All, All-map, Bool-cases, Distinct, any, filter_list, map, not, ◌&&◌, true, false, sym, string_eq,
  ℕ, String, ◌≡◌, refl, ap, subst, ◌∙◌, ◌≢◌, ◌⊎◌, inl, inr, Option, none, some, List, [], ◌∷◌,
  arith, nat_eq, pair_eq, option_eq,
}
use agent_graph_studio.Prelude.Dict.{Dict, get, has, keys}
use agent_graph_studio.Schema.Value.{Value}
use agent_graph_studio.Schema.Models.{GraphSpec, NodeSpec, node_ids}
use agent_graph_studio.Registry.{NodeRegistry}
use agent_graph_studio.Connections.Store.{ConnectionProfile}
use agent_graph_studio.Connections.Resolver.{
  ConnectionType, ResolveError, not_found, unknown_type, invalid_config, Resolved, resolved, failed,
  resolve_connections, resolve_connection_profiles,
}
use agent_graph_studio.Validation.Issue.{ValidationIssue}
use agent_graph_studio.Validation.Validator.{validate_graph}
use agent_graph_studio.Validation.Verdict.{IsSound, validate_graph-IsSound}
use agent_graph_studio.Storage.Graphs.{GraphRow, get_graph}
use agent_graph_studio.Storage.InvokeKeys.{InvokeKeyRow}
use agent_graph_studio.Api.Submit.{RunTask}
use agent_graph_studio.Api.Contract.{
  Contract, build_contract, apply_inputs, unknown_inputs, omitted_inputs,
}
use agent_graph_studio.Api.Contract.{InvokeContractField, no_contract}
use agent_graph_studio.Api.Contract.Names.{
  is_input, has_value, unsupplied, contract_nodes-known, contract_nodes-has_value,
}
use agent_graph_studio.Api.Contract.Filled.{filled, apply_inputs-filled}
use agent_graph_studio.Api.Invoke.{
  invoked, timeout_of, not_resolved, invoke_resolved, invoke_valid, invoke_supplied,
  invoke_contract, invoke_parsed, invoke_row, invoke_graph,
}

module _ {Client : Type 0} (registry : NodeRegistry) (types : Dict String (ConnectionType Client))
    (store : List ConnectionProfile) (truthy : Value → Option String)
    (parse : String → Option GraphSpec) (run_id : String) (key : Option InvokeKeyRow)
    (supplied : Dict String String) (task : RunTask Client) (seconds : ℕ) (c : Contract) where
  -- The run of a graph as a user, with that user's connections and the key's timeout.
  abbrev pub IsRunOf : GraphSpec → Option String → Type 0
  IsRunOf g run_by =
      (task.run_id ≡ run_id)
      × (task.graph ≡ g)
      × (task.running_user_id ≡ run_by)
      × (resolve_connections run_by none store types g ≡ resolved task.connections)
      × (resolve_connection_profiles run_by none store g ≡ resolved task.connection_profiles)
      × (seconds ≡ timeout_of key)
      × IsSound g registry store run_by none

  -- What the steps of the invocation have checked.
  record IsChecked (row : GraphRow) (g : GraphSpec) : Type 0 where
    parsed : parse row.spec_json ≡ some g
    contract : build_contract truthy g ≡ inl c
    known : unknown_inputs c.input_ids supplied ≡ []
    complete : omitted_inputs c.input_fields supplied ≡ []
    run : IsRunOf (record g { nodes = apply_inputs g.nodes c.input_ids supplied }) row.created_by

  -- Every supplied name is that of a text input, every text input has a value of its own or is given one, and
  -- the run is that of the graph in which the text inputs have the values supplied under their names, as
  -- the creator of the stored graph.
  pub record IsInvoked (row : GraphRow) (g : GraphSpec) : Type 0 where
    pub known : All (λ (name : String). any (is_input truthy name) g.nodes ≡ true) (keys supplied)
    pub complete : All (λ (n : NodeSpec). has_value truthy supplied n ≡ true) g.nodes
    pub run : IsRunOf (record g { nodes = map (filled truthy supplied) g.nodes }) row.created_by

  not_resolved-ne-invoked :
      (e : ResolveError)
      → not_resolved registry types store truthy parse run_id e ≢ invoked task seconds c
  not_resolved-ne-invoked (not_found name) h = absurd (ground arith)
  not_resolved-ne-invoked (unknown_type name) h = absurd (ground arith)
  not_resolved-ne-invoked (invalid_config name) h = absurd (ground arith)

  invoke_resolved-runs :
      (g : GraphSpec) (run_by : Option String) (d : Contract) (a : Resolved Client)
      (p : Resolved ConnectionProfile)
      → resolve_connections run_by none store types g ≡ a
      → resolve_connection_profiles run_by none store g ≡ p
      → IsSound g registry store run_by none
      → invoke_resolved registry types store truthy parse run_id g run_by key d a p
        ≡ invoked task seconds c
      → (d ≡ c) × IsRunOf g run_by
  unfolding invoke_resolved
  invoke_resolved-runs g run_by d (failed e) p l k v h = absurd (not_resolved-ne-invoked e h)
  invoke_resolved-runs g run_by d (resolved a) (failed e) l k v h =
      absurd (not_resolved-ne-invoked e h)
  invoke_resolved-runs g run_by d (resolved a) (resolved p) l k v h = (
    ground arith,
    (ground arith, ground arith, ground arith, l ∙ ground arith, k ∙ ground arith, ground arith, v),
  )

  invoke_valid-runs :
      (g : GraphSpec) (run_by : Option String) (d : Contract) (issues : List ValidationIssue)
      → validate_graph g registry store run_by none ≡ issues
      → invoke_valid registry types store truthy parse run_id g run_by key d issues
        ≡ invoked task seconds c
      → (d ≡ c) × IsRunOf g run_by
  unfolding invoke_valid
  invoke_valid-runs g run_by d (i ∷ issues) v h = absurd (ground arith)
  invoke_valid-runs g run_by d [] v h =
      invoke_resolved-runs g run_by d _ _ refl refl
        (validate_graph-IsSound g registry store run_by none v) h

  invoke_supplied-runs :
      (g : GraphSpec) (run_by : Option String) (d : Contract) (us ms : List String)
      → invoke_supplied registry types store truthy parse run_id g run_by key d supplied us ms
        ≡ invoked task seconds c
      → (us ≡ [])
        × (ms ≡ [])
        × (d ≡ c)
        × IsRunOf (record g { nodes = apply_inputs g.nodes d.input_ids supplied }) run_by
  unfolding invoke_supplied
  invoke_supplied-runs g run_by d (u ∷ us) ms h = absurd (ground arith)
  invoke_supplied-runs g run_by d [] (m ∷ ms) h = absurd (ground arith)
  invoke_supplied-runs g run_by d [] [] h =
      let filled = record g { nodes = apply_inputs g.nodes d.input_ids supplied } in
      let (same, run) = invoke_valid-runs filled run_by d _ refl h in (refl, refl, same, run)

  invoke_contract-runs :
      (row : GraphRow) (g : GraphSpec) (d : Contract ⊎ String)
      → parse row.spec_json ≡ some g
      → build_contract truthy g ≡ d
      → invoke_contract registry types store truthy parse run_id g row.created_by key supplied d
        ≡ invoked task seconds c
      → IsChecked row g
  unfolding invoke_contract
  invoke_contract-runs row g (inr name) p b h = absurd (ground arith)
  invoke_contract-runs row g (inl d) p b h =
      let (known, complete, same, run) = invoke_supplied-runs g row.created_by d _ _ h in
      record {
        parsed = p;
        contract = b ∙ ap inl same;
        known = subst (λ (x : Contract). unknown_inputs x.input_ids supplied ≡ []) same known;
        complete =
            subst (λ (x : Contract). omitted_inputs x.input_fields supplied ≡ []) same complete;
        run =
            subst
              (λ (x : Contract).
                IsRunOf (record g { nodes = apply_inputs g.nodes x.input_ids supplied })
                  row.created_by)
              same run;
      }

  invoke_parsed-runs :
      (row : GraphRow) (o : Option GraphSpec)
      → parse row.spec_json ≡ o
      → invoke_parsed registry types store truthy parse run_id row.created_by key supplied o
        ≡ invoked task seconds c
      → (g : GraphSpec) × IsChecked row g
  unfolding invoke_parsed
  invoke_parsed-runs row none p h = absurd (ground arith)
  invoke_parsed-runs row (some g) p h =
      (g, invoke_contract-runs row g (build_contract truthy g) p refl h)

  invoke_row-runs :
      (o : Option GraphRow)
      → invoke_row registry types store truthy parse run_id key supplied o ≡ invoked task seconds c
      → (row : GraphRow) × (o ≡ some row) × (g : GraphSpec) × IsChecked row g
  unfolding invoke_row
  invoke_row-runs none h = absurd (ground arith)
  invoke_row-runs (some row) h =
      let (g, is) = invoke_parsed-runs row (parse row.spec_json) refl h in (row, refl, g, is)

  known_names :
      (ids : Dict String String) (names : List String)
      → filter_list (λ name. not (has ids name)) names ≡ []
      → All (λ (name : String). has ids name ≡ true) names
  known_names ids [] h = tt
  known_names ids (name ∷ names) h = elim (Bool-cases (has ids name)) [
    | inl e ↦ (e, known_names ids names (rw e at h))
    | inr e ↦ let k = rw e at h in absurd (ground arith)
  ]

  all_supplied :
      (fields : List InvokeContractField)
      → omitted_inputs fields supplied ≡ []
      → unsupplied truthy supplied fields ≡ false
  all_supplied [] h = refl
  all_supplied (f ∷ fields) h = elim (Bool-cases (f.required && not (has supplied f.name))) [
    | inl e ↦ let k = rw e at h in absurd (ground arith)
    | inr e ↦ rw e (all_supplied fields (rw e at h))
  ]

  IsChecked-IsInvoked :
      (row : GraphRow) (g : GraphSpec)
      → Distinct (node_ids g)
      → Distinct (keys supplied)
      → IsChecked row g
      → IsInvoked row g
  unfolding build_contract get
  IsChecked-IsInvoked row g ids names k = record {
    known =
        All-map _ _ (keys supplied)
          (λ name h. sym (contract_nodes-known truthy g.nodes no_contract c name k.contract) ∙ h)
          (known_names c.input_ids (keys supplied) k.known);
    complete =
        (contract_nodes-has_value truthy g.nodes no_contract c supplied k.contract
          (all_supplied c.input_fields k.complete)).1;
    run =
        subst (λ (ns : List NodeSpec). IsRunOf (record g { nodes = ns }) row.created_by)
          (apply_inputs-filled truthy g.nodes c supplied k.contract ids names) k.run;
  }

  -- An invocation that is started, of a stored graph with distinct node ids and with distinct names in the
  -- request, gives every text input the value that is supplied under its name, and changes nothing else
  -- of the graph; every supplied name is that of a text input, and every text input has a value of its own
  -- or is given one; the graph is sound for its creator, as whom it runs with the creator's connections,
  -- and the caller waits for the time of the key.
  pub invoke_graph-IsInvoked :
      (graphs : List GraphRow) (graph_id : String) (row : GraphRow) (g : GraphSpec)
      → get_graph graphs graph_id ≡ some row
      → parse row.spec_json ≡ some g
      → Distinct (node_ids g)
      → Distinct (keys supplied)
      → invoke_graph registry types store truthy parse run_id graphs graph_id key supplied
        ≡ invoked task seconds c
      → IsInvoked row g
  unfolding invoke_graph
  invoke_graph-IsInvoked graphs graph_id row g found parsed ids names h =
      let (row', same_row, g', k) = invoke_row-runs (get_graph graphs graph_id) h in
      let row_eq : row' ≡ row = ground (arith, same_row, found) in
      let k' = subst (λ (r : GraphRow). IsChecked r g') row_eq k in
      let g_eq : g' ≡ g = ground (arith, k'.parsed, parsed) in
      IsChecked-IsInvoked row g ids names (subst (λ (x : GraphSpec). IsChecked row x) g_eq k')
