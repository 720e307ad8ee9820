-- ===== src/Mcp/Generated/Registering.antt =====
-- backend/mcp/generated_nodes.py: which node types there are after a generation, and whose names meet.
use Prim.Native.String.{◌++◌ as str_append}
use agent_graph_studio.Prelude.{
  if◌then◌else◌, Bool-cases, is_some, ◌==◌, string_eq, filter_list, contains, String, ◌≡◌, refl,
  sym, ap, subst, ◌∙◌, inl, inr, Bool, true, false, not, Option, none, some, List, [], ◌∷◌, map,
  arith, nat_eq, pair_eq, option_eq,
}
use agent_graph_studio.Prelude.Text.{str_append_assoc}
use agent_graph_studio.Prelude.Dict.{Dict, get, put, pop, get-pop}
use agent_graph_studio.Execution.Trace.{ExecutionContext, Execution}
use agent_graph_studio.Registry.{
  NodeDefinition, NodeRegistry, Registration, registered, duplicate_type, no_such_result_slot,
  register, unregister, get_type,
}
use agent_graph_studio.Registry.Laws.{get_type-register}
use agent_graph_studio.Mcp.Generated.{
  McpToolInfo, joined, type_name_for, NodeTypes, or_no_types, unregister_types,
  unregister_for_connection, definition_for, is_context7_shaped, bind_option, Generated, named_too,
  after_registration, register_tools, track, replace_types,
}

-- The types of a user's private connection have the names of those of a global connection whose name is the
-- user's id and that connection's name, joined as the function joins them.
pub type_name_for-collides :
    (owner connection_name tool_name : String)
    → type_name_for connection_name tool_name (some owner)
      ≡ type_name_for (str_append "u_" (joined owner connection_name)) tool_name none
unfolding type_name_for
type_name_for-collides owner connection_name tool_name =
    let rest = str_append "__" tool_name in
    ap (joined "mcp") (
      sym (
        str_append_assoc "u_" (joined owner connection_name) rest
        ∙ ap (str_append "u_") (
            str_append_assoc owner (str_append "__" connection_name) rest
            ∙ ap (str_append owner) (str_append_assoc "__" connection_name rest))))

get_type-unregister_types :
    (s : NodeTypes) (ts : List String) (t : String)
    → get_type (unregister_types s ts).registry t
      ≡ (if contains ts t then none else get_type s.registry t)
unfolding unregister_types unregister get_type
get_type-unregister_types s [] t = refl
get_type-unregister_types s (x ∷ ts) t = ground (
  arith,
  get-pop s.registry x t,
  get_type-unregister_types
      (record s {
        registry = unregister s.registry x;
        bindings = filter_list (λ (b : String × String). not (b.0 == x)) s.bindings;
      })
      ts t,
)

generated-unregister_types :
    (ts : List String) (s : NodeTypes) → (unregister_types s ts).generated ≡ s.generated
unfolding unregister_types
generated-unregister_types [] s = refl
generated-unregister_types (t ∷ ts) s = generated-unregister_types ts _

module _ (execute : String → McpToolInfo → Option String → ExecutionContext → Execution)
    (name : String) (owner : Option String) where
  abbrev names_of : List McpToolInfo → List String
  names_of tools = map (λ (t : McpToolInfo). type_name_for name t.name owner) tools

  -- What a loop over the tools that comes to its end has registered.
  record Registers (s s' : NodeTypes) (ts : List String) : Type 0 where
    tracked : s'.generated ≡ s.generated
    there : (t : String) → contains ts t ≡ true → is_some (get_type s'.registry t) ≡ true
    other : (t : String) → contains ts t ≡ false → get_type s'.registry t ≡ get_type s.registry t

  named_too-inl :
      (n : String) (q : Generated) (s' : NodeTypes) (ts : List String)
      → named_too n q ≡ (s', inl ts)
      → (rest : List String) × (q ≡ (s', inl rest)) × (n ∷ rest ≡ ts)
  named_too-inl n (s, inl rest) s' ts h = (rest, ground arith, ground arith)
  named_too-inl n (s, inr e) s' ts h = absurd (ground arith)

  then-Registers :
      (s s' : NodeTypes) (defs : NodeRegistry) (d : NodeDefinition)
      (bindings : List (String × String)) (rest : List String)
      → register s.registry d ≡ registered defs
      → Registers (record s { registry = defs; bindings = bindings }) s' rest
      → Registers s s' (d.type_name ∷ rest)
  then-Registers s s' defs d bindings rest e v = record {
    tracked = v.tracked;
    there = λ t h. elim (Bool-cases (contains rest t)) [
      | inl k ↦ v.there t k
      | inr k ↦
          let (free, found) = get_type-register s.registry defs d t e in
          let same : (d.type_name == t) ≡ true = ground arith in cc (v.other t k, rw same at found)
    ];
    other = λ t h.
        let (free, found) = get_type-register s.registry defs d t e in
        let new : (d.type_name == t) ≡ false = ground arith in
        v.other t (ground arith) ∙ (rw new at found);
  }

  after_registration-Registers :
      (names : List String) (rest : NodeTypes → Generated) (s s' : NodeTypes) (shaped : Bool)
      (tool : McpToolInfo) (ts : List String)
      → ((q : NodeTypes) (us : List String)
          → rest q ≡ (s', inl us)
          → (us ≡ names) × Registers q s' us)
      → (r : Registration) → register s.registry (definition_for execute name owner tool) ≡ r
      → after_registration execute name owner s shaped tool rest r ≡ (s', inl ts)
      → (ts ≡ type_name_for name tool.name owner ∷ names) × Registers s s' ts
  after_registration-Registers names rest s s' shaped tool ts k (registered defs) e h =
      let n = type_name_for name tool.name owner in
      let bindings = bind_option shaped tool n s.bindings in
      let (us, done, same) =
        named_too-inl n (rest (record s { registry = defs; bindings = bindings })) s' ts h in
      let (all, v) = k (record s { registry = defs; bindings = bindings }) us done in
      (
        sym same ∙ ap (λ (x : List String). n ∷ x) all,
        subst (Registers s s') same
            (then-Registers s s' defs (definition_for execute name owner tool) bindings us e v),
      )
  after_registration-Registers names rest s s' shaped tool ts k (duplicate_type t) e h =
      absurd (ground arith)
  after_registration-Registers names rest s s' shaped tool ts k (no_such_result_slot t slot) e h =
      absurd (ground arith)

  register_tools-Registers :
      (tools : List McpToolInfo) (s s' : NodeTypes) (shaped : Bool) (ts : List String)
      → register_tools execute name owner s shaped tools ≡ (s', inl ts)
      → (ts ≡ names_of tools) × Registers s s' ts
  unfolding register_tools
  register_tools-Registers [] s s' shaped ts h =
      let same : s ≡ s' = ap (λ (g : Generated). g.0) h in
      let none_made : [] ≡ ts = ground arith in
      (
        sym none_made,
        subst (λ (q : NodeTypes). Registers s q ts) same
            (subst (Registers s s) none_made (record {
              tracked = refl;
              there = λ t k. absurd (ground arith);
              other = λ t k. refl;
            })),
      )
  register_tools-Registers (tool ∷ tools) s s' shaped ts h =
      after_registration-Registers (names_of tools)
        (λ q. register_tools execute name owner q shaped tools) s s' shaped tool ts
        (λ q us k. register_tools-Registers tools q s' shaped us k)
        (register s.registry (definition_for execute name owner tool)) refl h

  -- The tools' types are registered and tracked; of the other types, those that the connection had before are
  -- gone, and all the rest is as it was.
  pub record IsReplaced (s s' : NodeTypes) (tools : List McpToolInfo) (ts : List String)
      : Type 0 where
    pub named : ts ≡ map (λ (t : McpToolInfo). type_name_for name t.name owner) tools
    pub tracked : s'.generated ≡ put (pop s.generated (owner, name)) (owner, name) ts
    pub there : (t : String) → contains ts t ≡ true → is_some (get_type s'.registry t) ≡ true
    pub other :
        (t : String)
        → contains ts t ≡ false
        → get_type s'.registry t ≡ (
            if contains (or_no_types (get s.generated (owner, name))) t
            then none
            else get_type s.registry t)

  track-inl :
      (g : Generated) (s' : NodeTypes) (ts : List String)
      → track execute name owner g ≡ (s', inl ts)
      → (q : NodeTypes) × (g ≡ (q, inl ts))
        × (s' ≡ record q { generated = put q.generated (owner, name) ts })
  track-inl (q, inl us) s' ts h =
      let same : us ≡ ts = ground arith in
      (
        q,
        ap (λ (x : List String). (q, inl x)) same,
        sym (ap (λ (g : Generated). g.0) h)
            ∙ ap (λ (x : List String). record q { generated = put q.generated (owner, name) x })
                same,
      )
  track-inl (q, inr e) s' ts h = absurd (ground arith)

  pub replace_types-IsReplaced :
      (s s' : NodeTypes) (tools : List McpToolInfo) (ts : List String)
      → replace_types execute name owner s tools ≡ (s', inl ts)
      → IsReplaced s s' tools ts
  unfolding replace_types unregister_for_connection
  replace_types-IsReplaced s s' tools ts h =
      let old = or_no_types (get s.generated (owner, name)) in
      let cleared = unregister_types (record s { generated = pop s.generated (owner, name) }) old in
      let (q, made, same) =
        track-inl (register_tools execute name owner cleared (is_context7_shaped tools) tools) s' ts
          h in
      let (all, v) = register_tools-Registers tools cleared q (is_context7_shaped tools) ts made in
      rw same (record {
        named = all;
        tracked =
            ap (λ (d : Dict (Option String × String) (List String)). put d (owner, name) ts)
              (v.tracked ∙ generated-unregister_types old _);
        there = v.there;
        other = λ t k. v.other t k ∙ get_type-unregister_types _ old t;
      })
