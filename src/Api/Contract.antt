-- ===== src/Api/Contract.antt =====
-- backend/api/app.py: the contract of a graph that is invoked from outside, and the writing of the inputs.
-- `truthy` is the text of a config value that is true in Python.
pub mod Names
pub mod Filled
use agent_graph_studio.Prelude.{
  if◌then◌else◌, is_some, ◌==◌, string_eq, any, filter_list, String, ◌⊎◌, inl, inr, Bool, false,
  not, ◌&&◌, Option, none, some, List, [], ◌∷◌, ◌++◌, map, nat_eq, pair_eq, option_eq,
}
use agent_graph_studio.Prelude.Dict.{Dict, get, put, has, keys}
use agent_graph_studio.Schema.Value.{Value, text}
use agent_graph_studio.Schema.Models.{NodeSpec, GraphSpec}

pub record InvokeContractField : Type 0 where
  pub name : String
  pub node_id : String
  pub direction : String
  pub required : Bool
  pub default : Option String

-- The two name tables, and the fields.
pub record Contract : Type 0 where
  pub input_ids : Dict String String
  pub output_ids : Dict String String
  pub input_fields : List InvokeContractField
  pub output_fields : List InvokeContractField

abbrev pub no_contract : Contract
no_contract = record { input_ids = []; output_ids = []; input_fields = []; output_fields = [] }

abbrev pub truthy_or : Option String → String → String
truthy_or none s = s
truthy_or (some t) s = t

abbrev pub and_truthy : (Value → Option String) → Option Value → Option String
and_truthy truthy none = none
and_truthy truthy (some v) = truthy v

-- `node.config.get("label") or node.id`
abbrev pub external_name : (Value → Option String) → NodeSpec → String
external_name truthy node = truthy_or (and_truthy truthy (get node.config "label")) node.id

abbrev pub input_field : (Value → Option String) → NodeSpec → InvokeContractField
input_field truthy node =
    let default = and_truthy truthy (get node.config "value") in
    record {
      name = external_name truthy node;
      node_id = node.id;
      direction = "input";
      required = not (is_some default);
      default = default;
    }

abbrev output_field : (Value → Option String) → NodeSpec → InvokeContractField
output_field truthy node = record {
  name = external_name truthy node;
  node_id = node.id;
  direction = "output";
  required = false;
  default = none;
}

-- One round of the loop; `inr` is the ContractError with the name.
unfoldable pub contract_node : (Value → Option String) → Contract → NodeSpec → Contract ⊎ String
contract_node truthy c node =
    let name = external_name truthy node in
    if node.type == "text_input"
    then (if has c.input_ids name
        then inr name
        else inl (record c {
          input_ids = put c.input_ids name node.id;
          input_fields = c.input_fields ++ input_field truthy node ∷ [];
        }))
    else if node.type == "text_output"
    then (if has c.output_ids name
        then inr name
        else inl (record c {
          output_ids = put c.output_ids name node.id;
          output_fields = c.output_fields ++ output_field truthy node ∷ [];
        }))
    else inl c

abbrev pub then_contract {ℓ} :
    {A : Type ℓ} → Contract ⊎ String → (Contract → A ⊎ String) → A ⊎ String
then_contract (inl c) f = f c
then_contract (inr e) f = inr e

unfoldable pub contract_nodes :
    (Value → Option String) → Contract → List NodeSpec → Contract ⊎ String
unfolding contract_node
contract_nodes truthy c [] = inl c
contract_nodes truthy c (node ∷ nodes) =
    then_contract (contract_node truthy c node) (λ d. contract_nodes truthy d nodes)

unfoldable pub build_contract : (Value → Option String) → GraphSpec → Contract ⊎ String
unfolding contract_nodes
build_contract truthy g = contract_nodes truthy no_contract g.nodes

-- `nodes_by_id[id].config["value"] = value`, where the last node of an id is the one that is indexed
unfoldable pub set_value : List NodeSpec → String → String → List NodeSpec
set_value [] id value = []
set_value (node ∷ nodes) id value =
    (if node.id == id && not (any (λ (n : NodeSpec). n.id == id) nodes)
      then record node { config = put node.config "value" (text value) }
      else node)
    ∷ set_value nodes id value

abbrev pub apply_at : List NodeSpec → Option String → String → List NodeSpec
apply_at nodes none value = nodes
apply_at nodes (some id) value = set_value nodes id value

-- Every supplied name is one of the table's when this is called.
unfoldable pub apply_inputs :
    List NodeSpec → Dict String String → Dict String String → List NodeSpec
unfolding set_value
apply_inputs nodes input_ids [] = nodes
apply_inputs nodes input_ids ((name, value) ∷ supplied) =
    apply_inputs (apply_at nodes (get input_ids name) value) input_ids supplied

abbrev pub unknown_inputs : Dict String String → Dict String String → List String
unknown_inputs input_ids supplied = filter_list (λ name. not (has input_ids name)) (keys supplied)

abbrev pub omitted_inputs : List InvokeContractField → Dict String String → List String
omitted_inputs fields supplied =
    map (λ (f : InvokeContractField). f.name)
      (filter_list (λ (f : InvokeContractField). f.required && not (has supplied f.name)) fields)
