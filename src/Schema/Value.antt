-- ===== src/Schema/Value.antt =====
-- The values of the configuration dictionaries and slots (`Any` in backend/schema/models.py).
-- A number is its JSON text: the program hands numbers on and never computes with one.
use agent_graph_studio.Prelude.{String, Bool}

mutual
  pub data Value : Type 0 where
    null : Value
    bool : Bool → Value
    number : String → Value
    text : String → Value
    array : Items → Value
    object : Fields → Value

  pub data Items : Type 0 where
    nil : Items
    cons : Value → Items → Items

  pub data Fields : Type 0 where
    end : Fields
    field : String → Value → Fields → Fields
