-- ===== src/Domain/Value.antt =====
-- The Python values that JSON carries, `JsonValue` of src/netauto/domain/primitives.py and the
-- untyped `object` of the candidates. `other` is a value of any other type, a float say; the dicts
-- have string keys, and `odd_dict` is one with some other key.
use netauto.Prelude.{Bool, Text}
use netauto.Prelude.Int.{ℤ}

mutual
  pub data Value : Type 0 where
    null other odd_dict : Value
    boolean : Bool → Value
    integer : ℤ → Value
    text : Text → Value
    list : Items → Value
    dict : Fields → Value

  pub data Items : Type 0 where
    nil : Items
    cons : Value → Items → Items

  pub data Fields : Type 0 where
    end : Fields
    field : Text → Value → Fields → Fields
