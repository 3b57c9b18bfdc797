-- ===== src/Values.antt =====
-- `serde_json::Value`, with its accessors in use. A string is its bytes in UTF-8, and a number its
-- text; an object is the list of its fields.
use prelay_server.Base.{Option, none, some, Bool, if◌then◌else◌}
use prelay_server.Text.{Bytes, text_eq}

mutual
  pub data Value : Type 0 where
    null : Value
    bool : Bool → Value
    number : Bytes → Value
    string : Bytes → Value
    array : Items → Value
    object : Fields → Value

  pub data Items : Type 0 where
    empty_array : Items
    item : Value → Items → Items

  pub data Fields : Type 0 where
    empty_object : Fields
    field : Bytes → Value → Fields → Fields

-- `Map::get`.
unfoldable pub get_field : Bytes → Fields → Option Value
get_field key empty_object = none
get_field key (field k value fields) =
    let later = get_field key fields in if text_eq k key then some value else later

-- `Value::get` with a key.
abbrev pub get : Bytes → Value → Option Value
get key (object fields) = get_field key fields
get key _ = none

abbrev pub as_str : Value → Option Bytes
as_str (string s) = some s
as_str _ = none
