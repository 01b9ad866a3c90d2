-- ===== src/Json.antt =====
-- The JSON values that messages and events hold.
use aws_tagging_utils.Base.{String, Bool, true, false, not, Option, none, some, ◌==◌, string_eq}
use aws_tagging_utils.Base.{if◌then◌else◌}

-- A JSON value. Of a number the code only asks whether it is zero, and its text.
mutual
  pub data Json : Type 0 where
    null : Json
    boolean : Bool → Json
    number : Bool → String → Json
    text : String → Json
    array : Items → Json
    object : Fields → Json

  pub data Items : Type 0 where
    no_items : Items
    item : Json → Items → Items

  pub data Fields : Type 0 where
    no_fields : Fields
    field : String → Json → Fields → Fields

-- `msg.get(key)`, with `none` for a missing key
unfoldable pub get_field : Fields → String → Option Json
get_field no_fields key = none
get_field (field k v rest) key = if key == k then some v else get_field rest key

-- `bool(value)` of a value that may be missing
unfoldable pub truthy : Option Json → Bool
truthy none = false
truthy (some null) = false
truthy (some (boolean b)) = b
truthy (some (number is_zero digits)) = not is_zero
truthy (some (text s)) = not (s == "")
truthy (some (array no_items)) = false
truthy (some (array (item v rest))) = true
truthy (some (object no_fields)) = false
truthy (some (object (field k v rest))) = true

-- `json.loads`, with `none` for an error, and the text of a JSON value that stands for an id.
pub record Loader : Type 0 where
  pub loads : String → Option Json
  pub str : Json → String
