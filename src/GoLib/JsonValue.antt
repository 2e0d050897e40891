-- ===== src/GoLib/JsonValue.antt =====
-- What `encoding/json` decodes from: a JSON value, its numbers as they are written.
use pay_gas_x.Base.{Bool, Text}

mutual
  pub data Json : Type 0 where
    null : Json
    bool : Bool → Json
    number : Text → Json
    string : Text → Json
    array : Items → Json
    object : Members → Json

  pub data Items : Type 0 where
    no_items : Items
    item : Json → Items → Items

  pub data Members : Type 0 where
    no_members : Members
    member : Text → Json → Members → Members

-- With one item more at the end, as an array is read.
abbrev pub add_item : Items → Json → Items
add_item no_items v = item v no_items
add_item (item w items) v = item w (add_item items v)

abbrev pub add_member : Members → Text → Json → Members
add_member no_members k v = member k v no_members
add_member (member j w members) k v = member j w (add_member members k v)
