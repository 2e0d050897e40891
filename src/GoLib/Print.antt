-- ===== src/GoLib/Print.antt =====
-- What `json.Marshal` writes of a JSON value.
use pay_gas_x.Base.{ℕ, ◌+◌, true, false, ◌∷◌, ◌++◌, Text, text}
use Prim.Native.Nat.{max}
use pay_gas_x.GoLib.Marshal.{marshal_string}
use pay_gas_x.GoLib.JsonValue.{
  Json, Items, Members, null, bool, number, string, array, object, no_items, item, no_members,
  member,
}

unfoldable mutual
  unfolding marshal_string

  pub print : Json → Text
  print null = text "null"
  print (bool true) = text "true"
  print (bool false) = text "false"
  print (number n) = n
  print (string s) = marshal_string s
  print (array no_items) = text "[]"
  print (array (item v items)) = b'[' ∷ (print v ++ print_items items)
  print (object no_members) = text "{}"
  print (object (member k v ms)) = b'{' ∷ (marshal_string k ++ b':' ∷ (print v ++ print_members ms))

  -- The items after the first, each with its comma, and the bracket.
  pub print_items : Items → Text
  print_items no_items = text "]"
  print_items (item v items) = b',' ∷ (print v ++ print_items items)

  pub print_members : Members → Text
  print_members no_members = text "}"
  print_members (member k v ms) = b',' ∷ (marshal_string k ++ b':' ∷ (print v ++ print_members ms))

-- How many objects and arrays stand one in the other.
unfoldable mutual
  pub depth : Json → ℕ
  depth (array items) = 1 + depth_items items
  depth (object ms) = 1 + depth_members ms
  depth _ = 0

  pub depth_items : Items → ℕ
  depth_items no_items = 0
  depth_items (item v items) = max (depth v) (depth_items items)

  pub depth_members : Members → ℕ
  depth_members no_members = 0
  depth_members (member k v ms) = max (depth v) (depth_members ms)

-- No number is in the value.
unfoldable mutual
  pub HasNoNumber : Json → Type 0
  HasNoNumber (number _) = ⊥
  HasNoNumber (array items) = HaveNoNumber items
  HasNoNumber (object ms) = MembersHaveNoNumber ms
  HasNoNumber _ = Unit

  pub HaveNoNumber : Items → Type 0
  HaveNoNumber no_items = Unit
  HaveNoNumber (item v items) = HasNoNumber v × HaveNoNumber items

  pub MembersHaveNoNumber : Members → Type 0
  MembersHaveNoNumber no_members = Unit
  MembersHaveNoNumber (member k v ms) = HasNoNumber v × MembersHaveNoNumber ms
