-- ===== src/GoLib/Decode.antt =====
-- How `json.Unmarshal` stores a value in structs, strings and pointers. A value that does not fit
-- is skipped, and the first such error is returned at the end.
pub mod Names
use pay_gas_x.Base.{
  ℕ, ◌+◌, ◌&&◌, List, [], ◌∷◌, ◌++◌, Option, none, some, Text, text, text_eq, leb, ◌==◌, map,
  if◌then◌else◌,
}
use pay_gas_x.GoLib.JsonValue.{
  Json, Items, Members, no_items, item, null, bool, number, string, array, object, no_members,
  member,
}

-- `errorContext`: the struct that is decoded, and the fields from the outermost one on.
pub record Context : Type 0 where
  pub struct_name : Text
  pub fields : List Text

-- What is decoded so far, and the first error.
abbrev pub Decoded : Type 0 → Type 0
Decoded A = A × Option Text

-- A decoder is given the context, the value, and what the variable held.
abbrev pub Decoder : Type 0 → Type 0
Decoder A = Option Context → Json → A → Decoded A

abbrev pub first_error : Option Text → Option Text → Option Text
first_error none e = e
first_error (some m) e = some m

-- `UnmarshalTypeError.Value`
abbrev pub kind : Json → Text
kind null = text "null"
kind (bool _) = text "bool"
kind (number _) = text "number"
kind (string _) = text "string"
kind (array _) = text "array"
kind (object _) = text "object"

abbrev pub join : List Text → Text
join [] = []
join (f ∷ []) = f
join (f ∷ (h ∷ fs)) = f ++ b'.' ∷ join (h ∷ fs)

-- `UnmarshalTypeError`, given the type of the variable.
unfoldable pub type_error : Option Context → Json → Text → Text
type_error none v type_name =
    text "json: cannot unmarshal " ++ kind v ++ text " into Go value of type " ++ type_name
type_error (some c) v type_name =
    text "json: cannot unmarshal "
    ++ kind v
    ++ text " into Go struct field "
    ++ c.struct_name
    ++ b'.' ∷ join c.fields
    ++ text " of type "
    ++ type_name

unfoldable pub decode_string : Decoder Text
unfolding type_error
decode_string c null old = (old, none)
decode_string c (string s) old = (s, none)
decode_string c v old = (old, some (type_error c v (text "string")))

-- A pointer, which null makes nil. Any other value is stored in what it points to, made for it
-- where it was nil.
unfoldable pub decode_pointer : {A : Type 0} → A → Decoder A → Decoder (Option A)
decode_pointer zero_value decode c null old = (none, none)
decode_pointer zero_value decode c v old =
    let (a, e) = decode c v (elim old [ none ↦ zero_value | some a ↦ a ]) in (some a, e)

-- A slice: its elements, and those that its memory still holds behind them.
pub record Slice (A : Type 0) : Type 0 where
  pub elements : List A
  pub stale : List A

module _ {A : Type 0} (zero_value : A) (decode : Decoder A) where
  -- Each item is stored in the element that the memory holds in its place.
  unfoldable pub store_items : Option Context → Items → List A → Decoded (Slice A)
  store_items c no_items memory = (record { elements = []; stale = memory }, none)
  store_items c (item v items) [] =
      let (a, e) = decode c v zero_value in
      let (s, m) = store_items c items [] in
      (record s { elements = a ∷ s.elements }, first_error e m)
  store_items c (item v items) (old ∷ memory) =
      let (a, e) = decode c v old in
      let (s, m) = store_items c items memory in
      (record s { elements = a ∷ s.elements }, first_error e m)

  -- null makes a nil slice, an array without items a new one.
  unfoldable pub decode_slice : Text → Decoder (Slice A)
  unfolding store_items type_error
  decode_slice type_name c null old = (record { elements = []; stale = [] }, none)
  decode_slice type_name c (array no_items) old = (record { elements = []; stale = [] }, none)
  decode_slice type_name c (array (item v items)) old =
      store_items c (item v items) (old.elements ++ old.stale)
  decode_slice type_name c v old = (old, some (type_error c v type_name))

-- A field of a struct: its name, and how a value is stored in it.
pub record Field (A : Type 0) : Type 0 where
  pub name : Text
  pub store : Decoder A

-- `foldName`, as far as it makes letters of ASCII: the Kelvin sign and the long s are two of them.
abbrev pub fold : ℕ → ℕ
fold c =
    if leb b'A' c && leb c b'Z'
    then c + 32
    else if c == 0x212A
    then b'k'
    else if c == 0x17F
    then b's'
    else c

-- The field of such a name, all in small letters.
abbrev pub find : {A : Type 0} → (Text → Text) → Text → List (Field A) → Option (Field A)
find folded key [] = none
find folded key (f ∷ fs) =
    let rest = find folded key fs in if text_eq (folded key) f.name then some f else rest

-- The field of just that name, else the one of that name but for the case of its letters.
unfoldable pub field_of : {A : Type 0} → Text → List (Field A) → Option (Field A)
field_of key fs = elim (find (λ k. k) key fs) [ some f ↦ some f | none ↦ find (map fold) key fs ]

-- The fields of the context, and a further one.
abbrev pub inside : Text → Text → Option Context → Option Context
inside struct_name field none = some (record { struct_name = struct_name; fields = field ∷ [] })
inside struct_name field (some c) =
    some (record { struct_name = struct_name; fields = c.fields ++ field ∷ [] })

module _ {A : Type 0} (struct_name : Text) (fs : List (Field A)) where
  -- One member: a name that no field has is skipped.
  unfoldable pub store_member : Option Context → Text → Json → Decoded A → Decoded A
  unfolding field_of
  store_member c key v (a, e) = elim (field_of key fs) [
    | none ↦ (a, e)
    | some f ↦ let (b, m) = f.store (inside struct_name f.name c) v a in (b, first_error e m)
  ]

  unfoldable pub store_members : Option Context → Members → Decoded A → Decoded A
  unfolding store_member
  store_members c no_members d = d
  store_members c (member key v members) d = store_members c members (store_member c key v d)

  -- A struct, which null leaves as it is.
  unfoldable pub decode_struct : Text → Decoder A
  unfolding store_members type_error
  decode_struct type_name c null old = (old, none)
  decode_struct type_name c (object members) old = store_members c members (old, none)
  decode_struct type_name c v old = (old, some (type_error c v type_name))
