-- ===== src/GoLib/Scanner/RoundTrip.antt =====
-- The scanner of `encoding/json` reads what `json.Marshal` writes.
use mathlib.Core.List.{append_assoc, append-nil}
use pay_gas_x.Base.{
  ◌+◌, ◌<◌, ◌≤◌, ◌≡◌, refl, ◌∙◌, ap, sym, true, false, List, [], ◌∷◌, ◌++◌, length, Text, Result,
  ok, arith,
}
use pay_gas_x.GoLib.Marshal.{marshal_string}
use pay_gas_x.GoLib.JsonValue.{
  Json, Items, Members, null, bool, number, string, array, object, no_items, item, no_members,
  member, add_item, add_member,
}
use pay_gas_x.GoLib.Print.{
  print, depth, HasNoNumber, depth_items, depth_members, HaveNoNumber, MembersHaveNoNumber,
  print_items, print_members,
}
use pay_gas_x.GoLib.Scanner.{scan, at_eof, run, read_json}
use pay_gas_x.GoLib.Scanner.States.{
  Frame, object_key, object_value, array_value, Step, begin_value, begin_value_or_empty,
  begin_string, begin_string_or_empty, end_value, push,
}
use pay_gas_x.GoLib.Scanner.Tokens.{on_begin_value, on_end_value}
use pay_gas_x.GoLib.Scanner.Strings.{
  scan-marshal_string, scan_key-marshal_string, scan_first_key-marshal_string,
}

abbrev add_items : Items → Items → Items
add_items acc no_items = acc
add_items acc (item v items) = add_items (add_item acc v) items

abbrev add_members : Members → Members → Members
add_members acc no_members = acc
add_members acc (member k v ms) = add_members (add_member acc k v) ms

add_items-item :
    (v : Json) (acc items : Items) → add_items (item v acc) items ≡ item v (add_items acc items)
add_items-item v acc no_items = refl
add_items-item v acc (item w items) = add_items-item v (add_item acc w) items

add_items-no_items : (items : Items) → add_items no_items items ≡ items
add_items-no_items no_items = refl
add_items-no_items (item v items) =
    add_items-item v no_items items ∙ ap (item v) (add_items-no_items items)

add_members-member :
    (k : Text) (v : Json) (acc ms : Members)
    → add_members (member k v acc) ms ≡ member k v (add_members acc ms)
add_members-member k v acc no_members = refl
add_members-member k v acc (member l w ms) = add_members-member k v (add_member acc l w) ms

add_members-no_members : (ms : Members) → add_members no_members ms ≡ ms
add_members-no_members no_members = refl
add_members-no_members (member k v ms) =
    add_members-member k v no_members ms ∙ ap (member k v) (add_members-no_members ms)

-- The scanner at such a step, with such objects and arrays open.
abbrev at : Step → List Frame → Text → Result Json
at step stack = run (record { step = step; stack = stack })

open_array :
    (stack : List Frame) (t : Text)
    → length stack < 10000
    → at begin_value stack (b'[' ∷ t) ≡ at begin_value_or_empty (array_value no_items ∷ stack) t
unfolding run scan on_begin_value push
open_array stack t l = ground arith

open_object :
    (stack : List Frame) (t : Text)
    → length stack < 10000
    → at begin_value stack (b'{' ∷ t) ≡ at begin_string_or_empty (object_key no_members ∷ stack) t
unfolding run scan on_begin_value push
open_object stack t l = ground arith

-- A written value is no space and no bracket that closes.
first_item :
    (v : Json) (stack : List Frame) (t : Text)
    → HasNoNumber v
    → at begin_value_or_empty (array_value no_items ∷ stack) (print v ++ t)
      ≡ at begin_value (array_value no_items ∷ stack) (print v ++ t)
unfolding run scan print marshal_string HasNoNumber
first_item null stack t h = refl
first_item (bool true) stack t h = refl
first_item (bool false) stack t h = refl
first_item (number n) stack t h = absurd h
first_item (string s) stack t h = refl
first_item (array no_items) stack t h = refl
first_item (array (item v items)) stack t h = refl
first_item (object no_members) stack t h = refl
first_item (object (member k v ms)) stack t h = refl

abbrev Reads : Json → Type 0
Reads v =
    HasNoNumber v
    → (stack : List Frame) (rest : Text) → depth v + length stack ≤ 10000
    → at begin_value stack (print v ++ rest) ≡ at (end_value v) stack rest

abbrev ReadsItems : Items → Type 0
ReadsItems items =
    HaveNoNumber items
    → (acc : Items) (w : Json) (stack : List Frame) (rest : Text)
    → depth_items items + length stack < 10000
    → at (end_value w) (array_value acc ∷ stack) (print_items items ++ rest)
      ≡ at (end_value (array (add_items (add_item acc w) items))) stack rest

abbrev ReadsMembers : Members → Type 0
ReadsMembers ms =
    MembersHaveNoNumber ms
    → (acc : Members) (k : Text) (w : Json) (stack : List Frame) (rest : Text)
    → depth_members ms + length stack < 10000
    → at (end_value w) (object_value acc k ∷ stack) (print_members ms ++ rest)
      ≡ at (end_value (object (add_members (add_member acc k w) ms))) stack rest

Reads-array : (v : Json) (items : Items) → Reads v → ReadsItems items → Reads (array (item v items))
unfolding print depth HasNoNumber
Reads-array v items ih ihs (n, ns) stack rest l =
    open_array stack ((print v ++ print_items items) ++ rest) (omega arith)
    ∙ ap (at begin_value_or_empty (array_value no_items ∷ stack))
        (append_assoc (print v) (print_items items) rest)
    ∙ first_item v stack (print_items items ++ rest) n
    ∙ ih n (array_value no_items ∷ stack) (print_items items ++ rest) (omega arith)
    ∙ ihs ns no_items v stack rest (omega arith)
    ∙ ap (λ i. at (end_value (array i)) stack rest)
        (add_items-item v no_items items ∙ ap (item v) (add_items-no_items items))

ReadsItems-item :
    (v : Json) (items : Items) → Reads v → ReadsItems items → ReadsItems (item v items)
unfolding print depth HasNoNumber run scan on_end_value
ReadsItems-item v items ih ihs (n, ns) acc w stack rest l =
    ap (at begin_value (array_value (add_item acc w) ∷ stack))
      (append_assoc (print v) (print_items items) rest)
    ∙ ih n (array_value (add_item acc w) ∷ stack) (print_items items ++ rest) (omega arith)
    ∙ ihs ns (add_item acc w) v stack rest (omega arith)

-- A colon and a value, after a key.
after_key :
    (k : Text) (v : Json) (ms acc : Members) (stack : List Frame) (rest : Text)
    → Reads v
    → HasNoNumber v
    → depth v + length stack < 10000
    → at
        (end_value (string k))
        (object_key acc ∷ stack)
        (b':' ∷ (print v ++ print_members ms) ++ rest)
      ≡ at (end_value v) (object_value acc k ∷ stack) (print_members ms ++ rest)
unfolding run scan on_end_value
after_key k v ms acc stack rest ih n l =
    ap (at begin_value (object_value acc k ∷ stack))
      (append_assoc (print v) (print_members ms) rest)
    ∙ ih n (object_value acc k ∷ stack) (print_members ms ++ rest) (omega arith)

Reads-object :
    (k : Text) (v : Json) (ms : Members)
    → Reads v
    → ReadsMembers ms
    → Reads (object (member k v ms))
unfolding print depth HasNoNumber
Reads-object k v ms ih ihs (n, ns) stack rest l =
    let tail : Text = b':' ∷ (print v ++ print_members ms) in
    open_object stack ((marshal_string k ++ tail) ++ rest) (omega arith)
    ∙ ap (at begin_string_or_empty (object_key no_members ∷ stack))
        (append_assoc (marshal_string k) tail rest)
    ∙ scan_first_key-marshal_string k no_members stack (tail ++ rest)
    ∙ after_key k v ms no_members stack rest ih n (omega arith)
    ∙ ihs ns no_members k v stack rest (omega arith)
    ∙ ap (λ i. at (end_value (object i)) stack rest)
        (add_members-member k v no_members ms ∙ ap (member k v) (add_members-no_members ms))

ReadsMembers-member :
    (k : Text) (v : Json) (ms : Members) → Reads v → ReadsMembers ms → ReadsMembers (member k v ms)
unfolding print depth HasNoNumber run scan on_end_value
ReadsMembers-member k v ms ih ihs (n, ns) acc j w stack rest l =
    let tail : Text = b':' ∷ (print v ++ print_members ms) in
    let opened = add_member acc j w in
    ap (at begin_string (object_key opened ∷ stack)) (append_assoc (marshal_string k) tail rest)
    ∙ scan_key-marshal_string k (object_key opened ∷ stack) (tail ++ rest)
    ∙ after_key k v ms opened stack rest ih n (omega arith)
    ∙ ihs ns opened k v stack rest (omega arith)

empty_array : Reads (array no_items)
unfolding print depth run scan
empty_array n stack rest l = open_array stack (b']' ∷ rest) (omega arith)

empty_object : Reads (object no_members)
unfolding print depth run scan
empty_object n stack rest l = open_object stack (b'}' ∷ rest) (omega arith)

-- Read behind a first item or member, and as a whole.
abbrev ReadsArray : Items → Type 0
ReadsArray items = ReadsItems items × Reads (array items)

abbrev ReadsObject : Members → Type 0
ReadsObject ms = ReadsMembers ms × Reads (object ms)

print-Reads : (v : Json) → Reads v
unfolding print depth HasNoNumber run scan on_begin_value on_end_value
print-Reads v = elim v as Reads ReadsArray ReadsObject [
  | null ↦ λ n stack rest l. refl
  | bool true ↦ λ n stack rest l. refl
  | bool false ↦ λ n stack rest l. refl
  | number _ ↦ λ n. absurd n
  | string s ↦ λ n stack rest l. scan-marshal_string s stack rest
  | array (items → ih) ↦ ih.1
  | object (ms → ih) ↦ ih.1
  | no_items ↦ (λ n acc w stack rest l. refl, empty_array)
  | item (v → ih) (items → ihs) ↦ (ReadsItems-item v items ih ihs.0, Reads-array v items ih ihs.0)
  | no_members ↦ (λ n acc k w stack rest l. refl, empty_object)
  | member k (v → ih) (ms → ihs) ↦
      (ReadsMembers-member k v ms ih ihs.0, Reads-object k v ms ih ihs.0)
]

-- A value without numbers, nested at most 10000 deep, is read back as it was written.
pub read_json-print : (v : Json) → HasNoNumber v → depth v ≤ 10000 → read_json (print v) ≡ ok v
unfolding read_json run at_eof scan on_end_value
read_json-print v n l =
    ap (at begin_value []) (sym (append-nil (print v))) ∙ print-Reads v n [] [] (omega arith)
