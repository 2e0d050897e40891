-- ===== src/GoLib/Scanner/Tokens.antt =====
-- What the scanner of `encoding/json` does at a character, by where it stands.
use pay_gas_x.Base.{
  ℕ, zero, suc, ◌+◌, ◌*◌, Bool, true, false, ◌&&◌, ◌||◌, List, [], ◌∷◌, ◌++◌, none, some, Text,
  text, Result, ltb, leb, ◌==◌, if◌then◌else◌,
}
use pay_gas_x.GoLib.Json.{
  Piece, char, u16, Place, plain, escaped, digits, hex_value, escaped_char, runes, is_space,
}
use pay_gas_x.GoLib.JsonValue.{
  Json, null, bool, number, string, array, object, no_items, no_members, add_item, add_member,
}
use pay_gas_x.GoLib.Scanner.States.{
  syntax_error, Frame, object_key, object_value, array_value, NumberPlace, neg, zero_digit, digit,
  dot, fraction, exp, exp_sign, exponent, begin_value, begin_value_or_empty, begin_string,
  begin_string_or_empty, in_string, in_number, in_literal, end_value, State, to, push,
}

abbrev pub is_digit : ℕ → Bool
is_digit c = leb b'0' c && leb c b'9'

-- `stateEndValue` and, where no object or array is open, `stateEndTop`.
unfoldable pub on_end_value : Json → List Frame → ℕ → Result State
unfolding syntax_error
on_end_value v [] c =
    if is_space c then to (end_value v) [] else syntax_error c (text "after top-level value")
on_end_value v (object_key members ∷ stack) c =
    if is_space c
    then to (end_value v) (object_key members ∷ stack)
    else if c == b':'
    then elim v [
      | string key ↦ to begin_value (object_value members key ∷ stack)
      | _ ↦ syntax_error c (text "after object key")
    ]
    else syntax_error c (text "after object key")
on_end_value v (object_value members key ∷ stack) c =
    if is_space c
    then to (end_value v) (object_value members key ∷ stack)
    else if c == b','
    then to begin_string (object_key (add_member members key v) ∷ stack)
    else if c == b'}'
    then to (end_value (object (add_member members key v))) stack
    else syntax_error c (text "after object key:value pair")
on_end_value v (array_value items ∷ stack) c =
    if is_space c
    then to (end_value v) (array_value items ∷ stack)
    else if c == b','
    then to begin_value (array_value (add_item items v) ∷ stack)
    else if c == b']'
    then to (end_value (array (add_item items v))) stack
    else syntax_error c (text "after array element")

-- `stateBeginValue`
unfoldable pub on_begin_value : List Frame → ℕ → Result State
unfolding syntax_error push
on_begin_value stack c =
    if is_space c
    then to begin_value stack
    else if c == b'{'
    then push c begin_string_or_empty (object_key no_members) stack
    else if c == b'['
    then push c begin_value_or_empty (array_value no_items) stack
    else if c == b'"'
    then to (in_string plain []) stack
    else if c == b'-'
    then to (in_number neg (c ∷ [])) stack
    else if c == b'0'
    then to (in_number zero_digit (c ∷ [])) stack
    else if c == b't'
    then to (in_literal (text "true") (text "rue") (bool true)) stack
    else if c == b'f'
    then to (in_literal (text "false") (text "alse") (bool false)) stack
    else if c == b'n'
    then to (in_literal (text "null") (text "ull") null) stack
    else if is_digit c
    then to (in_number digit (c ∷ [])) stack
    else syntax_error c (text "looking for beginning of value")

-- `stateBeginString`
unfoldable pub on_begin_string : List Frame → ℕ → Result State
unfolding syntax_error
on_begin_string stack c =
    if is_space c
    then to begin_string stack
    else if c == b'"'
    then to (in_string plain []) stack
    else syntax_error c (text "looking for beginning of object key string")

-- `stateInString` and the states of an escape.
unfoldable pub on_string : Place → List Piece → List Frame → ℕ → Result State
unfolding syntax_error
on_string plain ps stack c =
    if c == b'"'
    then to (end_value (string (runes ps))) stack
    else if c == b'\\'
    then to (in_string escaped ps) stack
    else if ltb c 32
    then syntax_error c (text "in string literal")
    else to (in_string plain (ps ++ char c ∷ [])) stack
on_string escaped ps stack c =
    if c == b'u' then to (in_string (digits 3 0) ps) stack else elim (escaped_char c) [
      | none ↦ syntax_error c (text "in string escape code")
      | some d ↦ to (in_string plain (ps ++ char d ∷ [])) stack
    ]
on_string (digits k n) ps stack c = elim (hex_value c) [
  | none ↦ syntax_error c (text "in \\u hexadecimal character escape")
  | some d ↦ elim k [
    | zero ↦ to (in_string plain (ps ++ u16 (16 * n + d) ∷ [])) stack
    | suc j ↦ to (in_string (digits j (16 * n + d)) ps) stack
  ]
]

-- After a digit, or the point's or the exponent's digits: more of the number, or its end.
abbrev pub or_exponent : Text → List Frame → ℕ → Result State
or_exponent read stack c =
    if c == b'e' || c == b'E'
    then to (in_number exp (read ++ c ∷ [])) stack
    else on_end_value (number read) stack c

-- `state0`
abbrev pub or_point : Text → List Frame → ℕ → Result State
or_point read stack c =
    if c == b'.' then to (in_number dot (read ++ c ∷ [])) stack else or_exponent read stack c

abbrev pub exponent_digit : Text → List Frame → ℕ → Result State
exponent_digit read stack c =
    if is_digit c
    then to (in_number exponent (read ++ c ∷ [])) stack
    else syntax_error c (text "in exponent of numeric literal")

-- `stateNeg` to `stateE0`
unfoldable pub on_number : NumberPlace → Text → List Frame → ℕ → Result State
unfolding syntax_error on_end_value
on_number neg read stack c =
    if c == b'0'
    then to (in_number zero_digit (read ++ c ∷ [])) stack
    else if is_digit c
    then to (in_number digit (read ++ c ∷ [])) stack
    else syntax_error c (text "in numeric literal")
on_number zero_digit read stack c = or_point read stack c
on_number digit read stack c =
    if is_digit c then to (in_number digit (read ++ c ∷ [])) stack else or_point read stack c
on_number dot read stack c =
    if is_digit c
    then to (in_number fraction (read ++ c ∷ [])) stack
    else syntax_error c (text "after decimal point in numeric literal")
on_number fraction read stack c =
    if is_digit c then to (in_number fraction (read ++ c ∷ [])) stack else or_exponent read stack c
on_number exp read stack c =
    if c == b'+' || c == b'-'
    then to (in_number exp_sign (read ++ c ∷ [])) stack
    else exponent_digit read stack c
on_number exp_sign read stack c = exponent_digit read stack c
on_number exponent read stack c =
    if is_digit c
    then to (in_number exponent (read ++ c ∷ [])) stack
    else on_end_value (number read) stack c

-- `stateT` to `stateNul`: the next character of the literal is `d`.
abbrev pub on_literal : Text → ℕ → List ℕ → Json → List Frame → ℕ → Result State
on_literal name d rest v stack c =
    if c == d
    then to (elim rest [ [] ↦ end_value v | e ∷ es ↦ in_literal name (e ∷ es) v ]) stack
    else syntax_error c (text "in literal " ++ name ++ text " (expecting '" ++ d ∷ text "')")
