-- ===== src/GoLib/Scanner.antt =====
-- The scanner of `encoding/json`, character by character, with the texts of its errors, building
-- the value as it goes.
pub mod States
pub mod Tokens
pub mod Strings
pub mod RoundTrip
pub mod Stays
pub mod Cut
pub mod Refused
use pay_gas_x.Base.{ℕ, List, [], ◌∷◌, Text, text, Result, ok, err, ◌==◌, if◌then◌else◌}
use pay_gas_x.GoLib.Json.{is_space}
use pay_gas_x.GoLib.JsonValue.{Json, array, object}
use States.{
  State, object_key, array_value, begin_value, begin_value_or_empty, begin_string,
  begin_string_or_empty, in_string, in_number, in_literal, end_value, to,
}
use Tokens.{on_end_value, on_begin_value, on_begin_string, on_string, on_number, on_literal}

-- One call of `scan.step`.
unfoldable pub scan : State → ℕ → Result State
unfolding on_end_value on_begin_value on_begin_string on_string on_number
scan s c = elim s.step [
  | begin_value ↦ on_begin_value s.stack c
  | begin_value_or_empty ↦ elim s.stack [
    | array_value items ∷ stack ↦
        if is_space c
        then to begin_value_or_empty s.stack
        else if c == b']'
        then to (end_value (array items)) stack
        else on_begin_value s.stack c
    | _ ↦ on_begin_value s.stack c
  ]
  | begin_string ↦ on_begin_string s.stack c
  | begin_string_or_empty ↦ elim s.stack [
    | object_key members ∷ stack ↦
        if is_space c
        then to begin_string_or_empty s.stack
        else if c == b'}'
        then to (end_value (object members)) stack
        else on_begin_string s.stack c
    | _ ↦ on_begin_string s.stack c
  ]
  | in_string place ps ↦ on_string place ps s.stack c
  | in_number place read ↦ on_number place read s.stack c
  | in_literal name rest v ↦ elim rest [
    | [] ↦ on_end_value v s.stack c
    | d ∷ ds ↦ on_literal name d ds v s.stack c
  ]
  | end_value v ↦ on_end_value v s.stack c
]

-- `eof`: the step at a space shows whether a value was read.
unfoldable pub at_eof : State → Result Json
unfolding scan
at_eof s = elim (scan s b' ') [
  | err e ↦ err e
  | ok t ↦ elim t.stack [
    | [] ↦ elim t.step [ end_value v ↦ ok v | _ ↦ err (text "unexpected end of JSON input") ]
    | _ ∷ _ ↦ err (text "unexpected end of JSON input")
  ]
]

-- The value that the text is, from a state of the scanner on.
unfoldable pub run : State → Text → Result Json
run s [] = at_eof s
run s (c ∷ cs) = elim (scan s c) [ err e ↦ err e | ok t ↦ run t cs ]

-- `checkValid`, with the value that it has read.
unfoldable pub read_json : Text → Result Json
unfolding run
read_json body = run (record { step = begin_value; stack = [] }) body
