-- ===== src/GoLib/Scanner/States.antt =====
-- The states of the scanner of `encoding/json`, and its errors. A state of the model is a step
-- function of the scanner with what it has read of a token.
use pay_gas_x.Base.{
  ℕ, ◌+◌, ◌/◌, ◌%◌, ◌||◌, List, [], ◌∷◌, ◌++◌, Text, text, Result, ok, err, ltb, ◌==◌, length,
  if◌then◌else◌,
}
use pay_gas_x.GoLib.Marshal.{hex_digit}
use pay_gas_x.GoLib.Json.{Piece, Place}
use pay_gas_x.GoLib.JsonValue.{Json, Items, Members}

-- How a byte stands between quotes: `strconv.Quote` without its own.
abbrev pub quoted_byte : ℕ → Text
quoted_byte c =
    if c == b'\''
    then text "\\'"
    else if c == b'\\'
    then text "\\\\"
    else if c == 7
    then text "\\a"
    else if c == 8
    then text "\\b"
    else if c == 9
    then text "\\t"
    else if c == 10
    then text "\\n"
    else if c == 11
    then text "\\v"
    else if c == 12
    then text "\\f"
    else if c == 13
    then text "\\r"
    else if ltb c 32 || c == 127
    then text "\\x" ++ hex_digit (c / 16) ∷ hex_digit (c % 16) ∷ []
    else c ∷ []

-- The first byte of a character in UTF-8, at which the scanner stops.
abbrev pub first_byte : ℕ → ℕ
first_byte c =
    if ltb c 0x80
    then c
    else if ltb c 0x800
    then 0xC0 + c / 0x40
    else if ltb c 0x10000
    then 0xE0 + c / 0x1000
    else 0xF0 + c / 0x40000

-- `SyntaxError`
unfoldable pub syntax_error : {A : Type 0} → ℕ → Text → Result A
syntax_error c context =
    err (text "invalid character '" ++ quoted_byte (first_byte c) ++ text "' " ++ context)

-- An entry of `parseState`, with what was read of the object or array.
pub data Frame : Type 0 where
  object_key : Members → Frame
  object_value : Members → Text → Frame
  array_value : Items → Frame

-- Where a number stands: after its minus, a leading zero, a digit, the point, a digit after it, the
-- `e`, its sign, a digit of the exponent.
pub data NumberPlace : Type 0 where
  neg zero_digit digit dot fraction exp exp_sign exponent : NumberPlace

pub data Step : Type 0 where
  begin_value begin_value_or_empty begin_string begin_string_or_empty : Step
  in_string : Place → List Piece → Step
  in_number : NumberPlace → Text → Step
  -- The literal, what is still to come of it, and its value.
  in_literal : Text → List ℕ → Json → Step
  -- A value was read.
  end_value : Json → Step

pub record State : Type 0 where
  pub step : Step
  pub stack : List Frame

-- `maxNestingDepth`
abbrev pub max_nesting_depth : ℕ
max_nesting_depth = 10000

abbrev pub to : Step → List Frame → Result State
to step stack = ok (record { step = step; stack = stack })

-- `pushParseState`
unfoldable pub push : ℕ → Step → Frame → List Frame → Result State
unfolding syntax_error
push c step frame stack =
    if ltb (length stack) max_nesting_depth
    then to step (frame ∷ stack)
    else syntax_error c (text "exceeded max depth")
