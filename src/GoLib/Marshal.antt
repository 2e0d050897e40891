-- ===== src/GoLib/Marshal.antt =====
-- `json.Marshal` of a struct of strings, with the escapes that `encoding/json` makes by default.
use pay_gas_x.Base.{
  ℕ, ◌+◌, ◌-◌, ◌/◌, ◌%◌, Bool, ◌&&◌, ◌||◌, not, List, [], ◌∷◌, ◌++◌, Text, text, ltb, leb, ◌==◌,
  if◌then◌else◌,
}

-- A hexadecimal digit, in lower case.
abbrev pub hex_digit : ℕ → ℕ
hex_digit d = if ltb d 10 then b'0' + d else b'a' + (d - 10)

-- `htmlSafeSet` for ASCII; what is not ASCII is written as it is but for U+2028 and U+2029.
abbrev pub is_safe : ℕ → Bool
is_safe c =
    if ltb c 128
    then leb 32 c && not (c == b'"' || c == b'&' || c == b'<' || c == b'>' || c == b'\\')
    else not (c == 0x2028 || c == 0x2029)

unfoldable pub escape_char : ℕ → Text
escape_char c =
    if is_safe c
    then c ∷ []
    else if c == b'\\' || c == b'"'
    then b'\\' ∷ c ∷ []
    else if c == 10
    then text "\\n"
    else if c == 13
    then text "\\r"
    else if c == 9
    then text "\\t"
    else if ltb c 128
    then text "\\u00" ++ hex_digit (c / 16) ∷ hex_digit (c % 16) ∷ []
    else text "\\u202" ++ hex_digit (c % 16) ∷ []

unfoldable pub escape : Text → Text
unfolding escape_char
escape [] = []
escape (c ∷ cs) = escape_char c ++ escape cs

unfoldable pub marshal_string : Text → Text
unfolding escape
marshal_string s = b'"' ∷ escape s ++ b'"' ∷ []

-- A name and a string, and the fields after the first, each with its comma.
abbrev pub marshal_field : Text × Text → Text
marshal_field (name, value) = marshal_string name ++ b':' ∷ marshal_string value

unfoldable pub more_fields : List (Text × Text) → Text
more_fields [] = b'}' ∷ []
more_fields (f ∷ fs) = b',' ∷ marshal_field f ++ more_fields fs

unfoldable pub marshal_object : List (Text × Text) → Text
unfolding more_fields marshal_string
marshal_object [] = text "{}"
marshal_object (f ∷ fs) = b'{' ∷ marshal_field f ++ more_fields fs
