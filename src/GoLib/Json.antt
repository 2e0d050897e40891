-- ===== src/GoLib/Json.antt =====
-- A reader of JSON objects whose values are strings, after RFC 8259: what a client of
-- bundler/src/controller/main.go makes of the bodies of its answers. Strings are read as
-- `encoding/json` reads them.
pub mod RoundTrip
pub mod Objects
pub mod Plain
use pay_gas_x.Base.{
  ℕ, zero, suc, ◌+◌, ◌*◌, ◌-◌, Bool, ◌&&◌, ◌||◌, List, [], ◌∷◌, Option, none, some, Text, ltb, leb,
  ◌==◌, length, if◌then◌else◌,
}

-- A character of a string, or four hexadecimal digits after `\u`.
pub data Piece : Type 0 where
  char : ℕ → Piece
  u16 : ℕ → Piece

abbrev pub hex_value : ℕ → Option ℕ
hex_value c =
    if leb b'0' c && leb c b'9'
    then some (c - b'0')
    else if leb b'a' c && leb c b'f'
    then some (10 + (c - b'a'))
    else if leb b'A' c && leb c b'F'
    then some (10 + (c - b'A'))
    else none

-- The character after a backslash, if it is no `u`.
abbrev pub escaped_char : ℕ → Option ℕ
escaped_char c =
    if c == b'"' || c == b'\\' || c == b'/'
    then some c
    else if c == b'b'
    then some 8
    else if c == b'f'
    then some 12
    else if c == b'n'
    then some 10
    else if c == b'r'
    then some 13
    else if c == b't'
    then some 9
    else none

-- Inside a string: between characters, after a backslash, or with so many digits to come after `\u`.
pub data Place : Type 0 where
  plain : Place
  escaped : Place
  digits : ℕ → ℕ → Place

abbrev pub piece_then : Piece → Option (List Piece × Text) → Option (List Piece × Text)
piece_then p none = none
piece_then p (some (ps, rest)) = some (p ∷ ps, rest)

-- A string from such a place to its closing quote, and the text after it.
unfoldable pub read_pieces : Place → Text → Option (List Piece × Text)
read_pieces place [] = none
read_pieces plain (c ∷ cs) =
    let more = piece_then (char c) (read_pieces plain cs) in
    let after_escape = read_pieces escaped cs in
    if c == b'"'
    then some ([], cs)
    else if c == b'\\'
    then after_escape
    else if ltb c 32
    then none
    else more
read_pieces escaped (c ∷ cs) =
    let more = read_pieces plain cs in
    let after_u = read_pieces (digits 3 0) cs in
    if c == b'u'
    then after_u
    else elim (escaped_char c) [ none ↦ none | some d ↦ piece_then (char d) more ]
read_pieces (digits zero n) (c ∷ cs) =
    let more = read_pieces plain cs in
    elim (hex_value c) [ none ↦ none | some d ↦ piece_then (u16 (16 * n + d)) more ]
read_pieces (digits (suc k) n) (c ∷ cs) = elim (hex_value c) [
  | none ↦ none
  | some d ↦ read_pieces (digits k (16 * n + d)) cs
]

abbrev pub is_surrogate : ℕ → Bool
is_surrogate n = leb 0xD800 n && leb n 0xDFFF

abbrev pub is_pair : ℕ → ℕ → Bool
is_pair hi lo = leb 0xD800 hi && leb hi 0xDBFF && leb 0xDC00 lo && leb lo 0xDFFF

-- The characters: two halves of a surrogate pair are one, a half alone is U+FFFD.
unfoldable pub runes : List Piece → Text
runes [] = []
runes (char c ∷ ps) = c ∷ runes ps
runes (u16 n ∷ []) = (if is_surrogate n then 0xFFFD else n) ∷ []
runes (u16 n ∷ char c ∷ ps) = (if is_surrogate n then 0xFFFD else n) ∷ c ∷ runes ps
runes (u16 n ∷ u16 m ∷ ps) =
    let after_pair = runes ps in
    let after_one = runes (u16 m ∷ ps) in
    if is_pair n m
    then (0x10000 + (n - 0xD800) * 0x400 + (m - 0xDC00)) ∷ after_pair
    else (if is_surrogate n then 0xFFFD else n) ∷ after_one

-- A string with its opening quote.
unfoldable pub read_string : Text → Option (Text × Text)
read_string [] = none
read_string (c ∷ cs) =
    if c == b'"'
    then elim (read_pieces plain cs) [ none ↦ none | some (ps, rest) ↦ some (runes ps, rest) ]
    else none

abbrev pub is_space : ℕ → Bool
is_space c = c == b' ' || c == 9 || c == 10 || c == 13

abbrev pub skip : Text → Text
skip [] = []
skip (c ∷ cs) = let rest = skip cs in if is_space c then rest else c ∷ cs

-- The text after such a character and the spaces before it.
abbrev pub expect : ℕ → Text → Option Text
expect d t = elim (skip t) [ [] ↦ none | c ∷ cs ↦ if c == d then some cs else none ]

infixl 5 ◌>>=◌
abbrev pub ◌>>=◌ : {A B : Type 0} → Option A → (A → Option B) → Option B
none >>= f = none
(some a) >>= f = f a

-- A name and its value, and the text after them.
abbrev pub read_member : Text → Option ((Text × Text) × Text)
read_member t = do
  (name, after_name) ← read_string (skip t)
  after_colon ← expect b':' after_name
  (value, rest) ← read_string (skip after_colon)
  some ((name, value), rest)

-- Nothing but spaces is left.
abbrev pub at_end : {A : Type 0} → A → Text → Option A
at_end a t = elim (skip t) [ [] ↦ some a | _ ∷ _ ↦ none ]

abbrev pub add_member : Text × Text → Option (List (Text × Text)) → Option (List (Text × Text))
add_member f none = none
add_member f (some fs) = some (f ∷ fs)

-- The members of an object, one at least, at most so many.
unfoldable pub read_members : ℕ → Text → Option (List (Text × Text))
read_members zero t = none
read_members (suc n) t = elim (read_member t) [
  | none ↦ none
  | some (f, r) ↦ elim (expect b',' r) [
    | some rest ↦ add_member f (read_members n rest)
    | none ↦ elim (expect b'}' r) [ none ↦ none | some rest ↦ at_end (f ∷ []) rest ]
  ]
]

-- An object has no more members than its text has characters.
unfoldable pub read_object : Text → Option (List (Text × Text))
read_object t = elim (expect b'{' t) [
  | none ↦ none
  | some r ↦ elim (expect b'}' r) [ some rest ↦ at_end [] rest | none ↦ read_members (length t) r ]
]
