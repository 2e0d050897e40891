-- ===== src/GoLib/Base64.antt =====
-- `encoding/base64`: `StdEncoding` without strict mode, and the encoding of RFC 4648.
pub mod Bytes
pub mod Newlines
pub mod RoundTrip
use pay_gas_x.Base.{ℕ, ◌+◌, ◌-◌, ◌*◌, ◌/◌, ◌%◌, ◌<◌, Bool, ◌||◌, ◌&&◌, List, [], ◌∷◌, ◌++◌}
use pay_gas_x.Base.{Option, none, some, leb, ◌==◌, if◌then◌else◌, ltb}

-- `decodeMap` of the standard alphabet.
unfoldable pub decode_digit : ℕ → Option ℕ
decode_digit c =
    if leb b'A' c && leb c b'Z'
    then some (c - b'A')
    else if leb b'a' c && leb c b'z'
    then some (c - b'a' + 26)
    else if leb b'0' c && leb c b'9'
    then some (c - b'0' + 52)
    else if c == b'+'
    then some 62
    else if c == b'/'
    then some 63
    else none

abbrev pub is_newline : ℕ → Bool
is_newline c = c == 10 || c == 13

-- A `CorruptInputError`, which holds the offset of the offending byte, or the bytes.
pub data Decoded : Type 0 where
  bytes : List ℕ → Decoded
  corrupt : ℕ → Decoded

-- The bytes of a text without errors.
abbrev pub decoded? : Decoded → Option (List ℕ)
decoded? (bytes out) = some out
decoded? (corrupt i) = none

abbrev pub IsByte : ℕ → Type 0
IsByte b = b < 256

-- The digits of the current group of four.
pub data Quantum : Type 0 where
  none_yet : Quantum
  one : ℕ → Quantum
  two : ℕ → ℕ → Quantum
  three : ℕ → ℕ → ℕ → Quantum

abbrev count : Quantum → ℕ
count none_yet = 0
count (one _) = 1
count (two _ _) = 2
count (three _ _ _) = 3

-- The bytes of 24 bits, whole and cut to two bytes or one.
abbrev pub bits_24 : ℕ → ℕ → ℕ → ℕ → ℕ
bits_24 a b c d = a * 262144 + b * 4096 + c * 64 + d

abbrev first : ℕ → ℕ
first v = v / 65536 % 256

abbrev second : ℕ → ℕ
second v = v / 256 % 256

abbrev third : ℕ → ℕ
third v = v % 256

-- Newlines may follow the padding, nothing else may.
finish : ℕ → List ℕ → List ℕ → Decoded
finish i [] out = bytes out
finish i (c ∷ cs) out = if is_newline c then finish (i + 1) cs out else corrupt i

-- After `=` where a second one is due.
second_pad : ℕ → List ℕ → List ℕ → Decoded
second_pad i [] out = corrupt i
second_pad i (c ∷ cs) out =
    let rest = second_pad (i + 1) cs out in
    if is_newline c then rest else if c == b'=' then finish (i + 1) cs out else corrupt (i - 1)

-- A byte `=` at offset `i`.
pad : ℕ → Quantum → List ℕ → List ℕ → Decoded
pad i none_yet cs out = corrupt i
pad i (one a) cs out = corrupt i
pad i (two a b) cs out = second_pad (i + 1) cs (out ++ first (bits_24 a b 0 0) ∷ [])
pad i (three a b c) cs out =
    let v = bits_24 a b c 0 in finish (i + 1) cs (out ++ first v ∷ second v ∷ [])

-- One more digit: the next group, and the output with the bytes of a group that is full.
abbrev push : Quantum → ℕ → Quantum
push none_yet d = one d
push (one a) d = two a d
push (two a b) d = three a b d
push (three a b c) d = none_yet

abbrev emit : Quantum → ℕ → List ℕ → List ℕ
emit (three a b c) d out = let v = bits_24 a b c d in out ++ first v ∷ second v ∷ third v ∷ []
emit _ d out = out

-- The end of the text: inside a group it is an error, at the offset of the group's first digit
-- if no newline stands in it.
end_of_text : ℕ → Quantum → List ℕ → Decoded
end_of_text i none_yet out = bytes out
end_of_text i q out = corrupt (i - count q)

-- `decodeQuantum`, again and again, from offset `i` and inside a group.
decode_from : ℕ → Quantum → List ℕ → List ℕ → Decoded
decode_from i q out [] = end_of_text i q out
decode_from i q out (c ∷ cs) = elim (decode_digit c) [
  | some d ↦ decode_from (i + 1) (push q d) (emit q d out) cs
  | none ↦
      let rest = decode_from (i + 1) q out cs in
      if is_newline c then rest else if c == b'=' then pad i q cs out else corrupt i
]

unfoldable pub decode_string : List ℕ → Decoded
unfolding decode_from decode_digit end_of_text pad second_pad finish
decode_string cs = decode_from 0 none_yet [] cs

-- The alphabet and the encoding of RFC 4648, section 4.
unfoldable pub alphabet : ℕ → ℕ
alphabet d =
    if ltb d 26
    then b'A' + d
    else if ltb d 52
    then b'a' + (d - 26)
    else if ltb d 62
    then b'0' + (d - 52)
    else if d == 62
    then b'+'
    else b'/'

unfoldable pub encode : List ℕ → List ℕ
unfolding alphabet
encode [] = []
encode (a ∷ []) = alphabet (a / 4) ∷ alphabet (a % 4 * 16) ∷ b'=' ∷ b'=' ∷ []
encode (a ∷ b ∷ []) =
    alphabet (a / 4) ∷ alphabet (a % 4 * 16 + b / 16) ∷ alphabet (b % 16 * 4) ∷ b'=' ∷ []
encode (a ∷ b ∷ c ∷ rest) =
    alphabet (a / 4)
    ∷ alphabet (a % 4 * 16 + b / 16)
    ∷ alphabet (b % 16 * 4 + c / 64)
    ∷ alphabet (c % 64)
    ∷ encode rest
