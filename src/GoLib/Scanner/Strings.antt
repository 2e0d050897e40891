-- ===== src/GoLib/Scanner/Strings.antt =====
-- The scanner of `encoding/json` reads the strings that `json.Marshal` writes.
use mathlib.Core.Path.{subst}
use mathlib.Core.List.{append_assoc, append-nil}
use pay_gas_x.Base.{
  ℕ, ◌+◌, ◌*◌, ◌/◌, ◌%◌, ◌<◌, ◌≡◌, refl, ◌∙◌, ap, sym, inl, inr, true, Bool-cases, List, [], ◌∷◌,
  ◌++◌, map, Option, none, some, Text, text, suc, Result, ok, err, arith,
}
use pay_gas_x.GoLib.Marshal.{hex_digit, is_safe, escape_char, escape, marshal_string}
use pay_gas_x.GoLib.Json.{Piece, char, u16, Place, digits, plain, hex_value}
use pay_gas_x.GoLib.Json.RoundTrip.{
  piece_of, hex_value-hex_digit, IsCoded, unsafe-cases, escape_coded, piece_of_coded,
  runes-marshalled,
}
use pay_gas_x.GoLib.JsonValue.{Json, Members, string}
use pay_gas_x.GoLib.Scanner.{scan, run}
use pay_gas_x.GoLib.Scanner.States.{
  Frame, object_key, Step, State, begin_value, begin_string_or_empty, begin_string, in_string,
  end_value, syntax_error, to,
}
use pay_gas_x.GoLib.Scanner.Tokens.{on_begin_value, on_begin_string, on_string}

-- The scanner from inside a string, after such pieces of it.
abbrev within : Place → List Piece → List Frame → Text → Result Json
within place ps stack = run (record { step = in_string place ps; stack = stack })

abbrev from : List Piece → List Frame → Text → Result Json
from = within plain

scan_safe :
    (c : ℕ) (ps : List Piece) (stack : List Frame) (t : Text)
    → is_safe c ≡ true
    → from ps stack (c ∷ t) ≡ from (ps ++ char c ∷ []) stack t
unfolding run scan on_string
scan_safe c ps stack t h = ground arith

-- The rest of the text, from where a step has led.
abbrev pub then_run : Text → Result State → Result Json
then_run t (err e) = err e
then_run t (ok s) = run s t

abbrev digit_or_error : ℕ → List Frame → (ℕ → Step) → Option ℕ → Result State
digit_or_error c stack next none = syntax_error c (text "in \\u hexadecimal character escape")
digit_or_error c stack next (some d) = to (next d) stack

-- One of the digits after `\u`, and the last of them.
scan_digit :
    (c d k n : ℕ) (ps : List Piece) (stack : List Frame) (t : Text)
    → hex_value c ≡ some d
    → within (digits (suc k) n) ps stack (c ∷ t) ≡ within (digits k (16 * n + d)) ps stack t
unfolding run scan on_string
scan_digit c d k n ps stack t h =
    let next : ℕ → Step = λ e. in_string (digits k (16 * n + e)) ps in
    ap (λ o. then_run t (digit_or_error c stack next o)) h

scan_last_digit :
    (c d n : ℕ) (ps : List Piece) (stack : List Frame) (t : Text)
    → hex_value c ≡ some d
    → within (digits 0 n) ps stack (c ∷ t) ≡ from (ps ++ u16 (16 * n + d) ∷ []) stack t
unfolding run scan on_string
scan_last_digit c d n ps stack t h =
    let next : ℕ → Step = λ e. in_string plain (ps ++ u16 (16 * n + e) ∷ []) in
    ap (λ o. then_run t (digit_or_error c stack next o)) h

scan_hex :
    (a b : ℕ) (ps : List Piece) (stack : List Frame) (t : Text)
    → a < 16
    → b < 16
    → from ps stack (b'\\' ∷ b'u' ∷ b'0' ∷ b'0' ∷ hex_digit a ∷ hex_digit b ∷ t)
      ≡ from (ps ++ u16 (16 * a + b) ∷ []) stack t
unfolding run scan on_string
scan_hex a b ps stack t ha hb =
    scan_digit (hex_digit a) a 0 0 ps stack (hex_digit b ∷ t) (hex_value-hex_digit a ha)
    ∙ ap (λ n. within (digits 0 n) ps stack (hex_digit b ∷ t)) (omega arith)
    ∙ scan_last_digit (hex_digit b) b a ps stack t (hex_value-hex_digit b hb)

abbrev IsScanned : ℕ → Type 0
IsScanned c =
    (ps : List Piece) (stack : List Frame) (t : Text)
    → from ps stack (escape_char c ++ t) ≡ from (ps ++ piece_of c ∷ []) stack t

IsScanned-coded : (c : ℕ) → IsCoded c → IsScanned c
IsScanned-coded c h ps stack t =
    let l : c / 16 < 16 = omega (arith, h.1) in
    let m : c % 16 < 16 = omega arith in
    let n : 16 * (c / 16) + c % 16 ≡ c = omega arith in
    ap (λ l. from ps stack (l ++ t)) (escape_coded c h)
    ∙ scan_hex (c / 16) (c % 16) ps stack t l m
    ∙ ap (λ p. from (ps ++ p ∷ []) stack t) (ap u16 n ∙ sym (piece_of_coded c h))

IsScanned-safe : (c : ℕ) → is_safe c ≡ true → IsScanned c
unfolding escape_char
IsScanned-safe c e ps stack t =
    let p : escape_char c ≡ c ∷ [] = ground arith in
    let q : piece_of c ≡ char c = ground arith in
    ap (λ l. from ps stack (l ++ t)) p
    ∙ scan_safe c ps stack t e
    ∙ ap (λ p. from (ps ++ p ∷ []) stack t) (sym q)

IsScanned-escape_char : (c : ℕ) → IsScanned c
unfolding escape_char run scan on_string
IsScanned-escape_char c = elim (Bool-cases (is_safe c)) [
  | inl e ↦ IsScanned-safe c e
  | inr e ↦ elim (unsafe-cases c e) [
    | inl h ↦ IsScanned-coded c h
    | inr (inl q) ↦ subst IsScanned (sym q) (λ ps stack t. refl)
    | inr (inr (inl q)) ↦ subst IsScanned (sym q) (λ ps stack t. refl)
    | inr (inr (inr (inl q))) ↦ subst IsScanned (sym q) (λ ps stack t. refl)
    | inr (inr (inr (inr (inl q)))) ↦ subst IsScanned (sym q) (λ ps stack t. refl)
    | inr (inr (inr (inr (inr (inl q))))) ↦ subst IsScanned (sym q) (λ ps stack t. refl)
    | inr (inr (inr (inr (inr (inr (inl q)))))) ↦ subst IsScanned (sym q) (λ ps stack t. refl)
    | inr (inr (inr (inr (inr (inr (inr q)))))) ↦ subst IsScanned (sym q) (λ ps stack t. refl)
  ]
]

scan_escape :
    (s : Text) (ps : List Piece) (stack : List Frame) (rest : Text)
    → from ps stack (escape s ++ rest) ≡ from (ps ++ map piece_of s) stack rest
unfolding escape
scan_escape [] ps stack rest = ap (λ l. from l stack rest) (sym (append-nil ps))
scan_escape (c ∷ s) ps stack rest =
    ap (from ps stack) (append_assoc (escape_char c) (escape s) rest)
    ∙ IsScanned-escape_char c ps stack (escape s ++ rest)
    ∙ scan_escape s (ps ++ piece_of c ∷ []) stack rest
    ∙ ap (λ l. from l stack rest) (append_assoc ps (piece_of c ∷ []) (map piece_of s))

-- Past the opening quote.
scan_contents :
    (s : Text) (stack : List Frame) (rest : Text)
    → from [] stack ((escape s ++ b'"' ∷ []) ++ rest)
      ≡ run (record { step = end_value (string s); stack = stack }) rest
unfolding run scan on_string
scan_contents s stack rest =
    ap (from [] stack) (append_assoc (escape s) (b'"' ∷ []) rest)
    ∙ scan_escape s [] stack (b'"' ∷ rest)
    ∙ ap (λ t. run (record { step = end_value (string t); stack = stack }) rest)
        (runes-marshalled s)

-- A string that `json.Marshal` has written is read as a value, whatever text follows it.
pub scan-marshal_string :
    (s : Text) (stack : List Frame) (rest : Text)
    → run (record { step = begin_value; stack = stack }) (marshal_string s ++ rest)
      ≡ run (record { step = end_value (string s); stack = stack }) rest
unfolding run scan on_begin_value marshal_string
scan-marshal_string s stack rest = scan_contents s stack rest

-- And as a key.
pub scan_key-marshal_string :
    (s : Text) (stack : List Frame) (rest : Text)
    → run (record { step = begin_string; stack = stack }) (marshal_string s ++ rest)
      ≡ run (record { step = end_value (string s); stack = stack }) rest
unfolding run scan on_begin_string marshal_string
scan_key-marshal_string s stack rest = scan_contents s stack rest

-- And as the first key of an object.
pub scan_first_key-marshal_string :
    (s : Text) (members : Members) (stack : List Frame) (rest : Text)
    → run
        (record { step = begin_string_or_empty; stack = object_key members ∷ stack })
        (marshal_string s ++ rest)
      ≡ run (record { step = end_value (string s); stack = object_key members ∷ stack }) rest
unfolding run scan on_begin_string marshal_string
scan_first_key-marshal_string s members stack rest =
    scan_contents s (object_key members ∷ stack) rest
