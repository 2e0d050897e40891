-- ===== src/GoLib/Json/RoundTrip.antt =====
-- What `json.Marshal` writes of names and strings, GoLib/Marshal.antt, is read back.
use pay_gas_x.Base.{
  ℕ, ◌+◌, ◌*◌, ◌/◌, ◌%◌, ◌<◌, ◌≡◌, refl, ◌∙◌, ap, sym, ◌⊎◌, inl, inr, true, false, Bool-cases, List,
  [], ◌∷◌, ◌++◌, map, All, some, Text, ◌==◌, ◌||◌, ◌≢◌, if◌then◌else◌, arith,
}
use mathlib.Core.Path.{subst}
use mathlib.Core.List.{append_assoc}
use pay_gas_x.GoLib.Marshal.{hex_digit, is_safe, escape_char, escape, marshal_string}
use pay_gas_x.GoLib.Json.{
  Piece, char, u16, hex_value, plain, piece_then, read_pieces, runes, read_string,
}

-- How a character of a string is read back.
abbrev pub piece_of : ℕ → Piece
piece_of c =
    if is_safe c || c == b'\\' || c == b'"' || c == 10 || c == 13 || c == 9 then char c else u16 c

pub hex_value-hex_digit : (d : ℕ) → d < 16 → hex_value (hex_digit d) ≡ some d
hex_value-hex_digit d h = ground arith

read_safe :
    (c : ℕ) (t : Text)
    → is_safe c ≡ true
    → read_pieces plain (c ∷ t) ≡ piece_then (char c) (read_pieces plain t)
unfolding read_pieces
read_safe c t h = ground arith

read_hex :
    (a b : ℕ) (t : Text)
    → a < 16
    → b < 16
    → read_pieces plain (b'\\' ∷ b'u' ∷ b'0' ∷ b'0' ∷ hex_digit a ∷ hex_digit b ∷ t)
      ≡ piece_then (u16 (16 * a + b)) (read_pieces plain t)
unfolding read_pieces
read_hex a b t ha hb =
    rw (hex_value-hex_digit a ha, hex_value-hex_digit b hb)
      (ap (λ (n : ℕ). piece_then (u16 (16 * n + b)) (read_pieces plain t)) (omega arith))

read_wide :
    (b : ℕ) (t : Text)
    → b < 16
    → read_pieces plain (b'\\' ∷ b'u' ∷ b'2' ∷ b'0' ∷ b'2' ∷ hex_digit b ∷ t)
      ≡ piece_then (u16 (0x2020 + b)) (read_pieces plain t)
unfolding read_pieces
read_wide b t hb = rw (hex_value-hex_digit b hb)

-- `escape_char` writes such a character by its code.
abbrev pub IsCoded : ℕ → Type 0
IsCoded c =
    (is_safe c ≡ false) × (c < 128) × (c ≢ b'\\') × (c ≢ b'"') × (c ≢ 10) × (c ≢ 13) × (c ≢ 9)

pub unsafe-cases :
    (c : ℕ)
    → is_safe c ≡ false
    → IsCoded c
      ⊎ ((c ≡ b'\\')
          ⊎ ((c ≡ b'"') ⊎ ((c ≡ 10) ⊎ ((c ≡ 13) ⊎ ((c ≡ 9) ⊎ ((c ≡ 0x2028) ⊎ (c ≡ 0x2029)))))))
unsafe-cases c e = ground arith

pub escape_coded :
    (c : ℕ)
    → IsCoded c
    → escape_char c ≡ b'\\' ∷ b'u' ∷ b'0' ∷ b'0' ∷ hex_digit (c / 16) ∷ hex_digit (c % 16) ∷ []
unfolding escape_char
escape_coded c h = ground arith

pub piece_of_coded : (c : ℕ) → IsCoded c → piece_of c ≡ u16 c
piece_of_coded c h = ground arith

abbrev IsRead : ℕ → Type 0
IsRead c =
    (t : Text)
    → read_pieces plain (escape_char c ++ t) ≡ piece_then (piece_of c) (read_pieces plain t)

IsRead-coded : (c : ℕ) → IsCoded c → IsRead c
IsRead-coded c h t =
    let l : c / 16 < 16 = omega (arith, h.1) in
    let m : c % 16 < 16 = omega arith in
    let n : 16 * (c / 16) + c % 16 ≡ c = omega arith in
    ap (λ l. read_pieces plain (l ++ t)) (escape_coded c h)
    ∙ read_hex (c / 16) (c % 16) t l m
    ∙ ap (λ p. piece_then p (read_pieces plain t)) (ap u16 n ∙ sym (piece_of_coded c h))

IsRead-safe : (c : ℕ) → is_safe c ≡ true → IsRead c
unfolding escape_char
IsRead-safe c e t =
    let p : escape_char c ≡ c ∷ [] = ground arith in
    let q : piece_of c ≡ char c = ground arith in
    ap (λ l. read_pieces plain (l ++ t)) p
    ∙ read_safe c t e
    ∙ ap (λ p. piece_then p (read_pieces plain t)) (sym q)

IsRead-escape_char : (c : ℕ) → IsRead c
unfolding escape_char read_pieces
IsRead-escape_char c = elim (Bool-cases (is_safe c)) [
  | inl e ↦ IsRead-safe c e
  | inr e ↦ elim (unsafe-cases c e) [
    | inl h ↦ IsRead-coded c h
    | inr (inl q) ↦ subst IsRead (sym q) (λ t. refl)
    | inr (inr (inl q)) ↦ subst IsRead (sym q) (λ t. refl)
    | inr (inr (inr (inl q))) ↦ subst IsRead (sym q) (λ t. refl)
    | inr (inr (inr (inr (inl q)))) ↦ subst IsRead (sym q) (λ t. refl)
    | inr (inr (inr (inr (inr (inl q))))) ↦ subst IsRead (sym q) (λ t. refl)
    | inr (inr (inr (inr (inr (inr (inl q)))))) ↦ subst IsRead (sym q) (λ t. refl)
    | inr (inr (inr (inr (inr (inr (inr q)))))) ↦ subst IsRead (sym q) (λ t. refl)
  ]
]

read_escape :
    (s rest : Text) → read_pieces plain (escape s ++ b'"' ∷ rest) ≡ some (map piece_of s, rest)
unfolding escape
read_escape [] rest = unfold read_pieces in refl
read_escape (c ∷ s) rest =
    ap (read_pieces plain) (append_assoc (escape_char c) (escape s) (b'"' ∷ rest))
    ∙ IsRead-escape_char c (escape s ++ b'"' ∷ rest)
    ∙ ap (piece_then (piece_of c)) (read_escape s rest)

-- No piece is half of a surrogate pair.
abbrev IsWhole : Piece → Type 0
IsWhole (char c) = Unit
IsWhole (u16 n) = n < 0xD800

abbrev code_of : Piece → ℕ
code_of (char c) = c
code_of (u16 n) = n

runes_whole : (ps : List Piece) → All IsWhole ps → runes ps ≡ map code_of ps
unfolding runes
runes_whole [] h = refl
runes_whole (char c ∷ ps) (_, h) = ap (λ l. c ∷ l) (runes_whole ps h)
runes_whole (u16 n ∷ []) (l, h) = ground arith
runes_whole (u16 n ∷ char c ∷ ps) (l, (_, h)) = ground (arith, runes_whole ps h)
runes_whole (u16 n ∷ u16 m ∷ ps) (l, h) = ground (arith, runes_whole (u16 m ∷ ps) h)

piece_of-IsWhole : (c : ℕ) → IsWhole (piece_of c) × (code_of (piece_of c) ≡ c)
piece_of-IsWhole c =
    elim (Bool-cases (is_safe c || c == b'\\' || c == b'"' || c == 10 || c == 13 || c == 9)) [
      | inl e ↦ rw e (tt, refl)
      | inr e ↦ let l : c < 0xD800 = ground arith in rw e (l, refl)
    ]

runes-piece_of : (s : Text) → All IsWhole (map piece_of s) × (map code_of (map piece_of s) ≡ s)
runes-piece_of [] = (tt, refl)
runes-piece_of (c ∷ s) =
    let (w, e) = piece_of-IsWhole c in
    let (ws, es) = runes-piece_of s in
    ((w, ws), ap (λ d. d ∷ map code_of (map piece_of s)) e ∙ ap (λ l. c ∷ l) es)

-- The pieces of a written string are its characters.
pub runes-marshalled : (s : Text) → runes (map piece_of s) ≡ s
runes-marshalled s = let (w, e) = runes-piece_of s in runes_whole (map piece_of s) w ∙ e

-- A string that `json.Marshal` has written reads back, whatever text follows it.
pub read_string-marshal_string :
    (s rest : Text) → read_string (marshal_string s ++ rest) ≡ some (s, rest)
unfolding read_string marshal_string
read_string-marshal_string s rest =
    let p : read_pieces plain ((escape s ++ b'"' ∷ []) ++ rest) ≡ some (map piece_of s, rest) =
      ap (read_pieces plain) (append_assoc (escape s) (b'"' ∷ []) rest) ∙ read_escape s rest in
    let q = runes-marshalled s in ground arith
