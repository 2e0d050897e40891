-- ===== src/GoLib/Json/Plain.antt =====
-- Texts that stand in a JSON string as they are.

use pay_gas_x.Base.{
  ℕ, zero, suc, ◌+◌, ◌*◌, ◌≤◌, ◌<◌, ◌≡◌, ◌≢◌, refl, ap, inl, inr, Bool-cases, List, [], ◌∷◌, ◌++◌,
  map, All, length, length-append, Option, none, some, Option-cases, Text, ◌==◌, arith,
}
use pay_gas_x.GoLib.Json.{
  Piece, char, u16, Place, plain, escaped, digits, hex_value, escaped_char, piece_then, read_pieces,
  runes, is_pair,
}

-- A character that needs no escape.
abbrev pub IsPlain : ℕ → Type 0
IsPlain c = (32 ≤ c) × (c ≢ b'"') × (c ≢ b'\\')

piece_then-length :
    (p : Piece) (o : Option (List Piece × Text)) (ps : List Piece) (r : Text)
    → piece_then p o ≡ some (ps, r)
    → (qs : List Piece) × (o ≡ some (qs, r)) × (length ps ≡ suc (length qs))
piece_then-length p none ps r h = cc
piece_then-length p (some (qs, s)) ps r h = (qs, ground arith, ground arith)

-- A string takes a character for each piece, and one for its closing quote.
pub length-read_pieces :
    (place : Place) (t : Text) (ps : List Piece) (r : Text)
    → read_pieces place t ≡ some (ps, r)
    → length ps + length r < length t
unfolding read_pieces
length-read_pieces place [] ps r h = cc
length-read_pieces plain (c ∷ cs) ps r h = elim (Bool-cases (c == b'"')) [
  | inl e ↦ let l : length ps + length r ≡ length cs = ground arith in omega (arith, l)
  | inr e ↦ elim (Bool-cases (c == b'\\')) [
    | inl f ↦
        let g : read_pieces escaped cs ≡ some (ps, r) = ground arith in
        omega (arith, length-read_pieces escaped cs ps r g)
    | inr f ↦
        let g : piece_then (char c) (read_pieces plain cs) ≡ some (ps, r) = ground arith in
        let (qs, i, l) = piece_then-length (char c) (read_pieces plain cs) ps r g in
        omega (arith, l, length-read_pieces plain cs qs r i)
  ]
]
length-read_pieces escaped (c ∷ cs) ps r h = elim (Bool-cases (c == b'u')) [
  | inl e ↦
      let g : read_pieces (digits 3 0) cs ≡ some (ps, r) = ground arith in
      omega (arith, length-read_pieces (digits 3 0) cs ps r g)
  | inr e ↦ elim (Option-cases (escaped_char c)) [
    | inl f ↦ absurd (ground arith)
    | inr (d, f) ↦
        let g : piece_then (char d) (read_pieces plain cs) ≡ some (ps, r) = ground arith in
        let (qs, i, l) = piece_then-length (char d) (read_pieces plain cs) ps r g in
        omega (arith, l, length-read_pieces plain cs qs r i)
  ]
]
length-read_pieces (digits zero n) (c ∷ cs) ps r h = elim (Option-cases (hex_value c)) [
  | inl f ↦ absurd (ground arith)
  | inr (d, f) ↦
      let g : piece_then (u16 (16 * n + d)) (read_pieces plain cs) ≡ some (ps, r) = ground arith in
      let (qs, i, l) = piece_then-length (u16 (16 * n + d)) (read_pieces plain cs) ps r g in
      omega (arith, l, length-read_pieces plain cs qs r i)
]
length-read_pieces (digits (suc k) n) (c ∷ cs) ps r h = elim (Option-cases (hex_value c)) [
  | inl f ↦ absurd (ground arith)
  | inr (d, f) ↦
      let g : read_pieces (digits k (16 * n + d)) cs ≡ some (ps, r) = ground arith in
      omega (arith, length-read_pieces (digits k (16 * n + d)) cs ps r g)
]

-- The text of a string is no longer than its pieces.
pub length-runes : (ps : List Piece) → length (runes ps) ≤ length ps
unfolding runes
length-runes [] = omega arith
length-runes (char c ∷ ps) = omega (arith, length-runes ps)
length-runes (u16 n ∷ []) = omega arith
length-runes (u16 n ∷ char c ∷ ps) = omega (arith, length-runes ps)
length-runes (u16 n ∷ u16 m ∷ ps) = elim (Bool-cases (is_pair n m)) [
  | inl e ↦ rw e (omega (arith, length-runes ps))
  | inr e ↦ rw e (omega (arith, length-runes (u16 m ∷ ps)))
]

-- Plain characters are read one by one.
pub read_pieces_plain :
    (m rest : Text) → All IsPlain m → read_pieces plain (m ++ b'"' ∷ rest) ≡ some (map char m, rest)
unfolding read_pieces
read_pieces_plain [] rest h = refl
read_pieces_plain (c ∷ m) rest (p, h) = ground (arith, read_pieces_plain m rest h)

pub runes-char : (m : Text) → runes (map char m) ≡ m
unfolding runes
runes-char [] = refl
runes-char (c ∷ m) = ap (λ l. c ∷ l) (runes-char m)

-- A string that takes of `m` no more than a character for each piece, and stops at the quote after
-- it, has read no escape in `m`.
pub plain_of_read :
    (m rest : Text) (ps : List Piece) (r : Text)
    → read_pieces plain (m ++ b'"' ∷ rest) ≡ some (ps, r)
    → length m ≤ length ps
    → length rest ≤ length r
    → All IsPlain m
unfolding read_pieces
plain_of_read [] rest ps r h l k = tt
plain_of_read (c ∷ m) rest ps r h l k = elim (Bool-cases (c == b'"')) [
  | inl e ↦ absurd (let n : length ps ≡ 0 = ground arith in omega (arith, n, l))
  | inr e ↦ elim (Bool-cases (c == b'\\')) [
    | inl f ↦
        let g : read_pieces escaped (m ++ b'"' ∷ rest) ≡ some (ps, r) = ground arith in
        absurd (
          omega (
            arith,
            l,
            k,
            length-append m (b'"' ∷ rest),
            length-read_pieces escaped (m ++ b'"' ∷ rest) ps r g,
          ))
    | inr f ↦
        let g : piece_then (char c) (read_pieces plain (m ++ b'"' ∷ rest)) ≡ some (ps, r) =
          ground arith in
        let (qs, i, j) = piece_then-length (char c) (read_pieces plain (m ++ b'"' ∷ rest)) ps r g in
        let p : IsPlain c = ground arith in (p, plain_of_read m rest qs r i (omega (arith, j, l)) k)
  ]
]
