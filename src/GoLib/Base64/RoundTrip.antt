-- ===== src/GoLib/Base64/RoundTrip.antt =====
-- `DecodeString` undoes the encoding of RFC 4648.
use mathlib.Core.List.{append-nil, append_assoc}
use pay_gas_x.Base.{
  ℕ, ◌+◌, ◌*◌, ◌/◌, ◌%◌, ◌<◌, ◌≡◌, refl, ◌∙◌, List, [], ◌∷◌, ◌++◌, some, none, All, arith,
}
use pay_gas_x.GoLib.Base64.{
  IsByte, decode_digit, alphabet, end_of_text, Quantum, push, emit, one, two, three, bits_24, first,
  second, third, encode, decode_from, decode_string, bytes, none_yet, pad, second_pad, finish,
}

decode_digit-alphabet : (d : ℕ) → d < 64 → decode_digit (alphabet d) ≡ some d
unfolding decode_digit alphabet
decode_digit-alphabet d h = ground arith

decode_digit-pad : decode_digit b'=' ≡ none
unfolding decode_digit
decode_digit-pad = refl

decode_from-alphabet :
    (i : ℕ) (q : Quantum) (d : ℕ) (cs out : List ℕ)
    → d < 64
    → decode_from i q out (alphabet d ∷ cs) ≡ decode_from (i + 1) (push q d) (emit q d out) cs
unfolding decode_from
decode_from-alphabet i q d cs out h = rw (decode_digit-alphabet d h, decode_from)

decode_from-pad :
    (i : ℕ) (q : Quantum) (cs out : List ℕ) → decode_from i q out (b'=' ∷ cs) ≡ pad i q cs out
unfolding decode_from
decode_from-pad i q cs out = rw (decode_digit-pad, decode_from)

-- The six-bit digits of one, two and three bytes give the bytes back.
one_byte : (a : ℕ) → a < 256 → first (bits_24 (a / 4) (a % 4 * 16) 0 0) ≡ a
one_byte a ha = omega arith

two_bytes :
    (a b : ℕ)
    → a < 256
    → b < 256
    → let v = bits_24 (a / 4) (a % 4 * 16 + b / 16) (b % 16 * 4) 0 in (first v ≡ a) × (second v ≡ b)
two_bytes a b ha hb = omega arith

three_bytes :
    (a b c : ℕ)
    → a < 256
    → b < 256
    → c < 256
    → let v = bits_24 (a / 4) (a % 4 * 16 + b / 16) (b % 16 * 4 + c / 64) (c % 64) in
      (first v ≡ a) × (second v ≡ b) × (third v ≡ c)
three_bytes a b c ha hb hc = omega arith

decode_from-encode :
    (bs : List ℕ) (i : ℕ) (out : List ℕ)
    → All IsByte bs
    → decode_from i none_yet out (encode bs) ≡ bytes (out ++ bs)
unfolding encode end_of_text pad second_pad finish
decode_from-encode [] i out h = rw append-nil (unfold decode_from in refl)
decode_from-encode (a ∷ []) i out (ha, _) =
    rw
      (
        decode_from-alphabet i none_yet (a / 4) _ out (omega arith),
        decode_from-alphabet (i + 1) (one (a / 4)) (a % 4 * 16) _ out (omega arith),
        decode_from-pad,
      )
      (cc (one_byte a ha))
decode_from-encode (a ∷ b ∷ []) i out (ha, (hb, _)) =
    let x = a / 4 in
    let y = a % 4 * 16 + b / 16 in
    rw
      (
        decode_from-alphabet i none_yet x _ out (omega arith),
        decode_from-alphabet (i + 1) (one x) y _ out (omega arith),
        decode_from-alphabet (i + 1 + 1) (two x y) (b % 16 * 4) _ out (omega arith),
        decode_from-pad,
      )
      (cc ((two_bytes a b ha hb).0, (two_bytes a b ha hb).1))
decode_from-encode (a ∷ b ∷ c ∷ bs) i out (ha, (hb, (hc, h))) =
    let x = a / 4 in
    let y = a % 4 * 16 + b / 16 in
    let z = b % 16 * 4 + c / 64 in
    rw
      (
        decode_from-alphabet i none_yet x _ out (omega arith),
        decode_from-alphabet (i + 1) (one x) y _ out (omega arith),
        decode_from-alphabet (i + 1 + 1) (two x y) z _ out (omega arith),
        decode_from-alphabet (i + 1 + 1 + 1) (three x y z) (c % 64) _ out (omega arith),
      )
      (decode_from-encode bs (i + 1 + 1 + 1 + 1) _ h
        ∙ rw append_assoc (
            cc (
              (three_bytes a b c ha hb hc).0,
              (three_bytes a b c ha hb hc).1,
              (three_bytes a b c ha hb hc).2,
            )))

-- Every sequence of bytes, encoded as RFC 4648 says, is decoded to itself.
pub decode_string-encode : (bs : List ℕ) → All IsByte bs → decode_string (encode bs) ≡ bytes bs
unfolding decode_string
decode_string-encode bs h = decode_from-encode bs 0 [] h
