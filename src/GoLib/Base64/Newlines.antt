-- ===== src/GoLib/Base64/Newlines.antt =====
-- Newlines have no part in what a text decodes to.
use pay_gas_x.Base.{
  ℕ, ◌+◌, ◌≡◌, refl, Bool-cases, Option-cases, inl, inr, List, [], ◌∷◌, none, arith, true,
  if◌then◌else◌,
}
use pay_gas_x.GoLib.Base64.{
  Quantum, none_yet, one, two, three, push, emit, is_newline, decoded?, decode_digit, decode_from,
  decode_string, end_of_text, pad, second_pad, finish,
}

-- The text without its `\r` and `\n`.
unfoldable pub strip : List ℕ → List ℕ
strip [] = []
strip (c ∷ cs) = let rest = strip cs in if is_newline c then rest else c ∷ rest

finish-strip :
    (i j : ℕ) (cs out : List ℕ) → decoded? (finish i cs out) ≡ decoded? (finish j (strip cs) out)
unfolding finish strip
finish-strip i j [] out = refl
finish-strip i j (c ∷ cs) out = ground (arith, finish-strip (i + 1) j cs out)

second_pad-strip :
    (i j : ℕ) (cs out : List ℕ)
    → decoded? (second_pad i cs out) ≡ decoded? (second_pad j (strip cs) out)
unfolding second_pad strip
second_pad-strip i j [] out = refl
second_pad-strip i j (c ∷ cs) out =
    ground (arith, second_pad-strip (i + 1) j cs out, finish-strip (i + 1) (j + 1) cs out)

pad-strip :
    (i j : ℕ) (q : Quantum) (cs out : List ℕ)
    → decoded? (pad i q cs out) ≡ decoded? (pad j q (strip cs) out)
unfolding pad
pad-strip i j none_yet cs out = refl
pad-strip i j (one a) cs out = refl
pad-strip i j (two a b) cs out = second_pad-strip (i + 1) (j + 1) cs _
pad-strip i j (three a b c) cs out = finish-strip (i + 1) (j + 1) cs _

end_of_text-strip :
    (i j : ℕ) (q : Quantum) (out : List ℕ)
    → decoded? (end_of_text i q out) ≡ decoded? (end_of_text j q out)
unfolding end_of_text
end_of_text-strip i j none_yet out = refl
end_of_text-strip i j _ out = refl

-- No newline is a digit.
decode_digit_newline : (c : ℕ) → is_newline c ≡ true → decode_digit c ≡ none
unfolding decode_digit
decode_digit_newline c h = ground arith

decode_from-strip :
    (i j : ℕ) (q : Quantum) (cs out : List ℕ)
    → decoded? (decode_from i q out cs) ≡ decoded? (decode_from j q out (strip cs))
unfolding decode_from strip
decode_from-strip i j q [] out = end_of_text-strip i j q out
decode_from-strip i j q (c ∷ cs) out = elim (Bool-cases (is_newline c)) [
  | inl e ↦ rw (decode_digit_newline c e, decode_from) (rw e (decode_from-strip (i + 1) j q cs out))
  | inr e ↦ rw e (elim (Option-cases (decode_digit c)) [
    | inl n ↦ rw (n, decode_from) (rw e (ground (arith, pad-strip i j q cs out)))
    | inr (d, n) ↦
        rw (n, decode_from) (decode_from-strip (i + 1) (j + 1) (push q d) cs (emit q d out))
  ])
]

-- A text decodes to the same bytes with its newlines and without them, and the one is an error
-- just when the other is.
pub decode_string-strip :
    (cs : List ℕ) → decoded? (decode_string cs) ≡ decoded? (decode_string (strip cs))
unfolding decode_string
decode_string-strip cs = decode_from-strip 0 0 none_yet cs []
