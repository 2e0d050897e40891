-- ===== src/GoLib/Base64/Bytes.antt =====
-- What is decoded is a sequence of bytes.
use mathlib.Core.Path.{subst}
use pay_gas_x.Base.{Option-cases, inl, inr, ℕ, ◌+◌, ◌≡◌, List, [], ◌∷◌, arith, All, All-append}
use pay_gas_x.GoLib.Base64.{
  IsByte, Decoded, bytes, corrupt, Quantum, none_yet, one, two, three, push, emit, decode_digit,
  decode_from, decode_string, end_of_text, pad, second_pad, finish,
}

abbrev AllBytes : Decoded → Type 0
AllBytes (bytes out) = All IsByte out
AllBytes (corrupt i) = Unit

finish-AllBytes : (i : ℕ) (cs out : List ℕ) → All IsByte out → AllBytes (finish i cs out)
unfolding finish
finish-AllBytes i [] out h = h
finish-AllBytes i (c ∷ cs) out h = ground (arith, finish-AllBytes (i + 1) cs out h)

second_pad-AllBytes : (i : ℕ) (cs out : List ℕ) → All IsByte out → AllBytes (second_pad i cs out)
unfolding second_pad
second_pad-AllBytes i [] out h = tt
second_pad-AllBytes i (c ∷ cs) out h =
    ground (arith, second_pad-AllBytes (i + 1) cs out h, finish-AllBytes (i + 1) cs out h)

pad-AllBytes : (i : ℕ) (q : Quantum) (cs out : List ℕ) → All IsByte out → AllBytes (pad i q cs out)
unfolding pad
pad-AllBytes i none_yet cs out h = tt
pad-AllBytes i (one a) cs out h = tt
pad-AllBytes i (two a b) cs out h =
    second_pad-AllBytes (i + 1) cs _ (All-append IsByte out _ h (omega arith))
pad-AllBytes i (three a b c) cs out h =
    finish-AllBytes (i + 1) cs _ (All-append IsByte out _ h (omega arith))

emit-All : (q : Quantum) (d : ℕ) (out : List ℕ) → All IsByte out → All IsByte (emit q d out)
emit-All (three a b c) d out h = All-append IsByte out _ h (omega arith)
emit-All _ d out h = h

end_of_text-AllBytes :
    (i : ℕ) (q : Quantum) (out : List ℕ) → All IsByte out → AllBytes (end_of_text i q out)
unfolding end_of_text
end_of_text-AllBytes i none_yet out h = h
end_of_text-AllBytes i _ out h = tt

decode_from-AllBytes :
    (i : ℕ) (q : Quantum) (out cs : List ℕ) → All IsByte out → AllBytes (decode_from i q out cs)
unfolding decode_from
decode_from-AllBytes i q out [] h = end_of_text-AllBytes i q out h
decode_from-AllBytes i q out (c ∷ cs) h = elim (Option-cases (decode_digit c)) [
  | inl e ↦
      rw (e, decode_from)
        (ground (arith, decode_from-AllBytes (i + 1) q out cs h, pad-AllBytes i q cs out h))
  | inr (d, e) ↦
      rw (e, decode_from)
        (decode_from-AllBytes (i + 1) (push q d) (emit q d out) cs (emit-All q d out h))
]

-- Every element of a decoded text lies below 256.
pub decode_string-All : (cs : List ℕ) {out : List ℕ} → decode_string cs ≡ bytes out → All IsByte out
unfolding decode_string
decode_string-All cs e = subst AllBytes e (decode_from-AllBytes 0 none_yet [] cs tt)
