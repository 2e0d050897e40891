-- ===== src/Util/Laws.antt =====
-- What the parsers of bundler/src/util/main.go read.
use mathlib.Core.Option
use pay_gas_x.Base.{
  Bool-cases, leb, ◌&&◌, true, false, ◌==◌, ◌*◌, ◌-◌, sym, ap, ◌∙◌, ℕ, ◌+◌, ◌≡◌, refl, ◌↔◌, ◌⊎◌,
  inl, inr, List, [], ◌∷◌, All, Option, none, some, Text, ok, arith,
}
use pay_gas_x.Base.Int.{ℤ, pos, neg_ℕ}
use pay_gas_x.Base.Decimal.{IsDigit, scan_onto}
use pay_gas_x.GoLib.BigInt.{scan, set_string, int_string, set_string-int_string}
use pay_gas_x.GoLib.Base64.{IsByte, decode_string, encode, decoded?, bytes}
use pay_gas_x.GoLib.Base64.RoundTrip.{decode_string-encode}
use pay_gas_x.GoLib.Base64.Newlines.{strip, decode_string-strip}
use pay_gas_x.GoLib.Base64.Bytes.{decode_string-All}
use pay_gas_x.Util.{parse_big_int_string, parse_base64_string}

-- The base64 text of RFC 4648 of any bytes is read back as those bytes.
pub parse_base64_string-encode :
    (bs : List ℕ) → All IsByte bs → parse_base64_string (encode bs) ≡ ok bs
unfolding parse_base64_string
parse_base64_string-encode bs h = ground (arith, decode_string-encode bs h)

-- What is read is a sequence of bytes, and the text without its newlines reads the same.
parse_base64_string_ok :
    (b64 : Text) {bs : List ℕ}
    → parse_base64_string b64 ≡ ok bs
    → All IsByte bs × (parse_base64_string (strip b64) ≡ ok bs)
unfolding parse_base64_string
parse_base64_string_ok b64 {bs} h =
    let e : decode_string b64 ≡ bytes bs = ground arith in
    let f : decoded? (decode_string (strip b64)) ≡ some bs =
      sym (decode_string-strip b64) ∙ ap decoded? e in
    (decode_string-All b64 e, ground arith)

-- The decimal text of any integer is read back as that integer.
pub parse_big_int_string-int_string : (z : ℤ) → parse_big_int_string (int_string z) ≡ some z
unfolding parse_big_int_string
parse_big_int_string-int_string z = set_string-int_string z

abbrev IsNumber : Text → Type 0
IsNumber [] = ⊥
IsNumber (c ∷ cs) = All IsDigit (c ∷ cs)

-- Decimal digits, one at least, with a sign or none before them.
abbrev pub IsNumeral : Text → Type 0
IsNumeral [] = ⊥
IsNumeral (c ∷ cs) = IsNumber (c ∷ cs) ⊎ (((c ≡ b'-') ⊎ (c ≡ b'+')) × IsNumber cs)

All-of_scan_onto : (n : ℕ) (cs : Text) {k : ℕ} → scan_onto n cs ≡ some k → All IsDigit cs
unfolding scan_onto
All-of_scan_onto n [] h = tt
All-of_scan_onto n (c ∷ cs) h = elim (Bool-cases (leb b'0' c && leb c b'9')) [
  | inl e ↦ (ground arith, All-of_scan_onto (n * 10 + (c - b'0')) cs (rw e at h))
  | inr e ↦ let f = rw e at h in cc f
]

scan_onto_of_All : (n : ℕ) (cs : Text) → All IsDigit cs → (k : ℕ) × (scan_onto n cs ≡ some k)
unfolding scan_onto
scan_onto_of_All n [] h = (n, refl)
scan_onto_of_All n (c ∷ cs) (d, h) =
    let e : (leb b'0' c && leb c b'9') ≡ true = ground arith in
    rw e (scan_onto_of_All (n * 10 + (c - b'0')) cs h)

IsNumber-of_scan : (cs : Text) {k : ℕ} → scan cs ≡ some k → IsNumber cs
unfolding scan
IsNumber-of_scan [] h = cc
IsNumber-of_scan (c ∷ cs) h = All-of_scan_onto 0 (c ∷ cs) h

scan_of_IsNumber : (cs : Text) → IsNumber cs → (k : ℕ) × (scan cs ≡ some k)
unfolding scan
scan_of_IsNumber [] h = absurd h
scan_of_IsNumber (c ∷ cs) h = scan_onto_of_All 0 (c ∷ cs) h

-- A minus sign or a plus sign is no digit.
sign_lem : (c : ℕ) → IsDigit c → ((c == b'-') ≡ false) × ((c == b'+') ≡ false)
sign_lem c h = ground arith

-- What `Option.map` gives a value from has one.
value_of_map : (f : ℕ → ℤ) (o : Option ℕ) {z : ℤ} → Option.map f o ≡ some z → (k : ℕ) × (o ≡ some k)
value_of_map f none h = cc
value_of_map f (some k) h = (k, refl)

IsNumeral-of_set_string : (s : Text) {z : ℤ} → set_string s ≡ some z → IsNumeral s
unfolding set_string
IsNumeral-of_set_string [] h = cc
IsNumeral-of_set_string (c ∷ cs) h = elim (Bool-cases (c == b'-')) [
  | inl e ↦
      inr (inl (ground arith), IsNumber-of_scan cs (value_of_map neg_ℕ (scan cs) (rw e at h)).1)
  | inr e ↦ elim (Bool-cases (c == b'+')) [
    | inl f ↦
        inr
          (inr (ground arith), IsNumber-of_scan cs (value_of_map pos (scan cs) (rw (e, f) at h)).1)
    | inr f ↦ inl (IsNumber-of_scan (c ∷ cs) (value_of_map pos (scan (c ∷ cs)) (rw (e, f) at h)).1)
  ]
]

set_string_of_IsNumeral : (s : Text) → IsNumeral s → (z : ℤ) × (set_string s ≡ some z)
unfolding set_string
set_string_of_IsNumeral [] h = absurd h
set_string_of_IsNumeral (c ∷ cs) (inl d) =
    let (k, e) = scan_of_IsNumber (c ∷ cs) d in
    (pos k, rw ((sign_lem c d.0).0, (sign_lem c d.0).1, e))
set_string_of_IsNumeral (c ∷ cs) (inr (inl p, d)) =
    let (k, e) = scan_of_IsNumber cs d in (neg_ℕ k, ground arith)
set_string_of_IsNumeral (c ∷ cs) (inr (inr p, d)) =
    let (k, e) = scan_of_IsNumber cs d in (pos k, ground arith)

-- A text has a value exactly when it is a numeral.
pub parse_big_int_string_iff :
    (s : Text) → ((z : ℤ) × (parse_big_int_string s ≡ some z)) ↔ IsNumeral s
unfolding parse_big_int_string
parse_big_int_string_iff s = (λ (z, e). IsNumeral-of_set_string s e, set_string_of_IsNumeral s)
