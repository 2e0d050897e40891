-- ===== src/GoLib/Scanner/Refused.antt =====
-- An object that `json.Marshal` has written is refused where it is cut short.
use mathlib.Core.Path.{subst}
use pay_gas_x.Base.{
  ℕ, ◌≡◌, ◌≢◌, refl, ◌∙◌, ap, sym, inl, inr, true, [], ◌∷◌, ◌++◌, All, Option, none, some, Text,
  Result-cases, ok, err, arith, text,
}
use pay_gas_x.GoLib.Json.{is_space}
use pay_gas_x.GoLib.Marshal.{marshal_string}
use pay_gas_x.GoLib.JsonValue.{Json, Members, object, no_members, member}
use pay_gas_x.GoLib.Print.{print, print_members}
use pay_gas_x.GoLib.Scanner.{scan, at_eof, run, read_json}
use pay_gas_x.GoLib.Scanner.States.{push}
use pay_gas_x.GoLib.Scanner.Tokens.{on_begin_value}
use pay_gas_x.GoLib.Scanner.Stays.{opened}
use pay_gas_x.GoLib.Scanner.Cut.{rest_spaces}

abbrev last : Text → Option ℕ
last [] = none
last (c ∷ []) = some c
last (c ∷ (d ∷ t)) = last (d ∷ t)

last-cons : (c : ℕ) (t : Text) {d : ℕ} → last t ≡ some d → last (c ∷ t) ≡ some d
last-cons c [] e = cc
last-cons c (_ ∷ t) e = e

last-append : (p q : Text) {d : ℕ} → last q ≡ some d → last (p ++ q) ≡ some d
last-append [] q e = e
last-append (c ∷ p) q e = last-cons c (p ++ q) (last-append p q e)

last_exists : (c : ℕ) (t : Text) → (d : ℕ) × (last (c ∷ t) ≡ some d)
last_exists c [] = (c, refl)
last_exists c (d ∷ t) = last_exists d t

last-All : (P : ℕ → Type 0) (q : Text) {d : ℕ} → All P q → last q ≡ some d → P d
last-All P [] h e = absurd (ground arith)
last-All P (c ∷ []) {d} h e = let same : c ≡ d = ground arith in subst P same h.0
last-All P (c ∷ (d ∷ q)) h e = last-All P (d ∷ q) h.1 e

member-last :
    (c : ℕ) (k : Text) (v : Json) (ms : Members)
    → last (print_members ms) ≡ some b'}'
    → last (c ∷ (marshal_string k ++ b':' ∷ (print v ++ print_members ms))) ≡ some b'}'
member-last c k v ms e =
    last-append (c ∷ marshal_string k) (b':' ∷ (print v ++ print_members ms))
      (last-append (b':' ∷ print v) (print_members ms) e)

members-last : (ms : Members) → last (print_members ms) ≡ some b'}'
unfolding print
members-last no_members = refl
members-last (member k v ms) = member-last b',' k v ms (members-last ms)

object-last : (ms : Members) → last (print (object ms)) ≡ some b'}'
unfolding print
object-last no_members = refl
object-last (member k v ms) = member-last b'{' k v ms (members-last ms)

object-first : (ms : Members) → (t : Text) × (print (object ms) ≡ b'{' ∷ t)
unfolding print
object-first no_members = (text "}", refl)
object-first (member k v ms) = (marshal_string k ++ b':' ∷ (print v ++ print_members ms), refl)

-- If a text that begins with a brace is read, and so is a longer one, then what is longer is spaces.
braced :
    (p q : Text) (v w : Json)
    → read_json (b'{' ∷ p) ≡ ok v
    → read_json (b'{' ∷ (p ++ q)) ≡ ok w
    → All (λ c. is_space c ≡ true) q
unfolding read_json run scan on_begin_value push
braced p q v w h k = rest_spaces p q _ v w opened h k

nothing_read : read_json [] ≡ err (text "unexpected end of JSON input")
unfolding read_json run at_eof scan on_begin_value
nothing_read = refl

-- Whatever is cut off an object that reads, at its end, what is left does not read.
pub print-cut :
    (ms : Members) (p q : Text) (w : Json)
    → read_json (print (object ms)) ≡ ok w
    → print (object ms) ≡ p ++ q
    → q ≢ []
    → (e : Text) × (read_json p ≡ err e)
print-cut ms p [] w h e n = absurd (n refl)
print-cut ms [] (c ∷ q) w h e n = (text "unexpected end of JSON input", nothing_read)
print-cut ms (b ∷ p) (c ∷ q) w h e n = elim (Result-cases (read_json (b ∷ p))) [
  | inr (m, r) ↦ (m, r)
  | inl (v, r) ↦
      let (t, f) = object-first ms in
      let (d, l) = last_exists c q in
      let same : b ≡ b'{' = ground arith in
      let spaces =
        braced p (c ∷ q) v w (ap (λ x. read_json (x ∷ p)) (sym same) ∙ r)
          (ap (λ x. read_json (x ∷ (p ++ c ∷ q))) (sym same) ∙ ap read_json (sym e) ∙ h) in
      let space : is_space d ≡ true = last-All (λ x. is_space x ≡ true) (c ∷ q) spaces l in
      let brace : some d ≡ some b'}' =
        sym (last-append (b ∷ p) (c ∷ q) l) ∙ ap last (sym e) ∙ object-last ms in
      absurd (ground arith)
]
