-- ===== src/GoLib/Scanner/Cut.antt =====
-- The scanner of `encoding/json` refuses an object that is cut short.
use mathlib.Core.Path.{subst}
use pay_gas_x.Base.{
  ◌≡◌, ◌∙◌, ap, sym, inl, inr, Bool, true, false, Bool-cases, text, if◌then◌else◌, List, [], ◌∷◌,
  ◌++◌, All, Text, Result, Result-cases, ok, err, arith,
}
use pay_gas_x.GoLib.Json.{plain, escaped, digits, is_space}
use pay_gas_x.GoLib.JsonValue.{Json, number}
use pay_gas_x.GoLib.Scanner.{scan, at_eof, run}
use pay_gas_x.GoLib.Scanner.States.{
  syntax_error, Frame, object_key, object_value, array_value, NumberPlace, neg, zero_digit, digit,
  dot, fraction, exp, exp_sign, exponent, Step, begin_value, begin_value_or_empty, begin_string,
  begin_string_or_empty, in_string, in_number, in_literal, end_value, State, to,
}
use pay_gas_x.GoLib.Scanner.Tokens.{
  on_end_value, on_begin_value, on_begin_string, on_string, on_number,
}
use pay_gas_x.GoLib.Scanner.Strings.{then_run}
use pay_gas_x.GoLib.Scanner.Stays.{Stays, opened, ended, scan-Stays}

-- An error, or a state in which an object or array is open.
data IsOpen : Result State → Type 0 where
  failed : {e : Text} → IsOpen (err e)
  open_still : {step : Step} {f : Frame} {fs : List Frame} → IsOpen (to step (f ∷ fs))

if_IsOpen : (b : Bool) {x y : Result State} → IsOpen x → IsOpen y → IsOpen (if b then x else y)
if_IsOpen true h k = h
if_IsOpen false h k = k

end_value-IsOpen : (v : Json) (f : Frame) (fs : List Frame) → IsOpen (on_end_value v (f ∷ fs) b' ')
unfolding on_end_value
end_value-IsOpen v (object_key ms) fs = open_still
end_value-IsOpen v (object_value ms k) fs = open_still
end_value-IsOpen v (array_value items) fs = open_still

number-IsOpen :
    (place : NumberPlace) (read : Text) (f : Frame) (fs : List Frame)
    → IsOpen (on_number place read (f ∷ fs) b' ')
unfolding on_number syntax_error
number-IsOpen neg read f fs = failed
number-IsOpen zero_digit read f fs = end_value-IsOpen (number read) f fs
number-IsOpen digit read f fs = end_value-IsOpen (number read) f fs
number-IsOpen dot read f fs = failed
number-IsOpen fraction read f fs = end_value-IsOpen (number read) f fs
number-IsOpen exp read f fs = failed
number-IsOpen exp_sign read f fs = failed
number-IsOpen exponent read f fs = end_value-IsOpen (number read) f fs

-- A space closes nothing.
space-IsOpen :
    (step : Step) (f : Frame) (fs : List Frame)
    → IsOpen (scan (record { step = step; stack = f ∷ fs }) b' ')
unfolding scan on_begin_value on_begin_string on_string syntax_error
space-IsOpen begin_value f fs = open_still
space-IsOpen begin_value_or_empty (array_value items) fs = open_still
space-IsOpen begin_value_or_empty f fs = open_still
space-IsOpen begin_string f fs = open_still
space-IsOpen begin_string_or_empty (object_key ms) fs = open_still
space-IsOpen begin_string_or_empty f fs = open_still
space-IsOpen (in_string plain ps) f fs = open_still
space-IsOpen (in_string escaped ps) f fs = failed
space-IsOpen (in_string (digits k n) ps) f fs = failed
space-IsOpen (in_number place read) f fs = number-IsOpen place read f fs
space-IsOpen (in_literal name [] v) f fs = end_value-IsOpen v f fs
space-IsOpen (in_literal name (d ∷ ds) v) f fs = search (failed, open_still, if_IsOpen)
space-IsOpen (end_value v) f fs = end_value-IsOpen v f fs

abbrev at_end : Result State → Result Json
at_end (err e) = err e
at_end (ok t) = elim t.stack [
  | [] ↦ elim t.step [ end_value v ↦ ok v | _ ↦ err (text "unexpected end of JSON input") ]
  | _ ∷ _ ↦ err (text "unexpected end of JSON input")
]

IsOpen-refused : {r : Result State} {v : Json} → IsOpen r → at_end r ≡ ok v → ⊥
IsOpen-refused failed e = cc
IsOpen-refused open_still e = cc

-- After a value, nothing but spaces is read.
trailing :
    (q : Text) (u w : Json)
    → run (record { step = end_value u; stack = [] }) q ≡ ok w
    → All (λ c. is_space c ≡ true) q
unfolding run scan on_end_value syntax_error
trailing [] u w e = tt
trailing (c ∷ q) u w e = elim (Bool-cases (is_space c)) [
  | inl s ↦ (s, trailing q u w (ground arith))
  | inr s ↦ absurd (ground arith)
]

-- Where what follows the text is read as well, it is spaces.
pub rest_spaces :
    (p q : Text) (s : State) (v w : Json)
    → Stays (ok s)
    → run s p ≡ ok v
    → run s (p ++ q) ≡ ok w
    → All (λ c. is_space c ≡ true) q
unfolding run at_eof
rest_spaces [] q _ v w (opened {step = step} {f = f} {fs = fs}) h k =
    absurd (IsOpen-refused (space-IsOpen step f fs) h)
rest_spaces [] q _ v w (ended {v = u} {fs = []}) h k = trailing q u w k
rest_spaces [] q _ v w (ended {v = u} {fs = f ∷ fs}) h k =
    absurd (IsOpen-refused (space-IsOpen (end_value u) f fs) h)
rest_spaces (c ∷ p) q s v w i h k = elim (Result-cases (scan s c)) [
  | inl (t, e) ↦
      rest_spaces p q t v w (subst Stays e (scan-Stays s c i)) (sym (ap (then_run p) e) ∙ h)
        (sym (ap (then_run (p ++ q)) e) ∙ k)
  | inr (m, e) ↦ absurd (ground arith)
]
