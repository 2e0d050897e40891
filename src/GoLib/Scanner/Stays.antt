-- ===== src/GoLib/Scanner/Stays.antt =====
-- The scanner of `encoding/json` leaves an object or array only with a value read.
use pay_gas_x.Base.{
  ℕ, inl, inr, Bool, true, false, List, [], ◌∷◌, Option-cases, zero, suc, Text, Result, ok, err,
  if◌then◌else◌,
}
use pay_gas_x.GoLib.Json.{Piece, Place, plain, escaped, digits, hex_value, escaped_char}
use pay_gas_x.GoLib.JsonValue.{Json, string}
use pay_gas_x.GoLib.Scanner.{scan}
use pay_gas_x.GoLib.Scanner.States.{
  syntax_error, Frame, object_key, object_value, array_value, NumberPlace, neg, zero_digit, digit,
  dot, fraction, exp, exp_sign, exponent, Step, begin_value, begin_value_or_empty, begin_string,
  begin_string_or_empty, in_string, in_number, in_literal, end_value, State, to, push,
}
use pay_gas_x.GoLib.Scanner.Tokens.{
  on_end_value, on_begin_value, on_begin_string, on_string, on_number, on_literal,
}

-- An error, or a state in which an object or array is open, or a value was read.
pub data Stays : Result State → Type 0 where
  errs : {e : Text} → Stays (err e)
  opened : {step : Step} {f : Frame} {fs : List Frame} → Stays (to step (f ∷ fs))
  ended : {v : Json} {fs : List Frame} → Stays (to (end_value v) fs)

if_Stays : (b : Bool) {x y : Result State} → Stays x → Stays y → Stays (if b then x else y)
if_Stays true h k = h
if_Stays false h k = k

ruleset stays = (errs, opened, ended, if_Stays)

on_end_value-Stays : (v : Json) (stack : List Frame) (c : ℕ) → Stays (on_end_value v stack c)
unfolding on_end_value syntax_error
on_end_value-Stays v [] c = search stays
on_end_value-Stays v (array_value items ∷ stack) c = search stays
on_end_value-Stays v (object_value ms k ∷ stack) c = search stays
on_end_value-Stays (string k) (object_key ms ∷ stack) c = search stays
on_end_value-Stays _ (object_key ms ∷ stack) c = search stays

push-Stays : (c : ℕ) (step : Step) (f : Frame) (stack : List Frame) → Stays (push c step f stack)
unfolding push syntax_error
push-Stays c step f stack = search stays

on_begin_value-Stays :
    (f : Frame) (stack : List Frame) (c : ℕ) → Stays (on_begin_value (f ∷ stack) c)
unfolding on_begin_value syntax_error
on_begin_value-Stays f stack c = search (stays, push-Stays) depth 14

on_begin_string-Stays :
    (f : Frame) (stack : List Frame) (c : ℕ) → Stays (on_begin_string (f ∷ stack) c)
unfolding on_begin_string syntax_error
on_begin_string-Stays f stack c = search stays

on_string-Stays :
    (place : Place) (ps : List Piece) (f : Frame) (stack : List Frame) (c : ℕ)
    → Stays (on_string place ps (f ∷ stack) c)
unfolding on_string syntax_error
on_string-Stays plain ps f stack c = search stays
on_string-Stays escaped ps f stack c = elim (Option-cases (escaped_char c)) [
  | inl e ↦ rw e (search stays)
  | inr (d, e) ↦ rw e (search stays)
]
on_string-Stays (digits zero n) ps f stack c = elim (Option-cases (hex_value c)) [
  | inl e ↦ rw (e, on_string) (search stays)
  | inr (d, e) ↦ rw (e, on_string) (search stays)
]
on_string-Stays (digits (suc k) n) ps f stack c = elim (Option-cases (hex_value c)) [
  | inl e ↦ rw (e, on_string) (search stays)
  | inr (d, e) ↦ rw (e, on_string) (search stays)
]

on_number-Stays :
    (place : NumberPlace) (read : Text) (f : Frame) (stack : List Frame) (c : ℕ)
    → Stays (on_number place read (f ∷ stack) c)
unfolding on_number syntax_error
on_number-Stays neg read f stack c = search stays
on_number-Stays zero_digit read f stack c = search (stays, on_end_value-Stays)
on_number-Stays digit read f stack c = search (stays, on_end_value-Stays) depth 8
on_number-Stays dot read f stack c = search stays
on_number-Stays fraction read f stack c = search (stays, on_end_value-Stays) depth 8
on_number-Stays exp read f stack c = search stays
on_number-Stays exp_sign read f stack c = search stays
on_number-Stays exponent read f stack c = search (stays, on_end_value-Stays)

on_literal-Stays :
    (name : Text) (d : ℕ) (rest : List ℕ) (v : Json) (f : Frame) (stack : List Frame) (c : ℕ)
    → Stays (on_literal name d rest v (f ∷ stack) c)
unfolding syntax_error
on_literal-Stays name d rest v f stack c = search stays

-- Where an object or array is open, or a value was read, a character leaves it so.
scan-Stays-open :
    (step : Step) (f : Frame) (stack : List Frame) (c : ℕ)
    → Stays (scan (record { step = step; stack = f ∷ stack }) c)
unfolding scan syntax_error
scan-Stays-open begin_value f stack c = on_begin_value-Stays f stack c
scan-Stays-open begin_value_or_empty (array_value items) stack c =
    search (stays, on_begin_value-Stays)
scan-Stays-open begin_value_or_empty f stack c = on_begin_value-Stays f stack c
scan-Stays-open begin_string f stack c = on_begin_string-Stays f stack c
scan-Stays-open begin_string_or_empty (object_key ms) stack c =
    search (stays, on_begin_string-Stays)
scan-Stays-open begin_string_or_empty f stack c = on_begin_string-Stays f stack c
scan-Stays-open (in_string place ps) f stack c = on_string-Stays place ps f stack c
scan-Stays-open (in_number place read) f stack c = on_number-Stays place read f stack c
scan-Stays-open (in_literal name [] v) f stack c = on_end_value-Stays v (f ∷ stack) c
scan-Stays-open (in_literal name (d ∷ ds) v) f stack c = on_literal-Stays name d ds v f stack c
scan-Stays-open (end_value v) f stack c = on_end_value-Stays v (f ∷ stack) c

pub scan-Stays : (s : State) (c : ℕ) → Stays (ok s) → Stays (scan s c)
unfolding scan
scan-Stays _ c (opened {step = step} {f = f} {fs = fs}) = scan-Stays-open step f fs c
scan-Stays _ c (ended {v = v} {fs = fs}) = on_end_value-Stays v fs c
