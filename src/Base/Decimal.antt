-- ===== src/Base/Decimal.antt =====
-- The decimal digits of a natural number, most significant first, as ASCII codes.
use Prim.Native.Nat.{zero, suc, ◌+◌, ◌-◌, ◌*◌, ◌/◌, ◌%◌, ◌≤◌, ◌<◌}
use mathlib.Core.Logic.{dite, dif_pos, dif_neg}
use mathlib.Core.WellFounded.{Acc, WellFounded}
use native.Mathlib.Decide.{dec_lt}
use native.Mathlib.Bridge.{le_prop}
use mathlib.Core.Path.{◌≡◌, refl, ap, ◌∙◌}
use mathlib.Core.Bool.{◌&&◌}
use mathlib.Core.Option.{Option, none, some}
use mathlib.Core.List.{List, [], ◌∷◌}
use Prim.Native.Nat.{ℕ}
use native.Mathlib.Omega.{arith}
use pay_gas_x.Base.Tests.{leb, if◌then◌else◌}

Acc-below : (k n : ℕ) → n < k → Acc ◌<◌ n
Acc-below zero n h = elim h [ ]
Acc-below (suc k) n h = Acc.intro n (λ m hm. Acc-below k m (omega arith))

lt_wf : WellFounded ◌<◌
unfolding Acc-below
lt_wf = record { apply = λ n. Acc-below (suc n) n (omega arith) }

tenth_lt : (n : ℕ) → 9 < n → n / 10 < n
tenth_lt n h = omega arith

digits_onto : (n : ℕ) → Acc ◌<◌ n → List ℕ → List ℕ
digits_onto n (Acc.intro _ smaller) out =
    dite (dec_lt 9 n)
      (λ h. digits_onto (n / 10) (smaller (n / 10) (tenth_lt n h)) ((b'0' + n % 10) ∷ out))
      (λ _. (b'0' + n) ∷ out)

-- `strconv` in base 10.
unfoldable pub decimal : ℕ → List ℕ
unfolding digits_onto lt_wf dec_lt tenth_lt
decimal n = digits_onto n (lt_wf.apply n) []

abbrev pub IsDigit : ℕ → Type 0
IsDigit c = (b'0' ≤ c) × (c ≤ b'9')

-- Reads decimal digits onto a number, and fails at anything else.
unfoldable pub scan_onto : ℕ → List ℕ → Option ℕ
scan_onto n [] = some n
scan_onto n (c ∷ cs) =
    let rest = scan_onto (n * 10 + (c - b'0')) cs in if leb b'0' c && leb c b'9' then rest else none

scan_onto-digits_onto :
    (n : ℕ) (w : Acc ◌<◌ n) (out : List ℕ) → scan_onto 0 (digits_onto n w out) ≡ scan_onto n out
unfolding digits_onto
scan_onto-digits_onto n (Acc.intro _ smaller) out = elim (dec_lt 9 n) [
  | yes h ↦ rw (dif_pos (dec_lt 9 n) le_prop h) (
      scan_onto-digits_onto (n / 10) (smaller (n / 10) (tenth_lt n h)) _
      ∙ unfold scan_onto in ground (arith, ap (λ (k : ℕ). scan_onto k out) (split n)))
  | no h ↦ rw (dif_neg (dec_lt 9 n) h) (unfold scan_onto in ground arith)
]
  where
    split : (n : ℕ) → n / 10 * 10 + (b'0' + n % 10 - b'0') ≡ n
    split n = omega arith

digits_onto-cons :
    (n : ℕ) (w : Acc ◌<◌ n) (out : List ℕ)
    → (c : ℕ) × (cs : List ℕ) × (digits_onto n w out ≡ c ∷ cs) × IsDigit c
unfolding digits_onto
digits_onto-cons n (Acc.intro _ smaller) out = elim (dec_lt 9 n) [
  | yes h ↦
      rw (dif_pos (dec_lt 9 n) le_prop h)
        (digits_onto-cons (n / 10) (smaller (n / 10) (tenth_lt n h)) _)
  | no h ↦ rw (dif_neg (dec_lt 9 n) h) (b'0' + n, out, refl, omega arith)
]

-- The digits of a number give the number back.
pub scan_onto-decimal : (n : ℕ) → scan_onto 0 (decimal n) ≡ some n
unfolding decimal
scan_onto-decimal n = scan_onto-digits_onto n (lt_wf.apply n) [] ∙ unfold scan_onto in refl

-- A number has a first digit.
pub decimal-cons : (n : ℕ) → (c : ℕ) × (cs : List ℕ) × (decimal n ≡ c ∷ cs) × IsDigit c
unfolding decimal
decimal-cons n = digits_onto-cons n (lt_wf.apply n) []
