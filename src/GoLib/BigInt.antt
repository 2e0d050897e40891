-- ===== src/GoLib/BigInt.antt =====
-- `math/big`: `(*Int).SetString` and `(*Int).String` in base 10.
use mathlib.Core.Option
use pay_gas_x.Base.{ℕ, ◌≡◌, suc, List, [], ◌∷◌, Option, none, some, ◌==◌, arith}
use pay_gas_x.Base.{if◌then◌else◌}
use pay_gas_x.Base.Int.{ℤ, pos, negsuc, neg_ℕ}
use pay_gas_x.Base.Decimal.{decimal, decimal-cons, scan_onto, scan_onto-decimal}

-- The digits after the sign: one at least, and nothing after them.
unfoldable pub scan : List ℕ → Option ℕ
scan [] = none
scan (c ∷ cs) = scan_onto 0 (c ∷ cs)

-- `none` is the result `nil, false`.
unfoldable pub set_string : List ℕ → Option ℤ
set_string [] = none
set_string (c ∷ cs) =
    if c == b'-'
    then Option.map neg_ℕ (scan cs)
    else if c == b'+'
    then Option.map pos (scan cs)
    else Option.map pos (scan (c ∷ cs))

unfoldable pub int_string : ℤ → List ℕ
int_string (pos n) = decimal n
int_string (negsuc n) = b'-' ∷ decimal (suc n)

scan-decimal : (n : ℕ) → scan (decimal n) ≡ some n
unfolding scan
scan-decimal n = let (c, cs, e, d) = decimal-cons n in rw (e, scan) (rw e at (scan_onto-decimal n))

-- What `String` prints, `SetString` reads back.
pub set_string-int_string : (z : ℤ) → set_string (int_string z) ≡ some z
unfolding set_string int_string
set_string-int_string (pos n) =
    let (c, cs, e, d) = decimal-cons n in
    rw (e, set_string) (let f : scan (c ∷ cs) ≡ some n = rw e at (scan-decimal n) in ground arith)
set_string-int_string (negsuc n) = rw scan-decimal
