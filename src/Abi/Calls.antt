-- ===== src/Abi/Calls.antt =====
-- The read-only calls of the bindings, over the method: bundler/src/abi/entrypoint.go and
-- bundler/src/abi/erc20.go write this code once for each method.
use pay_gas_x.Base.{
  ℕ, zero, suc, Bool, List, [], ◌∷◌, ◌++◌, Option, none, some, Text, text, Result, ok, err, Outcome,
  done, panicked, and_then, M, reads, ◌>>=◌,
}
use pay_gas_x.Base.Int.{ℤ}
use pay_gas_x.Base.Decimal.{decimal}
use pay_gas_x.Geth.{Geth, TransactOpts}
use pay_gas_x.Abi.Types.{Value, StakeManagerDepositInfo}

-- What the generated code uses of go-ethereum for calls, as parameters. `Any` is `interface{}`; the
-- conversions are `abi.ConvertType` with the type assertion after it, which may panic.
pub record Calls (g : Geth) : Type 1 where
  pub CallOpts : Type 0
  pub Any : Type 0
  pub call :
      g.BoundContract → CallOpts → Text → List (Value g.Address) → M g.Node (Result (List Any))
  pub raw_transact :
      g.BoundContract
      → TransactOpts g.Address g.Transaction
      → List ℕ
      → M g.Node (Result g.Transaction)
  pub transfer :
      g.BoundContract → TransactOpts g.Address g.Transaction → M g.Node (Result g.Transaction)
  pub to_big_int : Any → Outcome (Option ℤ)
  pub to_address : Any → Outcome g.Address
  pub to_bytes_32 : Any → Outcome (List ℕ)
  pub to_big_ints : Any → Outcome (List (Option ℤ))
  pub to_uint_8 : Any → Outcome ℕ
  pub to_uint_32 : Any → Outcome ℕ
  pub to_uint_64 : Any → Outcome ℕ
  pub to_bool : Any → Outcome Bool
  pub to_string : Any → Outcome Text
  pub to_deposit_info : Any → Outcome StakeManagerDepositInfo

-- The two results of a method, a value and an `error`.
abbrev pub Returned : Type 0 → Type 0
Returned A = A × Option Text

module _ {Any : Type 0} where
  abbrev pub get : List Any → ℕ → Option Any
  get [] i = none
  get (v ∷ out) zero = some v
  get (v ∷ out) (suc i) = get out i

  abbrev pub length : List Any → ℕ
  length [] = 0
  length (v ∷ out) = suc (length out)

  -- `out[i]`
  unfoldable pub index : ℕ → List Any → Outcome Any
  index i out = elim (get out i) [
    | some v ↦ done v
    | none ↦ panicked (
        text "runtime error: index out of range ["
        ++ decimal i
        ++ text "] with length "
        ++ decimal (length out))
  ]

  -- `out[i]`, converted
  unfoldable pub output : {A : Type 0} → ℕ → (Any → Outcome A) → List Any → Outcome A
  output i convert out = and_then (index i out) convert

  -- A method with one result, whose zero value it returns beside an error.
  unfoldable pub returned :
      {A : Type 0} → A → (Any → Outcome A) → Result (List Any) → Outcome (Returned A)
  returned zero_value convert (err e) = done (zero_value, some e)
  returned zero_value convert (ok out) = and_then (output 0 convert out) λ a. done (a, none)

module _ (g : Geth) (b : Calls g) where
  unfoldable pub read :
      {A : Type 0}
      → A
      → (b.Any → Outcome A)
      → g.BoundContract
      → b.CallOpts
      → Text
      → List (Value g.Address)
      → M g.Node (Returned A)
  read zero_value convert contract opts method params =
      b.call contract opts method params >>= λ r. reads (λ _. returned zero_value convert r)
