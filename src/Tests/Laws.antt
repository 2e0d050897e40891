-- ===== src/Tests/Laws.antt =====
-- The small chain meets what is assumed of go-ethereum.
use pay_gas_x.Base.{
  ℕ, ◌≡◌, refl, true, sym, ap, List, ◌++◌, Option-cases, inl, inr, Text, Result, ok, err, Outcome,
  done, arith,
}
use pay_gas_x.Base.Int.{ℤ}
use pay_gas_x.Abi.Types.{Value}
use pay_gas_x.Eth.Frame.{NoSend}
use pay_gas_x.Eth.Gas.{EstimatesGas}
use pay_gas_x.Eth.Returns.{SignerReturns, TransactReturns}
use pay_gas_x.Controller.ToAbi.RoundTrip.{HexRoundTrip}
use pay_gas_x.Tests.Instances.{toy, Opts, keyed, refusal, transact}

transact_keeps :
    (c : Text) (opts : Opts) (method : Text) (params : List (Value Text)) (n : ℕ)
    → opts.no_send ≡ true
    → (transact c opts method params n).1 ≡ n
transact_keeps c opts method params n e = ground arith

pub toy-NoSend : NoSend toy
toy-NoSend = record { keeps_node = transact_keeps }

keyed_limit :
    (key : List ℕ) (id : ℤ) (opts : Opts) → ok (keyed key id) ≡ ok opts → opts.gas_limit ≡ 0
keyed_limit key id opts e = ground arith

pub toy-EstimatesGas : EstimatesGas toy
toy-EstimatesGas = record { no_limit = keyed_limit }

transact_returns :
    (c : Text) (opts : Opts) (method : Text) (params : List (Value Text)) (n : ℕ)
    → SignerReturns toy opts
    → (r : Result Text) × ((transact c opts method params n).0 ≡ done r)
transact_returns c opts method params n h = elim (Option-cases (refusal params)) [
  | inl e ↦ let (r, f) = h opts.from method in (r, ground arith)
  | inr (m, e) ↦ (err m, ground arith)
]

-- The signer of options that may be missing.
abbrev signed : Text → Text → Result Opts → Outcome (Result Text)
signed a tx (ok opts) = opts.signer a tx
signed a tx (err e) = done (err e)

keyed_returns :
    (key : List ℕ) (id : ℤ) (opts : Opts) → ok (keyed key id) ≡ ok opts → SignerReturns toy opts
keyed_returns key id opts e a tx = (ok (tx ++ key), ap (signed a tx) (sym e))

pub toy-TransactReturns : TransactReturns toy
toy-TransactReturns = record { returns = transact_returns; keyed_signer_returns = keyed_returns }

pub toy-HexRoundTrip : HexRoundTrip toy
toy-HexRoundTrip = record { hex_to_address-address_hex = λ a. refl }
