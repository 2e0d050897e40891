-- ===== src/Abi/Signatures/Declared.antt =====
-- A call of a function whose signature is among those that an ABI declares.
use pay_gas_x.Base.{◌≡◌, refl, ◌∙◌, ap, List, [], ◌∷◌, some, Text, Outcome}
use pay_gas_x.Geth.{Geth, TransactOpts}
use pay_gas_x.Abi.Types.{Value}
use pay_gas_x.Abi.Calls.{Calls, read}
use pay_gas_x.Abi.Signatures.{
  functions, outputs_among, outputs_of, signature, parens, Sends, Converts, Reads,
}

module _ (abi : Text) {fs : List (Text × Text)} (declared : functions abi ≡ fs) where
  pub outputs_declared : (called : Text) → outputs_of abi called ≡ outputs_among fs called
  unfolding outputs_of
  outputs_declared called = ap (λ gs. outputs_among gs called) declared

  module _ (g : Geth) where
    pub sends :
        (contract : g.BoundContract) (opts : TransactOpts g.Address g.Transaction) (method : Text)
        (arguments : List (Value g.Address)) {results : Text}
        → outputs_among fs (signature method arguments) ≡ some results
        → Sends g abi contract opts (g.transact contract opts method arguments)
    sends contract opts method arguments {results} e = record {
      method = method;
      arguments = arguments;
      calls = refl;
      results = results;
      is_declared = outputs_declared (signature method arguments) ∙ e;
    }

    pub reads_as :
        (b : Calls g) (contract : g.BoundContract) {A : Type 0} (zero_value : A) (opts : b.CallOpts)
        (method : Text) (arguments : List (Value g.Address)) {result : Text}
        {convert : b.Any → Outcome A}
        → Converts g abi b A result convert
        → outputs_among fs (signature method arguments) ≡ some (parens (result ∷ []))
        → Reads g abi b zero_value contract opts
            (read g b zero_value convert contract opts method arguments)
    reads_as b contract zero_value opts method arguments {result} {convert} c e = record {
      method = method;
      arguments = arguments;
      convert = convert;
      calls = refl;
      result = result;
      is_declared = outputs_declared (signature method arguments) ∙ e;
      converts = c;
    }
