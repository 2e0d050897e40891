-- ===== src/Tests/Calls.antt =====
-- A read of the contract over the small chain, which answers with five outputs.
use pay_gas_x.Base.{
  ℕ, zero, suc, ◌≡◌, refl, ◌↔◌, true, [], ◌∷◌, List, none, some, text, ok, Outcome, done, panicked,
  Bool,
}
use pay_gas_x.Base.Int.{pos}
use pay_gas_x.Abi.Types.{StakeManagerDepositInfo, address}
use pay_gas_x.Abi.Calls.{Calls, output, index}
use pay_gas_x.Abi.EntryPoint.{EntryPointCaller}
use pay_gas_x.Abi.EntryPoint.Caller.{deposits, deposits_returned, zero_deposit_info}
use pay_gas_x.Abi.EntryPoint.Caller.Outputs.{AreOutputs, deposits_iff}
use pay_gas_x.Tests.Instances.{toy}

-- An output is a number; 1 converts to true, and no other number to a Boolean.
abbrev truth : ℕ → Outcome Bool
truth (suc zero) = done true
truth n = panicked (text "interface conversion")

abbrev pub toy_calls : Calls toy
toy_calls = record {
  CallOpts = Unit;
  Any = ℕ;
  call = λ c o name params n. (done (ok (7 ∷ 1 ∷ 8 ∷ 86400 ∷ 5 ∷ [])), n);
  raw_transact = λ c o input n. (done (ok input), n);
  transfer = λ c o n. (done (ok c), n);
  to_big_int = λ v. done (some (pos v));
  to_address = λ v. done (v ∷ []);
  to_bytes_32 = λ v. done (v ∷ []);
  to_big_ints = λ v. done (some (pos v) ∷ []);
  to_uint_8 = λ v. done v;
  to_uint_32 = λ v. done v;
  to_uint_64 = λ v. done v;
  to_bool = truth;
  to_string = λ v. done (v ∷ []);
  to_deposit_info = λ v. done zero_deposit_info;
}

abbrev caller : EntryPointCaller (List ℕ)
caller = record { contract = text "0xe" }

abbrev info : StakeManagerDepositInfo
info = record {
  deposit = some (pos 7);
  staked = true;
  stake = some (pos 8);
  unstake_delay_sec = 86400;
  withdraw_time = 5;
}

reads_info : deposits toy toy_calls caller tt (text "0xa") 0 ≡ (done (info, none), 0)
unfolding deposits deposits_returned output index
reads_info = refl

deposits_iff_example :
    (deposits toy toy_calls caller tt (text "0xa") 0 ≡ (done (info, none), 0)) ↔ (
      (out : List ℕ) × (toy_calls.call
          (text "0xe")
          tt
          (text "deposits")
          (address (text "0xa") ∷ [])
          0
        ≡ (done (ok out), 0))
      × AreOutputs toy toy_calls out info)
deposits_iff_example = deposits_iff toy toy_calls caller tt (text "0xa") 0 0 info
