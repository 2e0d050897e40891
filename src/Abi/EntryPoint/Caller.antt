-- ===== src/Abi/EntryPoint/Caller.antt =====
-- The methods of `EntryPointCaller` in bundler/src/abi/entrypoint.go, which read the contract.
pub mod Outputs
use pay_gas_x.Base.{
  ℕ, false, List, [], ◌∷◌, Option, none, some, text, Result, ok, err, Outcome, done, and_then, M,
  reads, ◌>>=◌,
}
use pay_gas_x.Base.Int.{ℤ}
use pay_gas_x.Geth.{Geth}
use pay_gas_x.Abi.Types.{
  UserOperation, StakeManagerDepositInfo, address, big_int, byte_slice, user_op, zero_bytes_32,
}
use pay_gas_x.Abi.Calls.{Calls, Returned, output, read}
use pay_gas_x.Abi.EntryPoint.{EntryPointCaller}

abbrev pub zero_deposit_info : StakeManagerDepositInfo
zero_deposit_info = record {
  deposit = none;
  staked = false;
  stake = none;
  unstake_delay_sec = 0;
  withdraw_time = 0;
}

module _ (g : Geth) (b : Calls g) (c : EntryPointCaller g.BoundContract) where
  unfoldable pub balance_of : b.CallOpts → g.Address → M g.Node (Returned (Option ℤ))
  balance_of opts account =
      read g b none b.to_big_int c.contract opts (text "balanceOf") (address account ∷ [])

  unfoldable pub create2factory : b.CallOpts → M g.Node (Returned g.Address)
  create2factory opts =
      read g b g.zero_address b.to_address c.contract opts (text "create2factory") []

  -- The five outputs of `deposits`.
  unfoldable pub deposits_returned :
      Result (List b.Any) → Outcome (Returned StakeManagerDepositInfo)
  deposits_returned (err e) = done (zero_deposit_info, some e)
  deposits_returned (ok out) = and_then (output 0 b.to_big_int out) λ deposit.
      and_then (output 1 b.to_bool out) λ staked. and_then (output 2 b.to_big_int out) λ stake.
        and_then (output 3 b.to_uint_32 out) λ unstake_delay_sec.
          and_then (output 4 b.to_uint_64 out) λ withdraw_time. done (
            record {
              deposit = deposit;
              staked = staked;
              stake = stake;
              unstake_delay_sec = unstake_delay_sec;
              withdraw_time = withdraw_time;
            },
            none,
          )

  unfoldable pub deposits : b.CallOpts → g.Address → M g.Node (Returned StakeManagerDepositInfo)
  deposits opts account = b.call c.contract opts (text "deposits") (address account ∷ []) >>= λ r.
      reads (λ _. deposits_returned r)

  unfoldable pub get_deposit_info :
      b.CallOpts → g.Address → M g.Node (Returned StakeManagerDepositInfo)
  get_deposit_info opts account =
      read g b zero_deposit_info b.to_deposit_info c.contract opts (text "getDepositInfo")
        (address account ∷ [])

  unfoldable pub get_request_id :
      b.CallOpts → UserOperation g.Address → M g.Node (Returned (List ℕ))
  get_request_id opts op =
      read g b zero_bytes_32 b.to_bytes_32 c.contract opts (text "getRequestId") (user_op op ∷ [])

  unfoldable pub get_sender_address : b.CallOpts → List ℕ → Option ℤ → M g.Node (Returned g.Address)
  get_sender_address opts init_code salt =
      read g b g.zero_address b.to_address c.contract opts (text "getSenderAddress")
        (byte_slice init_code ∷ big_int salt ∷ [])

  unfoldable pub get_sender_storage : b.CallOpts → g.Address → M g.Node (Returned (List (Option ℤ)))
  get_sender_storage opts sender =
      read g b [] b.to_big_ints c.contract opts (text "getSenderStorage") (address sender ∷ [])

  unfoldable pub paymaster_stake : b.CallOpts → M g.Node (Returned (Option ℤ))
  paymaster_stake opts = read g b none b.to_big_int c.contract opts (text "paymasterStake") []

  unfoldable pub unstake_delay_sec : b.CallOpts → M g.Node (Returned (ℕ))
  unstake_delay_sec opts = read g b 0 b.to_uint_32 c.contract opts (text "unstakeDelaySec") []
