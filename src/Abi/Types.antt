-- ===== src/Abi/Types.antt =====
-- The structs of bundler/src/abi/entrypoint.go, and the values passed to a contract's method.
use pay_gas_x.Base.{ℕ, Bool, List, [], ◌∷◌, Option}
use pay_gas_x.Base.Int.{ℤ}

-- `UserOperation`. A `*big.Int` is `none` where it is nil; `[]byte` is a list of bytes.
pub record UserOperation (Address : Type 0) : Type 0 where
  pub sender : Address
  pub nonce : Option ℤ
  pub init_code : List ℕ
  pub call_data : List ℕ
  pub call_gas : Option ℤ
  pub verification_gas : Option ℤ
  pub pre_verification_gas : Option ℤ
  pub max_fee_per_gas : Option ℤ
  pub max_priority_fee_per_gas : Option ℤ
  pub paymaster : Address
  pub paymaster_data : List ℕ
  pub signature : List ℕ

-- `EntryPointUserOpInfo`
pub record EntryPointUserOpInfo : Type 0 where
  pub request_id : List ℕ
  pub prefund : Option ℤ
  pub payment_mode : ℕ
  pub context_offset : Option ℤ
  pub pre_op_gas : Option ℤ

-- `StakeManagerDepositInfo`, and the struct that `Deposits` returns
pub record StakeManagerDepositInfo : Type 0 where
  pub deposit : Option ℤ
  pub staked : Bool
  pub stake : Option ℤ
  pub unstake_delay_sec : ℕ
  pub withdraw_time : ℕ

-- What is passed as an `interface{}` to a method of a contract.
pub data Value (Address : Type 0) : Type 0 where
  address : Address → Value Address
  big_int : Option ℤ → Value Address
  uint_32 : ℕ → Value Address
  byte_slice : List ℕ → Value Address
  user_op : UserOperation Address → Value Address
  user_ops : List (UserOperation Address) → Value Address
  op_info : EntryPointUserOpInfo → Value Address
  bytes_32 : List ℕ → Value Address

-- The zero value of `[32]byte`
abbrev pub zero_bytes_32 : List ℕ
zero_bytes_32 =
    0 ∷ 0 ∷ 0 ∷ 0 ∷ 0 ∷ 0 ∷ 0 ∷ 0 ∷ 0 ∷ 0 ∷ 0 ∷ 0 ∷ 0 ∷ 0 ∷ 0 ∷ 0 ∷ 0 ∷ 0 ∷ 0 ∷ 0 ∷ 0 ∷ 0 ∷ 0 ∷ 0
    ∷ 0 ∷ 0 ∷ 0 ∷ 0 ∷ 0 ∷ 0 ∷ 0 ∷ 0 ∷ []
