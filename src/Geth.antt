-- ===== src/Geth.antt =====
-- What the bundler uses of go-ethereum. Its types and functions are parameters of the model.
use pay_gas_x.Base.{ℕ, Bool, List, Option, Text, Result, Outcome}
use pay_gas_x.Base.Int.{ℤ}
use pay_gas_x.Abi.Types.{Value}

-- The only `context.Context` that the bundler makes.
pub data Context : Type 0 where
  background : Context

-- `bind.TransactOpts`. A nil pointer is `none`; `gas_limit` is a uint64 and 0 asks for an estimate.
pub record TransactOpts (Address Transaction : Type 0) : Type 0 where
  pub from : Address
  pub nonce : Option ℤ
  pub signer : Address → Transaction → Outcome (Result Transaction)
  pub value : Option ℤ
  pub gas_price : Option ℤ
  pub gas_fee_cap : Option ℤ
  pub gas_tip_cap : Option ℤ
  pub gas_limit : ℕ
  pub context : Option Context
  pub no_send : Bool

-- An interface value that holds a `*ethclient.Client` (nil, or a client), or the nil interface.
abbrev pub Backend : Type 0 → Type 0
Backend Client = Option (Option Client)

pub record Geth : Type 1 where
  pub Address : Type 0
  pub PrivateKey : Type 0
  pub Client : Type 0
  pub ParsedAbi : Type 0
  pub BoundContract : Type 0
  pub Transaction : Type 0
  pub Signer : Type 0
  -- All that lies behind the RPC server.
  pub Node : Type 0
  -- `common`, `crypto`
  pub zero_address : Address
  pub hex_to_address : Text → Address
  pub address_hex : Address → Text
  pub hex_to_bytes : Text → List ℕ
  pub to_ecdsa : List ℕ → Result PrivateKey
  pub pubkey_to_address : PrivateKey → Address
  pub sign : List ℕ → PrivateKey → Result (List ℕ)
  -- `core/types`
  pub latest_signer_for_chain_id : ℤ → Signer
  pub signer_hash : Signer → Transaction → List ℕ
  pub with_signature : Transaction → Signer → List ℕ → Result Transaction
  pub tx_hash_hex : Transaction → Text
  -- `ethclient`
  pub dial : Text → Node → Result Client
  -- `accounts/abi`, `accounts/abi/bind`
  pub abi_json : Text → Result ParsedAbi
  pub new_bound_contract :
      Address → ParsedAbi → Backend Client → Backend Client → Backend Client → BoundContract
  pub new_keyed_transactor_with_chain_id :
      PrivateKey → ℤ → Result (TransactOpts Address Transaction)
  -- `(*BoundContract).Transact`, which may ask the node and send to it.
  pub transact :
      BoundContract
      → TransactOpts Address Transaction
      → Text
      → List (Value Address)
      → Node
      → Outcome (Result Transaction) × Node
