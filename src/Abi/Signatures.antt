-- ===== src/Abi/Signatures.antt =====
-- The functions that an ABI declares, read from its JSON text, and the signature of a call of
-- bundler/src/abi/entrypoint.go or erc20.go. In both a struct is written with the types and names of
-- its fields, since go-ethereum finds a field by its name.
pub mod Functions
pub mod Declared
pub mod EntryPoint
pub mod Events
pub mod Filters
pub mod Erc20
use pay_gas_x.Base.{
  ℕ, Bool, true, false, Option, none, some, Result, Outcome, M, ◌≡◌, List, [], ◌∷◌, ◌++◌, map, Text,
  text, text_eq, ok, err, if◌then◌else◌,
}
use pay_gas_x.Base.Int.{ℤ}
use pay_gas_x.GoLib.JsonValue.{
  Json, Items, Members, null, string, array, object, no_items, item, no_members, member,
}
use pay_gas_x.GoLib.Scanner.{read_json}
use pay_gas_x.Geth.{Geth, TransactOpts}
use pay_gas_x.Abi.Calls.{Calls, Returned, read}
use pay_gas_x.Abi.Types.{
  StakeManagerDepositInfo, Value, address, big_int, uint_32, byte_slice, user_op, user_ops, op_info,
  bytes_32,
}

abbrev join : List Text → Text
join [] = []
join (t ∷ []) = t
join (t ∷ (u ∷ us)) = t ++ b',' ∷ join (u ∷ us)

abbrev pub parens : List Text → Text
parens ts = b'(' ∷ join ts ++ b')' ∷ []

abbrev find : Text → Members → Json
find name no_members = null
find name (member k v members) = let rest = find name members in if text_eq name k then v else rest

abbrev pub get : Text → Json → Json
get name (object members) = find name members
get name _ = null

abbrev pub get_text : Text → Json → Text
get_text name v = elim (get name v) [ string s ↦ s | _ ↦ [] ]

abbrev pub items_of : Json → Items
items_of (array items) = items
items_of _ = no_items

-- A field of a struct, by its type and name.
abbrev field_types : Items → List Text
field_types no_items = []
field_types (item v items) =
    (get_text (text "type") v ++ b' ' ∷ get_text (text "name") v) ∷ field_types items

-- The type of a parameter; no struct of the two contracts holds another.
abbrev pub param_type : Json → Text
param_type v =
    let name = get_text (text "type") v in
    let fields = parens (field_types (items_of (get (text "components") v))) in
    if text_eq name (text "tuple")
    then fields
    else if text_eq name (text "tuple[]")
    then fields ++ text "[]"
    else name

abbrev param_types : Items → List Text
param_types no_items = []
param_types (item v items) = param_type v ∷ param_types items

abbrev params : Text → Json → Text
params side v = parens (param_types (items_of (get side v)))

-- The declared functions: the name and the types of what it takes, and the types of what it gives.
abbrev pub declared : Items → List (Text × Text)
declared no_items = []
declared (item v items) =
    let rest = declared items in
    if text_eq (get_text (text "type") v) (text "function")
    then (get_text (text "name") v ++ params (text "inputs") v, params (text "outputs") v) ∷ rest
    else rest

unfoldable pub functions : Text → List (Text × Text)
functions abi = elim (read_json abi) [ ok v ↦ declared (items_of v) | err e ↦ [] ]

abbrev pub outputs_among : List (Text × Text) → Text → Option Text
outputs_among [] signature = none
outputs_among ((inputs, outputs) ∷ fs) signature =
    let rest = outputs_among fs signature in if text_eq signature inputs then some outputs else rest

-- The types that a function of that signature gives, if the ABI declares one.
unfoldable pub outputs_of : Text → Text → Option Text
outputs_of abi signature = outputs_among (functions abi) signature

-- The fields of `UserOperation`, `EntryPointUserOpInfo` and `StakeManagerDepositInfo`.
abbrev pub user_operation_type : Text
user_operation_type = parens (
    text "address sender"
    ∷ text "uint256 nonce"
    ∷ text "bytes initCode"
    ∷ text "bytes callData"
    ∷ text "uint256 callGas"
    ∷ text "uint256 verificationGas"
    ∷ text "uint256 preVerificationGas"
    ∷ text "uint256 maxFeePerGas"
    ∷ text "uint256 maxPriorityFeePerGas"
    ∷ text "address paymaster"
    ∷ text "bytes paymasterData"
    ∷ text "bytes signature"
    ∷ [])

abbrev pub user_op_info_type : Text
user_op_info_type = parens (
    text "bytes32 requestId"
    ∷ text "uint256 prefund"
    ∷ text "uint8 paymentMode"
    ∷ text "uint256 contextOffset"
    ∷ text "uint256 preOpGas"
    ∷ [])

abbrev pub deposit_info_type : Text
deposit_info_type = parens (
    text "uint112 deposit"
    ∷ text "bool staked"
    ∷ text "uint112 stake"
    ∷ text "uint32 unstakeDelaySec"
    ∷ text "uint64 withdrawTime"
    ∷ [])

-- The type of the contract's that a value of Go is packed as.
abbrev pub value_type : {A : Type 0} → Value A → Text
value_type (address _) = text "address"
value_type (big_int _) = text "uint256"
value_type (uint_32 _) = text "uint32"
value_type (byte_slice _) = text "bytes"
value_type (user_op _) = user_operation_type
value_type (user_ops _) = user_operation_type ++ text "[]"
value_type (op_info _) = user_op_info_type
value_type (bytes_32 _) = text "bytes32"

-- A method's name and the types of what it is called with.
abbrev pub signature : {A : Type 0} → Text → List (Value A) → Text
signature method values = method ++ parens (map value_type values)

module _ (g : Geth) (abi : Text) where
  -- A transaction that calls a function which the ABI declares, with arguments of its types.
  pub record Sends (contract : g.BoundContract) (opts : TransactOpts g.Address g.Transaction)
      (sent : M g.Node (Result g.Transaction)) : Type 0 where
    pub method : Text
    pub arguments : List (Value g.Address)
    pub calls : sent ≡ g.transact contract opts method arguments
    pub results : Text
    pub is_declared : outputs_of abi (signature method arguments) ≡ some results

  module _ (b : Calls g) where
    -- The conversions by the type of the contract's that they are for: go-ethereum unpacks an
    -- integer as a `*big.Int` unless it has 8, 16, 32 or 64 bits.
    pub data Converts : (A : Type 0) → Text → (b.Any → Outcome A) → Type 1 where
      uint256 : Converts (Option ℤ) (text "uint256") b.to_big_int
      uint112 : Converts (Option ℤ) (text "uint112") b.to_big_int
      uint256_list : Converts (List (Option ℤ)) (text "uint256[]") b.to_big_ints
      uint8 : Converts ℕ (text "uint8") b.to_uint_8
      uint32 : Converts ℕ (text "uint32") b.to_uint_32
      uint64 : Converts ℕ (text "uint64") b.to_uint_64
      an_address : Converts g.Address (text "address") b.to_address
      bytes32 : Converts (List ℕ) (text "bytes32") b.to_bytes_32
      a_bool : Converts Bool (text "bool") b.to_bool
      a_string : Converts Text (text "string") b.to_string
      deposit_info : Converts StakeManagerDepositInfo deposit_info_type b.to_deposit_info

    -- A call of a function which the ABI declares, with arguments of its types, whose one result is
    -- converted as its type asks.
    pub record Reads {A : Type 0} (zero_value : A) (contract : g.BoundContract) (opts : b.CallOpts)
        (got : M g.Node (Returned A)) : Type 1 where
      pub method : Text
      pub arguments : List (Value g.Address)
      pub convert : b.Any → Outcome A
      pub calls : got ≡ read g b zero_value convert contract opts method arguments
      pub result : Text
      pub is_declared : outputs_of abi (signature method arguments) ≡ some (parens (result ∷ []))
      pub converts : Converts A result convert
