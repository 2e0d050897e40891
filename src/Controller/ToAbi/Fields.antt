-- ===== src/Controller/ToAbi/Fields.antt =====
-- The fields of the struct that `ToABIStruct` makes, one by one.
use pay_gas_x.Base.{◌≡◌, ◌↔◌, Option, some, Text, ok, done, arith}
use pay_gas_x.Geth.{Geth}
use pay_gas_x.Util.{parse_address_string, parse_big_int_string, parse_base64_string}
use pay_gas_x.Abi.Types as Abi
use pay_gas_x.Controller.Types.{UserOperation}
use pay_gas_x.Controller.ToAbi.{to_abi_struct}

-- A field that is present, with a value that its text stands for.
abbrev Holds : Option Text → (Text → Type 0) → Type 0
Holds field P = (s : Text) × (field ≡ some s) × P s

-- Every field of the request is there, and each field of the ABI struct is the reading of its own.
pub record Translates (g : Geth) (uo : UserOperation) (op : Abi.UserOperation g.Address)
    : Type 0 where
  pub sender : Holds uo.sender (λ s. op.sender ≡ parse_address_string g s)
  pub nonce : Holds uo.nonce (λ s. op.nonce ≡ parse_big_int_string s)
  pub init_code : Holds uo.init_code (λ s. parse_base64_string s ≡ ok op.init_code)
  pub call_data : Holds uo.call_data (λ s. parse_base64_string s ≡ ok op.call_data)
  pub call_gas : Holds uo.call_gas (λ s. op.call_gas ≡ parse_big_int_string s)
  pub verification_gas :
      Holds uo.verification_gas (λ s. op.verification_gas ≡ parse_big_int_string s)
  pub pre_verification_gas :
      Holds uo.pre_verification_gas (λ s. op.pre_verification_gas ≡ parse_big_int_string s)
  pub max_fee_per_gas : Holds uo.max_fee_per_gas (λ s. op.max_fee_per_gas ≡ parse_big_int_string s)
  pub max_priority_fee_per_gas :
      Holds uo.max_priority_fee_per_gas (λ s. op.max_priority_fee_per_gas ≡ parse_big_int_string s)
  pub paymaster : Holds uo.paymaster (λ s. op.paymaster ≡ g.hex_to_address s)
  pub paymaster_data : Holds uo.paymaster_data (λ s. parse_base64_string s ≡ ok op.paymaster_data)
  pub signature : Holds uo.signature (λ s. parse_base64_string s ≡ ok op.signature)

module _ (g : Geth) (uo : UserOperation) (op : Abi.UserOperation g.Address) where
  Translates-of_ok : to_abi_struct g uo ≡ done (ok op) → Translates g uo op
  unfolding to_abi_struct
  Translates-of_ok h = ground arith

  ok_of_Translates : Translates g uo op → to_abi_struct g uo ≡ done (ok op)
  unfolding to_abi_struct
  ok_of_Translates t = ground arith

  -- `ToABIStruct` succeeds with a struct exactly when every field of the request is there, every
  -- field of bytes decodes, and each field of the struct is the reading of the field of its name.
  pub to_abi_struct_ok_iff : (to_abi_struct g uo ≡ done (ok op)) ↔ Translates g uo op
  to_abi_struct_ok_iff = (Translates-of_ok, ok_of_Translates)
