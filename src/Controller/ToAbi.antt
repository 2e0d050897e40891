-- ===== src/Controller/ToAbi.antt =====
-- `(*UserOperation).ToABIStruct` of bundler/src/controller/main.go.
pub mod Fields
pub mod Presence
pub mod RoundTrip
pub mod Numbers
use pay_gas_x.Base.{◌++◌, Option, none, some, Text, text, Result, ok, err, Outcome, done, panicked}
use pay_gas_x.Base.Call.{◌>>=◌}
use pay_gas_x.Geth.{Geth}
use pay_gas_x.Util.{parse_address_string, parse_big_int_string, parse_base64_string}
use pay_gas_x.Config.Getters.{nil_dereference}
use pay_gas_x.Abi.Types as Abi
use pay_gas_x.Controller.Types.{UserOperation}

-- `*p` for a pointer to a string.
abbrev pub deref : Option Text → Outcome Text
deref none = panicked nil_dereference
deref (some s) = done s

-- `if err != nil { return abi.UserOperation{}, xerrors.Errorf(message + "%w", err) }`
abbrev pub attempt :
    {A B : Type 0} → Text → Result A → (A → Outcome (Result B)) → Outcome (Result B)
attempt message (ok a) f = f a
attempt message (err e) f = done (err (message ++ e))

module _ (g : Geth) where
  unfoldable pub to_abi_struct : UserOperation → Outcome (Result (Abi.UserOperation g.Address))
  to_abi_struct uo = do
    sender ← deref uo.sender
    nonce ← deref uo.nonce
    call_data_64 ← deref uo.call_data
    call_gas ← deref uo.call_gas
    attempt (text "failed to parse call data: ") (parse_base64_string call_data_64) λ call_data. do
      init_code_64 ← deref uo.init_code
      attempt (text "failed to parse init code: ") (parse_base64_string init_code_64) λ init_code.
          do
            verification_gas ← deref uo.verification_gas
            pre_verification_gas ← deref uo.pre_verification_gas
            max_fee_per_gas ← deref uo.max_fee_per_gas
            max_priority_fee_per_gas ← deref uo.max_priority_fee_per_gas
            signature_64 ← deref uo.signature
            attempt (text "failed to parse signature: ") (parse_base64_string signature_64)
                λ signature. do
                  paymaster ← deref uo.paymaster
                  paymaster_data_64 ← deref uo.paymaster_data
                  attempt (text "failed to parse paymaster data: ")
                      (parse_base64_string paymaster_data_64)
                      λ paymaster_data. done (
                        ok (record {
                          sender = parse_address_string g sender;
                          nonce = parse_big_int_string nonce;
                          init_code = init_code;
                          call_data = call_data;
                          call_gas = parse_big_int_string call_gas;
                          verification_gas = parse_big_int_string verification_gas;
                          pre_verification_gas = parse_big_int_string pre_verification_gas;
                          max_fee_per_gas = parse_big_int_string max_fee_per_gas;
                          max_priority_fee_per_gas = parse_big_int_string max_priority_fee_per_gas;
                          paymaster = g.hex_to_address paymaster;
                          paymaster_data = paymaster_data;
                          signature = signature;
                        }))
