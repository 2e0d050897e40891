-- ===== src/Controller/Request.antt =====
-- `json.Unmarshal` of a body into a `HandleOpsRequest`: bundler/src/controller/main.go.
pub mod RoundTrip
pub mod Operation
pub mod Meaning
use pay_gas_x.Base.{List, [], ◌∷◌, Option, none, some, Text, text, Result, ok, err}
use pay_gas_x.GoLib.JsonValue.{Json}
use pay_gas_x.GoLib.Scanner.{read_json}
use pay_gas_x.GoLib.Decode.{
  Decoded, Decoder, Field, Slice, decode_string, decode_pointer, decode_slice, decode_struct,
}
use pay_gas_x.Controller.Types.{UserOperation, HandleOpsRequest}

abbrev pub string_pointer : Decoder (Option Text)
string_pointer = decode_pointer [] decode_string

-- All fields nil.
abbrev pub zero_operation : UserOperation
zero_operation = record {
  sender = none;
  nonce = none;
  init_code = none;
  call_data = none;
  call_gas = none;
  verification_gas = none;
  pre_verification_gas = none;
  max_fee_per_gas = none;
  max_priority_fee_per_gas = none;
  paymaster = none;
  paymaster_data = none;
  signature = none;
}

-- A field of type `*string`, by how it is read and set.
abbrev pub string_field :
    Text
    → (UserOperation → Option Text)
    → (Option Text → UserOperation → UserOperation)
    → Field UserOperation
string_field name get set = record {
  name = name;
  store = λ c v uo. let (s, e) = string_pointer c v (get uo) in (set s uo, e);
}

-- The fields of `UserOperation` by their `json` tags.
abbrev pub operation_fields : List (Field UserOperation)
operation_fields =
    string_field (text "sender") (λ u. u.sender) (λ s u. record u { sender = s })
    ∷ string_field (text "nonce") (λ u. u.nonce) (λ s u. record u { nonce = s })
    ∷ string_field (text "init_code") (λ u. u.init_code) (λ s u. record u { init_code = s })
    ∷ string_field (text "call_data") (λ u. u.call_data) (λ s u. record u { call_data = s })
    ∷ string_field (text "call_gas") (λ u. u.call_gas) (λ s u. record u { call_gas = s })
    ∷ string_field (text "verification_gas") (λ u. u.verification_gas)
        (λ s u. record u { verification_gas = s })
    ∷ string_field (text "pre_verification_gas") (λ u. u.pre_verification_gas)
        (λ s u. record u { pre_verification_gas = s })
    ∷ string_field (text "max_fee_per_gas") (λ u. u.max_fee_per_gas)
        (λ s u. record u { max_fee_per_gas = s })
    ∷ string_field (text "max_priority_fee_per_gas") (λ u. u.max_priority_fee_per_gas)
        (λ s u. record u { max_priority_fee_per_gas = s })
    ∷ string_field (text "paymaster") (λ u. u.paymaster) (λ s u. record u { paymaster = s })
    ∷ string_field (text "paymaster_data") (λ u. u.paymaster_data)
        (λ s u. record u { paymaster_data = s })
    ∷ string_field (text "signature") (λ u. u.signature) (λ s u. record u { signature = s })
    ∷ []

abbrev pub decode_operation : Decoder UserOperation
decode_operation =
    decode_struct (text "UserOperation") operation_fields (text "controller.UserOperation")

abbrev pub request_fields : List (Field (Slice UserOperation))
request_fields =
    record {
      name = text "user_operations";
      store = decode_slice zero_operation decode_operation (text "[]controller.UserOperation");
    }
    ∷ []

-- Into the struct, which is its only field.
unfoldable pub decode_request : Decoder (Slice UserOperation)
decode_request =
    decode_struct (text "HandleOpsRequest") request_fields (text "controller.HandleOpsRequest")

abbrev pub stored : Decoded (Slice UserOperation) → Result HandleOpsRequest
stored (s, none) = ok (record { user_operations = s.elements })
stored (s, some e) = err e

unfoldable pub decode_read : Result Json → Result HandleOpsRequest
unfolding decode_request
decode_read (err e) = err e
decode_read (ok v) = stored (decode_request none v (record { elements = []; stale = [] }))

-- `json.Unmarshal([]byte(request.Body), &req)`: the request, or the error.
unfoldable pub unmarshal_request : Text → Result HandleOpsRequest
unfolding decode_read
unmarshal_request body = decode_read (read_json body)
