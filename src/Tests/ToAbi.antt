-- ===== src/Tests/ToAbi.antt =====
-- `ToABIStruct` at complete, incomplete and garbled operations.
use pay_gas_x.Base.{
  ◌≡◌, refl, ◌↔◌, [], ◌∷◌, none, Text, text, Result, ok, err, done, panicked, arith,
}
use pay_gas_x.Base.Int.{pos}
use pay_gas_x.Base.Decimal.{decimal}
use pay_gas_x.GoLib.Base64.{encode, decode_string}
use pay_gas_x.GoLib.BigInt.{int_string}
use pay_gas_x.Util.{parse_base64_string}
use pay_gas_x.Util.Laws.{IsNumeral}
use pay_gas_x.Abi.Types as Abi
use pay_gas_x.Config.Getters.{nil_dereference}
use pay_gas_x.Controller.ToAbi.{to_abi_struct}
use pay_gas_x.Controller.ToAbi.Fields.{Translates, to_abi_struct_ok_iff}
use pay_gas_x.Controller.ToAbi.Presence.{
  IsComplete, NamesFirst, to_abi_struct_of_IsComplete, to_abi_struct_panics, to_abi_struct_err,
}
use pay_gas_x.Controller.ToAbi.RoundTrip.{request_of, IsWellFormed, to_abi_struct-request_of}
use pay_gas_x.Controller.ToAbi.Numbers.{to_abi_struct_nil_nonce}
use pay_gas_x.Tests.Instances.{toy, operation, written, good, garbled, uncounted, senderless}
use pay_gas_x.Tests.Laws.{toy-HexRoundTrip}
use pay_gas_x.Tests.Runs.{parsed}

to_abi_struct_ok_iff_example :
    (to_abi_struct toy good ≡ done (ok (operation (2 ∷ []))))
    ↔ Translates toy good (operation (2 ∷ []))
to_abi_struct_ok_iff_example = to_abi_struct_ok_iff toy good (operation (2 ∷ []))

pub operation-IsWellFormed : IsWellFormed toy (operation (2 ∷ []))
operation-IsWellFormed = record {
  nonce = (pos 4, refl);
  init_code = omega arith;
  call_data = omega arith;
  call_gas = (pos 89128, refl);
  verification_gas = (pos 103600, refl);
  pre_verification_gas = (pos 21000, refl);
  max_fee_per_gas = (pos 180000000000, refl);
  max_priority_fee_per_gas = (pos 30000000000, refl);
  paymaster_data = omega arith;
  signature = omega arith;
}

to_abi_struct-request_of_example : to_abi_struct toy good ≡ done (ok (operation (2 ∷ [])))
unfolding request_of encode int_string decimal
to_abi_struct-request_of_example =
    to_abi_struct-request_of toy toy-HexRoundTrip (operation (2 ∷ [])) operation-IsWellFormed

panics : to_abi_struct toy senderless ≡ panicked nil_dereference
unfolding parsed
panics = refl

to_abi_struct_panics_example : (nil_dereference ≡ nil_dereference) × (IsComplete senderless → ⊥)
to_abi_struct_panics_example = to_abi_struct_panics toy senderless nil_dereference panics

fails :
    to_abi_struct toy garbled
    ≡ done (err (text "failed to parse call data: illegal base64 data at input byte 0"))
unfolding parsed
fails = refl

to_abi_struct_err_example :
    NamesFirst garbled (text "failed to parse call data: illegal base64 data at input byte 0")
to_abi_struct_err_example = to_abi_struct_err toy garbled fails

pub written-IsComplete :
    (nonce call_data signature : Text) → IsComplete (written nonce call_data signature)
written-IsComplete nonce call_data signature = record {
  sender = (text "0xa", refl);
  nonce = (nonce, refl);
  init_code = ([], refl);
  call_data = (call_data, refl);
  call_gas = (text "89128", refl);
  verification_gas = (text "103600", refl);
  pre_verification_gas = (text "21000", refl);
  max_fee_per_gas = (text "180000000000", refl);
  max_priority_fee_per_gas = (text "30000000000", refl);
  paymaster = (text "0x0", refl);
  paymaster_data = (text "/w==", refl);
  signature = (signature, refl);
}

to_abi_struct_of_IsComplete_example :
    (r : Result (Abi.UserOperation Text)) × (to_abi_struct toy garbled ≡ done r)
to_abi_struct_of_IsComplete_example =
    to_abi_struct_of_IsComplete toy garbled
      (written-IsComplete (text "4") (text "AQI") (text "Ag=="))

four_no_numeral : IsNumeral (text "four") → ⊥
four_no_numeral h = ground arith

to_abi_struct_nil_nonce_example :
    (op : Abi.UserOperation Text) × (to_abi_struct toy uncounted ≡ done (ok op)) × (op.nonce ≡ none)
unfolding parse_base64_string decode_string
to_abi_struct_nil_nonce_example =
    to_abi_struct_nil_nonce toy uncounted
      (written-IsComplete (text "four") (text "AQI=") (text "Ag=="))
      (record {
        init_code = ([], [], refl, refl);
        call_data = (text "AQI=", 1 ∷ 2 ∷ [], refl, refl);
        paymaster_data = (text "/w==", 255 ∷ [], refl, refl);
        signature = (text "Ag==", 2 ∷ [], refl, refl);
      })
      (text "four") refl four_no_numeral
