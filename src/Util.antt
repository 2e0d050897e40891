-- ===== src/Util.antt =====
-- The parsers of bundler/src/util/main.go.
pub mod Laws
use pay_gas_x.Base.{ℕ, ◌++◌, List, Option, Text, text, Result, ok, err}
use pay_gas_x.Base.Int.{ℤ}
use pay_gas_x.Base.Decimal.{decimal}
use pay_gas_x.GoLib.Base64.{decode_string, bytes, corrupt}
use pay_gas_x.GoLib.BigInt.{set_string}
use pay_gas_x.Geth.{Geth}

-- `ParseAddressString`
unfoldable pub parse_address_string : (g : Geth) → Text → g.Address
parse_address_string g addr = g.hex_to_address addr

-- `ParseBigIntString`; nil is `none`.
unfoldable pub parse_big_int_string : Text → Option ℤ
parse_big_int_string bint = set_string bint

-- The text of a `base64.CorruptInputError`.
abbrev pub corrupt_input_error : ℕ → Text
corrupt_input_error i = text "illegal base64 data at input byte " ++ decimal i

-- `ParseBase64String`. The bytes before an error are dropped, as the callers do.
unfoldable pub parse_base64_string : Text → Result (List ℕ)
parse_base64_string b64 = elim (decode_string b64) [
  | bytes out ↦ ok out
  | corrupt i ↦ err (corrupt_input_error i)
]
