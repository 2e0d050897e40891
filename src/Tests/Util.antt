-- ===== src/Tests/Util.antt =====
-- The parsers of bundler/src/util/main.go at concrete texts.
use pay_gas_x.Base.{◌≡◌, refl, ◌↔◌, [], ◌∷◌, none, some, text, ok, err}
use pay_gas_x.Base.Int.{ℤ, pos, negsuc}
use pay_gas_x.Base.Decimal.{decimal, scan_onto}
use pay_gas_x.GoLib.Base64.{decode_string}
use pay_gas_x.GoLib.BigInt.{set_string, scan}
use pay_gas_x.Util.{parse_big_int_string, parse_base64_string, corrupt_input_error}
use pay_gas_x.Util.Laws.{IsNumeral, parse_big_int_string_iff}

padding_errors :
    (parse_base64_string (text "AQ=") ≡ err (corrupt_input_error 3))
    × (parse_base64_string (text "AQ=A") ≡ err (corrupt_input_error 2))
    × (parse_base64_string (text "AQ==A") ≡ err (corrupt_input_error 4))
    × (parse_base64_string (text "Aé==") ≡ err (corrupt_input_error 1))
unfolding parse_base64_string decode_string decimal
padding_errors = (refl, refl, refl, refl)

numerals :
    (parse_big_int_string (text "-07") ≡ some (negsuc 6))
    × (parse_big_int_string (text "+12") ≡ some (pos 12))
    × (parse_big_int_string (text "0x10") ≡ none)
    × (parse_big_int_string [] ≡ none)
unfolding parse_big_int_string set_string scan scan_onto
numerals = (refl, refl, refl, refl)

wrapped : parse_base64_string (text "AQ\nI\r\n=") ≡ ok (1 ∷ 2 ∷ [])
unfolding parse_base64_string decode_string
wrapped = refl

parse_big_int_string_iff_example :
    ((z : ℤ) × (parse_big_int_string (text "+12") ≡ some z)) ↔ IsNumeral (text "+12")
parse_big_int_string_iff_example = parse_big_int_string_iff (text "+12")
