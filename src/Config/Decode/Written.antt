-- ===== src/Config/Decode/Written.antt =====
-- The content of a file for `InitFromFile` of bundler/src/config/main.go, as `json.Marshal` writes
-- it.
use pay_gas_x.Base.{
  ok, ◌≤◌, ◌≡◌, refl, ◌∙◌, ap, inl, inr, Option, none, some, Option-cases, Text, text, arith,
}
use pay_gas_x.GoLib.JsonValue.{Json, null, string, object, no_members, member}
use pay_gas_x.GoLib.Print.{print, depth, HasNoNumber}
use pay_gas_x.GoLib.Scanner.{read_json}
use pay_gas_x.GoLib.Scanner.RoundTrip.{read_json-print}
use pay_gas_x.GoLib.Decode.{
  Context, decode_string, decode_pointer, decode_struct, field_of, store_members,
}
use pay_gas_x.Config.Types.{ChainConfig, TestConfig, Config}
use pay_gas_x.Config.Decode.{
  zero_test, zero_config, decode_test, decode_config, decode_read, unmarshal_config,
}

abbrev chain_json : ChainConfig → Json
chain_json c = object (
    member (text "id") (string c.chain_id) (
      member (text "rpc_server") (string c.rpc_server) (
        member (text "secret_key") (string c.secret_key) (
          member (text "entrypoint_contract_address") (string c.entrypoint_contract_address)
            no_members))))

abbrev test_json : Option TestConfig → Json
test_json none = null
test_json (some c) = object (
    member (text "user_secret") (string c.user_secret) (
      member (text "contract_wallet_address") (string c.wallet_contract_address) (
        member (text "erc20_contract_address") (string c.test_erc20_address)
          (member (text "paymaster_address") (string c.paymaster_address) no_members))))

abbrev pub config_json : Config → Json
config_json c = object (
    member (text "chain") (chain_json c.chain) (member (text "test") (test_json c.test) no_members))

unfoldable pub marshal_config : Config → Text
marshal_config c = print (config_json c)

test_decoded :
    (c : Option Context) (t old : Option TestConfig)
    → decode_pointer zero_test decode_test c (test_json t) old ≡ (t, none)
unfolding decode_pointer decode_struct store_members field_of decode_string
test_decoded c none old = refl
test_decoded c (some t) old = refl

config_decoded :
    (c : Config) (old : Option Config)
    → decode_pointer zero_config decode_config none (config_json c) old ≡ (some c, none)
unfolding decode_pointer decode_config decode_struct store_members field_of decode_string
config_decoded c none = simp test_decoded
config_decoded c (some old) = simp test_decoded

depth-config_json : (c : Config) → depth (config_json c) ≤ 2
unfolding depth
depth-config_json c = elim (Option-cases c.test) [
  | inl e ↦ rw e (omega arith)
  | inr (t, e) ↦ rw e (omega arith)
]

test-HasNoNumber : (t : Option TestConfig) → HasNoNumber (test_json t)
unfolding HasNoNumber
test-HasNoNumber none = tt
test-HasNoNumber (some t) = (tt, (tt, (tt, (tt, tt))))

pub config_is_read : (c : Config) → read_json (print (config_json c)) ≡ ok (config_json c)
unfolding HasNoNumber
config_is_read c =
    let l : depth (config_json c) ≤ 10000 = omega (arith, depth-config_json c) in
    let n : HasNoNumber (config_json c) =
      ((tt, (tt, (tt, (tt, tt)))), (test-HasNoNumber c.test, tt)) in
    read_json-print (config_json c) n l

-- A configuration that is written is read as it was, whatever `C` held.
pub unmarshal_config-marshal_config :
    (c : Config) (old : Option Config) → unmarshal_config (marshal_config c) old ≡ (some c, none)
unfolding unmarshal_config decode_read marshal_config
unmarshal_config-marshal_config c old =
    ap (λ r. decode_read r old) (config_is_read c) ∙ config_decoded c old
