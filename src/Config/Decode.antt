-- ===== src/Config/Decode.antt =====
-- `json.Unmarshal` of a text into the package variable `C` of bundler/src/config/main.go.
pub mod Written
use pay_gas_x.Base.{Result, [], ◌∷◌, Option, none, some, Text, text, ok, err}
use pay_gas_x.GoLib.JsonValue.{Json}
use pay_gas_x.GoLib.Scanner.{read_json}
use pay_gas_x.GoLib.Decode.{Decoder, Field, decode_string, decode_pointer, decode_struct}
use pay_gas_x.Config.Types.{ChainConfig, TestConfig, Config}

abbrev pub zero_chain : ChainConfig
zero_chain = record {
  chain_id = [];
  rpc_server = [];
  secret_key = [];
  entrypoint_contract_address = [];
}

abbrev pub zero_test : TestConfig
zero_test = record {
  user_secret = [];
  wallet_contract_address = [];
  test_erc20_address = [];
  paymaster_address = [];
}

abbrev pub zero_config : Config
zero_config = record { chain = zero_chain; test = none }

-- A field, by how its variable is read and set.
abbrev field : {A B : Type 0} → Text → Decoder B → (A → B) → (B → A → A) → Field A
field name decode get set = record {
  name = name;
  store = λ c v a. let (b, e) = decode c v (get a) in (set b a, e);
}

-- The fields of the three structs by their `json` tags.
abbrev pub decode_chain : Decoder ChainConfig
decode_chain =
    decode_struct (text "ChainConfig")
      (field (text "id") decode_string (λ a. a.chain_id) (λ b a. record a { chain_id = b })
        ∷ field (text "rpc_server") decode_string (λ a. a.rpc_server)
            (λ b a. record a { rpc_server = b })
        ∷ field (text "secret_key") decode_string (λ a. a.secret_key)
            (λ b a. record a { secret_key = b })
        ∷ field (text "entrypoint_contract_address") decode_string
            (λ a. a.entrypoint_contract_address)
            (λ b a. record a { entrypoint_contract_address = b })
        ∷ [])
      (text "config.ChainConfig")

abbrev pub decode_test : Decoder TestConfig
decode_test =
    decode_struct (text "TestConfig")
      (field (text "user_secret") decode_string (λ a. a.user_secret)
          (λ b a. record a { user_secret = b })
        ∷ field (text "contract_wallet_address") decode_string (λ a. a.wallet_contract_address)
            (λ b a. record a { wallet_contract_address = b })
        ∷ field (text "erc20_contract_address") decode_string (λ a. a.test_erc20_address)
            (λ b a. record a { test_erc20_address = b })
        ∷ field (text "paymaster_address") decode_string (λ a. a.paymaster_address)
            (λ b a. record a { paymaster_address = b })
        ∷ [])
      (text "config.TestConfig")

unfoldable pub decode_config : Decoder Config
decode_config =
    decode_struct (text "Config")
      (field (text "chain") decode_chain (λ a. a.chain) (λ b a. record a { chain = b })
        ∷ field (text "test") (decode_pointer zero_test decode_test) (λ a. a.test)
            (λ b a. record a { test = b })
        ∷ [])
      (text "config.Config")

-- `json.Unmarshal` where the content is read, and where it is not.
unfoldable pub decode_read : Result Json → Option Config → Option Config × Option Text
unfolding decode_config
decode_read (err e) c = (c, some e)
decode_read (ok v) c = decode_pointer zero_config decode_config none v c

-- What `json.Unmarshal(content, &C)` leaves in `C`, and its error.
unfoldable pub unmarshal_config : Text → Option Config → Option Config × Option Text
unfolding decode_read
unmarshal_config content = decode_read (read_json content)
