-- ===== src/Config/Init/Cut.antt =====
-- A file that is cut short, for `InitFromFile` of bundler/src/config/main.go.
use pay_gas_x.Base.{◌++◌, ◌≡◌, ◌≢◌, ap, [], none, some, Text, text, ok, panicked, arith}
use pay_gas_x.GoLib.Scanner.Refused.{print-cut}
use pay_gas_x.Geth.{Geth}
use pay_gas_x.Host.{Host, State}
use pay_gas_x.Config.Types.{Config}
use pay_gas_x.Config.Decode.{decode_read, unmarshal_config}
use pay_gas_x.Config.Decode.Written.{config_json, marshal_config, config_is_read}
use pay_gas_x.Config.Init.{load_file, init_from_file}

unmarshal_config-cut :
    (c : Config) (p q : Text)
    → marshal_config c ≡ p ++ q
    → q ≢ []
    → (e : Text) × (unmarshal_config p none ≡ (none, some e))
unfolding unmarshal_config decode_read marshal_config
unmarshal_config-cut c p q e n =
    let (m, r) = print-cut _ p q (config_json c) (config_is_read c) e n in
    (m, ap (λ x. decode_read x none) r)

module _ (g : Geth) (h : Host) where
  -- A file in which a configuration is written, cut short at its end, anywhere, is not loaded: the
  -- process panics with an error of parsing, and no configuration is stored.
  pub init_from_file-cut :
      (c : Config) (p q filename : Text) (s : State g)
      → marshal_config c ≡ p ++ q
      → q ≢ []
      → s.config ≡ none
      → h.read_file filename ≡ ok p
      → (e : Text) × (init_from_file g h filename s
          ≡ (panicked (text "Error parsing config file: " ++ e), s))
  unfolding init_from_file load_file
  init_from_file-cut c p q filename s e n m f =
      let (x, r) = unmarshal_config-cut c p q e n in (x, ground (arith, r, m, f))
