-- ===== src/Config/Init/Written.antt =====
-- `InitFromFile` of bundler/src/config/main.go on a file that holds a configuration.
use pay_gas_x.Base.{◌++◌, [], ◌∷◌, ◌≡◌, none, some, Text, text, ok, done, arith}
use pay_gas_x.Geth.{Geth}
use pay_gas_x.Host.{Host, State}
use pay_gas_x.Config.Types.{Config}
use pay_gas_x.Config.Decode.Written.{marshal_config, unmarshal_config-marshal_config}
use pay_gas_x.Config.Getters.{get_bundler_address}
use pay_gas_x.Config.Init.{report, load_file, init_from_file}
use pay_gas_x.Config.Init.Usable.{IsUsable}

module _ (g : Geth) where
  -- The state `s` with the configuration, and with the two lines printed.
  unfoldable pub loaded : (s : State g) (c : Config) → IsUsable g (some c) → State g
  loaded s c u = record s {
    config = some c;
    log =
        (s.log
          ++ (text "Bundler EOA address: " ++ g.address_hex (g.pubkey_to_address u.key_parses.0))
            ∷ [])
        ++ (text "Entrypoint contract address: " ++ g.address_hex u.has_entrypoint.0) ∷ [];
  }

  pub init_from_file-marshal_config :
      (h : Host) (filename : Text) (s : State g) (c : Config) (u : IsUsable g (some c))
      → s.config ≡ none
      → h.read_file filename ≡ ok (marshal_config c)
      → init_from_file g h filename s ≡ (done tt, loaded s c u)
  unfolding init_from_file load_file report get_bundler_address loaded
  init_from_file-marshal_config h filename s c u n r = ground (
    arith,
    n,
    r,
    unmarshal_config-marshal_config c none,
    u.key_parses,
    u.chain_id_parses,
    u.has_entrypoint,
  )
