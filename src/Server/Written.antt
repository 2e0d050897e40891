-- ===== src/Server/Written.antt =====
-- `main` of bundler/src/cmd/standalone/main.go and `init` of bundler/src/main.go, where what they
-- read holds a configuration.
use pay_gas_x.Base.{◌≡◌, none, some, Text, text, ok, done, arith}
use pay_gas_x.Geth.{Geth}
use pay_gas_x.Host.{Host, State}
use pay_gas_x.Config.Types.{Config}
use pay_gas_x.Config.Decode.Written.{marshal_config, unmarshal_config-marshal_config}
use pay_gas_x.Config.Init.{init_from_aws_secret}
use pay_gas_x.Config.Init.Usable.{IsUsable}
use pay_gas_x.Config.Init.Written.{loaded, init_from_file-marshal_config}
use pay_gas_x.Eth as Eth
use pay_gas_x.Server.{init, standalone_main}

module _ (g : Geth) (h : Host) (s : State g) (c : Config) (client : g.Client) where
  -- The standalone program starts, from nothing, on a file in which a configuration is written
  -- whose getters return and whose server answers: `main` returns, and it has stored just this
  -- configuration and the server's client, and printed the bundler's address and the contract's.
  pub standalone_main-marshal_config :
      (u : IsUsable g (some c))
      → s.config ≡ none
      → s.client ≡ none
      → h.read_file (text "config/config.json") ≡ ok (marshal_config c)
      → g.dial c.chain.rpc_server s.node ≡ ok client
      → standalone_main g h s ≡ (done tt, record (loaded g s c u) { client = some client })
  unfolding standalone_main loaded Eth.init
  standalone_main-marshal_config u n m r d =
      let e = init_from_file-marshal_config g h (text "config/config.json") s c u n r in
      ground (arith, e, m, d)

  -- The Lambda starts, without a client, on a secret in which a configuration is written whose
  -- server answers: `init` returns, and it has stored just this configuration, whatever was stored
  -- before, and the server's client.
  pub init-marshal_config :
      (name : Text) (sdk : h.AwsConfig)
      → s.client ≡ none
      → h.lookup_env (text "SECRET_NAME") ≡ some name
      → h.load_default_config ≡ ok sdk
      → h.get_secret_value sdk name (text "AWSCURRENT") ≡ ok (some (marshal_config c))
      → g.dial c.chain.rpc_server s.node ≡ ok client
      → init g h s ≡ (done tt, record s { config = some c; client = some client })
  unfolding init init_from_aws_secret Eth.init
  init-marshal_config name sdk m a b e d =
      ground (arith, a, b, e, unmarshal_config-marshal_config c s.config, m, d)
