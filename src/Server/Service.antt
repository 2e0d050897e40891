-- ===== src/Server/Service.antt =====
-- The life of the Lambda of bundler/src/main.go: it starts, and answers requests one after another.
use pay_gas_x.Base.{◌≡◌, some, Text, text, ok}
use pay_gas_x.Geth.{Geth}
use pay_gas_x.Host.{Host, State}
use pay_gas_x.Config.Types.{Config}
use pay_gas_x.Config.Decode.Written.{marshal_config}
use pay_gas_x.Abi.Types as Abi
use pay_gas_x.Server.{Sprint}

module _ (g : Geth) (h : Host) (sprint : Sprint) where
  -- What the environment, AWS and the chain's server hold when a process starts.
  pub record Provides (c : Config) (s : State g) : Type 0 where
    pub name : Text
    pub sdk : h.AwsConfig
    pub connection : g.Client
    pub named : h.lookup_env (text "SECRET_NAME") ≡ some name
    pub sdk_loads : h.load_default_config ≡ ok sdk
    pub secret : h.get_secret_value sdk name (text "AWSCURRENT") ≡ ok (some (marshal_config c))
    pub dialled : g.dial c.chain.rpc_server s.node ≡ ok connection
