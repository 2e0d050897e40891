-- ===== src/Host.antt =====
-- What surrounds the process: its files, its environment, the AWS SDK, and the state it keeps.
use pay_gas_x.Base.{Option, List, Text, Result}
use pay_gas_x.Geth.{Geth}
use pay_gas_x.Config.Types.{Config}

pub record Host : Type 1 where
  pub AwsConfig : Type 0
  -- `os`
  pub read_file : Text → Result Text
  pub lookup_env : Text → Option Text
  -- `config.LoadDefaultConfig`
  pub load_default_config : Result AwsConfig
  -- `GetSecretValue` of a client made from the configuration, given the secret's id and the
  -- version's stage. The result is the field `SecretString`.
  pub get_secret_value : AwsConfig → Text → Text → Result (Option Text)

-- The package variables `config.C` and `eth.client`, the node, and the lines printed and logged.
pub record State (g : Geth) : Type 0 where
  pub config : Option Config
  pub client : Option g.Client
  pub node : g.Node
  pub log : List Text
