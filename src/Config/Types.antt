-- ===== src/Config/Types.antt =====
-- The configuration of bundler/src/config/main.go.
use pay_gas_x.Base.{Option, Text}

pub record ChainConfig : Type 0 where
  pub chain_id : Text
  pub rpc_server : Text
  pub secret_key : Text
  pub entrypoint_contract_address : Text

pub record TestConfig : Type 0 where
  pub user_secret : Text
  pub wallet_contract_address : Text
  pub test_erc20_address : Text
  pub paymaster_address : Text

pub record Config : Type 0 where
  pub chain : ChainConfig
  pub test : Option TestConfig
