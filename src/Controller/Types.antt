-- ===== src/Controller/Types.antt =====
-- The structs of bundler/src/controller/main.go, and those of the AWS events that it uses.
use pay_gas_x.Base.{ℕ, Bool, List, Option, Text}

pub record HealthResponse : Type 0 where
  pub hello : Text
  pub bundler_eoa : Text
  pub chain_id : Text
  pub entrypoint_contract_address : Text

-- `UserOperation`; a `*string` is `none` where the field is missing or null.
pub record UserOperation : Type 0 where
  pub sender : Option Text
  pub nonce : Option Text
  pub init_code : Option Text
  pub call_data : Option Text
  pub call_gas : Option Text
  pub verification_gas : Option Text
  pub pre_verification_gas : Option Text
  pub max_fee_per_gas : Option Text
  pub max_priority_fee_per_gas : Option Text
  pub paymaster : Option Text
  pub paymaster_data : Option Text
  pub signature : Option Text

pub record HandleOpsRequest : Type 0 where
  pub user_operations : List UserOperation

pub record HandleOpsResponse : Type 0 where
  pub tx_hash : Text

-- What the bundler reads of an `events.APIGatewayProxyRequest`.
pub record Request : Type 0 where
  pub path_parameters : List (Text × Text)
  pub body : Text

-- What it sets of an `events.APIGatewayProxyResponse`.
pub record Response : Type 0 where
  pub status_code : ℕ
  pub headers : List (Text × Text)
  pub body : Text
  pub is_base64_encoded : Bool
