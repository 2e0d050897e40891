-- ===== src/Controller/Handlers/Batch.antt =====
-- From the operations that a client means to what `HandleOps` of bundler/src/controller/main.go
-- does with them.
use pay_gas_x.Base.{map}
use pay_gas_x.Geth.{Geth}
use pay_gas_x.Abi.Types as Abi
use pay_gas_x.Controller.Types.{Request}
use pay_gas_x.Controller.Request.RoundTrip.{marshal_request}
use pay_gas_x.Controller.ToAbi.RoundTrip.{request_of}
use pay_gas_x.Controller.Handlers.{AbiOps}

module _ (g : Geth) where
  -- The request of a client with such operations: JSON, with hexadecimal addresses, decimal numbers
  -- and base64 bytes.
  unfoldable pub written : AbiOps g → Request → Request
  written ops request = record request {
    body = marshal_request (record { user_operations = map (request_of g) ops });
  }
