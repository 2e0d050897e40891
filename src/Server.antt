-- ===== src/Server.antt =====
-- bundler/src/main.go, the Lambda, and bundler/src/cmd/standalone/main.go.
pub mod Laws
pub mod Starts
pub mod Written
pub mod Service
use pay_gas_x.Base.{
  ◌++◌, List, [], ◌∷◌, false, Option, none, some, Text, text, text_eq, M, return, ◌>>◌,
  if◌then◌else◌,
}
use pay_gas_x.Geth.{Geth}
use pay_gas_x.Host.{Host, State}
use pay_gas_x.Config.Init.{init_from_file, init_from_aws_secret}
use pay_gas_x.Eth as Eth
use pay_gas_x.Controller.Types.{Request, Response}
use pay_gas_x.Controller.Handlers as Handlers

-- A read of a map.
abbrev pub lookup : Text → List (Text × Text) → Option Text
lookup k [] = none
lookup k ((j, v) ∷ m) = if text_eq j k then some v else lookup k m

abbrev pub bad_request : Response
bad_request = record {
  status_code = 400;
  headers = [];
  body = text "Bad Request";
  is_base64_encoded = false;
}

-- The answer to a request that no case of the `switch` takes, given its print by `%v`.
abbrev pub not_found : Text → Response
not_found request = record {
  status_code = 404;
  headers = [];
  body = text "Not Found for request " ++ request ++ text ".";
  is_base64_encoded = false;
}

-- `fmt.Sprintf("%v", request)`, which prints fields of the event that nothing here reads.
abbrev pub Sprint : Type 0
Sprint = Request → Text

module _ (g : Geth) where
  -- The `switch` on the path.
  unfoldable pub route : Sprint → Text → Request → M (State g) Response
  route sprint path request =
      if text_eq path (text "healthz")
      then Handlers.healthz g request
      else if text_eq path (text "handle")
      then Handlers.handle_ops g request
      else return (not_found (sprint request))

  unfoldable pub handler : Sprint → Request → M (State g) Response
  handler sprint request = elim (lookup (text "proxy") request.path_parameters) [
    | none ↦ return bad_request
    | some path ↦ route sprint path request
  ]

  -- `init` of the Lambda and `main` of the standalone program.
  unfoldable pub init : Host → M (State g) (Unit {0})
  init h = init_from_aws_secret g h >> Eth.init g

  unfoldable pub standalone_main : Host → M (State g) (Unit {0})
  standalone_main h = init_from_file g h (text "config/config.json") >> Eth.init g
