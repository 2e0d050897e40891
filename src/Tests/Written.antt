-- ===== src/Tests/Written.antt =====
-- Requests and configurations as `json.Marshal` writes them.
use pay_gas_x.Base.{◌++◌, Text, panicked, arith, ◌≡◌, refl, [], ◌∷◌, some, text, ok, done}
use pay_gas_x.Host.{Host}
use pay_gas_x.Config.Decode.Written.{marshal_config}
use pay_gas_x.Config.Init.{init_from_file}
use pay_gas_x.Config.Init.Cut.{init_from_file-cut}
use pay_gas_x.GoLib.Print.{print}
use pay_gas_x.Config.Init.Written.{loaded}
use pay_gas_x.Controller.Types.{HandleOpsRequest}
use pay_gas_x.Controller.Request.{zero_operation, unmarshal_request}
use pay_gas_x.Controller.Responses.{error_resp}
use pay_gas_x.Controller.Handlers.Cut.{handle_ops-cut}
use pay_gas_x.Controller.Request.RoundTrip.{marshal_request, unmarshal_request-marshal_request}
use pay_gas_x.Controller.Handlers.{handle_ops}
use pay_gas_x.Server.{init, standalone_main}
use pay_gas_x.Server.Written.{standalone_main-marshal_config, init-marshal_config}
use pay_gas_x.Tests.Instances.{toy, config, fresh, ready, host, good, senderless, posted}
use pay_gas_x.Tests.Config.{usable}

abbrev two : HandleOpsRequest
two = record { user_operations = good ∷ senderless ∷ [] }

unmarshal_request-marshal_request_example : unmarshal_request (marshal_request two) ≡ ok two
unmarshal_request-marshal_request_example = unmarshal_request-marshal_request two

-- The file and the secret hold the configuration.
abbrev stored : Host
stored = record host {
  read_file = λ f. ok (marshal_config config);
  get_secret_value = λ c n v. ok (some (marshal_config config));
}

standalone_main-marshal_config_example :
    standalone_main toy stored fresh
    ≡ (done tt, record (loaded toy fresh config usable) { client = some (text "rpc") })
standalone_main-marshal_config_example =
    standalone_main-marshal_config toy stored fresh config (text "rpc") usable refl refl refl refl

init-marshal_config_example : init toy stored fresh ≡ (done tt, ready)
init-marshal_config_example =
    init-marshal_config toy stored fresh config (text "rpc") (text "secret") tt refl refl refl refl
      refl

-- A body and a file, each in two parts.
abbrev one : HandleOpsRequest
one = record { user_operations = record zero_operation { sender = some (text "0xa") } ∷ [] }

abbrev body_start : Text
body_start =
    text "{\"user_operations\":[{\"sender\":\"0xa\",\"nonce\":null,\"init_code\""
    ++ text ":null,\"call_data\":null,\"call_gas\":null,"

abbrev body_end : Text
body_end =
    text "\"verification_gas\":null,\"pre_verification_gas\":null,\"max_fee"
    ++ text "_per_gas\":null,\"max_priority_fee_per_gas\":null,\"paymaster\":n"
    ++ text "ull,\"paymaster_data\":null,\"signature\":null}]}"

handle_ops-cut_example :
    (e : Text) × (handle_ops toy (posted body_start) ready
      ≡ (done (error_resp 400 (text "failed to parse request body: " ++ e)), ready))
unfolding marshal_request print
handle_ops-cut_example =
    handle_ops-cut toy one body_start body_end (posted body_start) ready refl (λ e. ground arith)
      refl

abbrev file_start : Text
file_start =
    text "{\"chain\":{\"id\":\"80001\",\"rpc_server\":\"rpc\",\"secret_key\":\"k\",\""
    ++ text "entrypoint_contract_address\":\"0xe\"}"

abbrev broken : Host
broken = record host { read_file = λ f. ok file_start }

init_from_file-cut_example :
    (e : Text) × (init_from_file toy broken (text "config.json") fresh
      ≡ (panicked (text "Error parsing config file: " ++ e), fresh))
unfolding marshal_config print
init_from_file-cut_example =
    init_from_file-cut toy broken config file_start (text ",\"test\":null}") (text "config.json")
      fresh refl (λ e. ground arith) refl refl
