-- ===== src/Tests/Runs.antt =====
-- Whole runs: a batch that is sent, one that fails its simulation, one that does not parse, and
-- requests that stop earlier. What they show of single functions serves the other tests.
use pay_gas_x.Base.{◌≡◌, refl, List, [], ◌∷◌, Option, Text, text, Result, Outcome, done, panicked}
use pay_gas_x.Host.{State}
use pay_gas_x.Config.Types.{Config}
use pay_gas_x.Config.Decode as Configs
use pay_gas_x.Config.Decode.{decode_config, unmarshal_config}
use pay_gas_x.Config.Getters.{
  nil_dereference, get_chain_id, get_bundler, get_bundler_address, get_entrypoint_contract_address,
}
use pay_gas_x.Util.{parse_address_string, parse_big_int_string, parse_base64_string}
use pay_gas_x.GoLib.Base64.{decode_string}
use pay_gas_x.GoLib.BigInt.{set_string, scan, int_string}
use pay_gas_x.Base.Decimal.{decimal, scan_onto}
use pay_gas_x.Abi.Types as Abi
use pay_gas_x.Abi.EntryPoint.{new_entry_point, bind_entry_point}
use pay_gas_x.Abi.EntryPoint.Transactor
use pay_gas_x.Eth.{simulate, simulate_opts, simulate_signer, adjust_opts}
use pay_gas_x.Eth as Eth
use pay_gas_x.GoLib.Marshal.{marshal_object}
use pay_gas_x.Controller.Types.{UserOperation, HandleOpsRequest, Request, Response}
use pay_gas_x.Controller.ToAbi.{to_abi_struct}
use pay_gas_x.Controller.Responses.{error_resp, success_resp, handled}
use pay_gas_x.Controller.Handlers.{
  parse_ops, parse_failed, simulate_ops, simulation_failed, handle_ops, healthz,
}
use pay_gas_x.Controller.Request.{decode_request, decode_read, unmarshal_request}
use pay_gas_x.Controller.Request.RoundTrip.{marshal_request}
use pay_gas_x.GoLib.Print.{print}
use pay_gas_x.GoLib.Json.{runes}
use pay_gas_x.GoLib.Scanner as Scanner
use pay_gas_x.GoLib.Scanner.{run, at_eof, read_json}
use pay_gas_x.GoLib.Decode as Decode
use pay_gas_x.GoLib.Decode.{
  decode_pointer, decode_slice, decode_struct, field_of, store_items, store_members, type_error,
}
use pay_gas_x.Server.{route, handler}
use pay_gas_x.Tests.Instances.{
  toy, ready, good, unsigned, garbled, senderless, sprint, post, posted,
}

-- `ToABIStruct` over the small chain.
unfoldable pub parsed : UserOperation → Outcome (Result (Abi.UserOperation Text))
unfolding to_abi_struct parse_address_string parse_big_int_string parse_base64_string decode_string
    set_string scan scan_onto decimal
parsed = to_abi_struct toy

-- `eth.Simulate` and `eth.HandleOps`.
unfoldable pub simulates : Abi.UserOperation Text → State toy → Outcome (Option Text) × State toy
unfolding simulate simulate_opts simulate_signer get_chain_id get_bundler
    get_entrypoint_contract_address new_entry_point bind_entry_point Transactor.simulate_validation
    set_string scan scan_onto
simulates = simulate toy

unfoldable pub sends : List (Abi.UserOperation Text) → State toy → Outcome (Result Text) × State toy
unfolding Eth.handle_ops adjust_opts get_chain_id get_bundler get_bundler_address
    get_entrypoint_contract_address new_entry_point bind_entry_point Transactor.handle_ops
    set_string scan scan_onto
sends = Eth.handle_ops toy

-- A body is read.
unfoldable pub reads_body : Text → Result HandleOpsRequest
unfolding unmarshal_request decode_read read_json run Scanner.scan at_eof decode_request
    Decode.decode_string decode_pointer decode_slice decode_struct field_of store_items
    store_members type_error runes
reads_body = unmarshal_request

-- `json.Unmarshal` of a configuration.
unfoldable pub reads_config : Text → Option Config → Option Config × Option Text
unfolding unmarshal_config Configs.decode_read read_json run Scanner.scan at_eof decode_config
    Decode.decode_string decode_pointer decode_struct field_of store_members type_error runes
reads_config = unmarshal_config

-- `controller.HandleOps`.
unfoldable pub handles : Request → State toy → Outcome Response × State toy
unfolding handle_ops parse_ops parse_failed parsed simulate_ops simulation_failed simulates sends
    reads_body marshal_request print
handles = handle_ops toy

unfoldable pub serves : Request → State toy → Outcome Response × State toy
unfolding handler route handles
serves = handler toy sprint

pub good_answered : handles (post (good ∷ [])) ready ≡ (
  done (success_resp (handled (record { tx_hash = text "handleOpsk" }))),
  record ready { node = 1 },
)
unfolding handles
good_answered = refl

pub unsigned_answered : handles (post (good ∷ unsigned ∷ [])) ready ≡ (
  done (error_resp 400 (text "failed to simulate user operation #1: account: wrong signature")),
  record ready { log = text "Simulation failed. Error: account: wrong signature" ∷ [] },
)
unfolding handles
unsigned_answered = refl

pub garbled_answered : handles (post (good ∷ garbled ∷ [])) ready ≡ (
  done (
      error_resp 400 (
        text
          "failed to parse user operation #1: failed to parse call data: illegal base64 data at input byte 0")),
  ready,
)
unfolding handles
garbled_answered = refl

empty_answered :
    handles (post []) ready ≡ (done (error_resp 400 (text "no user operations")), ready)
unfolding handles
empty_answered = refl

undecoded_answered : handles (posted []) ready ≡ (
  done (error_resp 400 (text "failed to parse request body: unexpected end of JSON input")),
  ready,
)
unfolding handles
undecoded_answered = refl

-- A missing field is a panic, and a nonce that is no numeral is accepted.
senderless_panics : parsed senderless ≡ panicked nil_dereference
unfolding parsed
senderless_panics = refl

pub health : Request
health = record { path_parameters = (text "proxy", text "healthz") ∷ []; body = [] }

health_answered : serves health ready ≡ (
  done (record (success_resp (handled (record { tx_hash = [] }))) {
    body =
        text
          "{\"hello\":\"bundler\",\"bundler_eoa\":\"0xk\",\"chain_id\":\"80001\",\"entrypoint_contract_address\":\"0xe\"}";
  }),
  ready,
)
unfolding serves health healthz success_resp marshal_object get_bundler_address int_string decimal
health_answered = refl
