-- ===== src/Controller/Responses.antt =====
-- `errorResp` and `successResp` of bundler/src/controller/main.go. Both return a nil error.
use pay_gas_x.Base.{ℕ, ◌++◌, false, List, [], ◌∷◌, Text, text, Result, ok, err}
use pay_gas_x.GoLib.Marshal.{marshal_object}
use pay_gas_x.Controller.Types.{HealthResponse, HandleOpsResponse, Response}

abbrev pub json_headers : List (Text × Text)
json_headers = (text "Content-Type", text "application/json") ∷ []

unfoldable pub error_resp : ℕ → Text → Response
error_resp code body = record {
  status_code = code;
  headers = json_headers;
  body = text "{\"message\": \"" ++ body ++ text "\"}";
  is_base64_encoded = false;
}

-- The two structs that `successResp` is called with.
pub data Body : Type 0 where
  health : HealthResponse → Body
  handled : HandleOpsResponse → Body

-- `json.Marshal` of a struct of strings makes no error.
unfoldable pub marshal : Body → Result Text
marshal (health r) = ok (
    marshal_object (
      (text "hello", r.hello)
      ∷ (text "bundler_eoa", r.bundler_eoa)
      ∷ (text "chain_id", r.chain_id)
      ∷ (text "entrypoint_contract_address", r.entrypoint_contract_address)
      ∷ []))
marshal (handled r) = ok (marshal_object ((text "tx_hash", r.tx_hash) ∷ []))

unfoldable pub success_resp : Body → Response
unfolding marshal
success_resp body = elim (marshal body) [
  | err e ↦ record {
    status_code = 500;
    headers = json_headers;
    body = text "{\"message\": \"failed to marshal response body: " ++ e ++ text "\"}";
    is_base64_encoded = false;
  }
  | ok body_bytes ↦ record {
    status_code = 200;
    headers = json_headers;
    body = body_bytes;
    is_base64_encoded = false;
  }
]
