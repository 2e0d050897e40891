-- ===== src/Controller/Handlers/Cut.antt =====
-- A body that is cut short, for `HandleOps` of bundler/src/controller/main.go.
use pay_gas_x.Base.{◌++◌, ◌≡◌, ◌≢◌, ◌∙◌, ap, [], Text, text, err, done, arith}
use pay_gas_x.GoLib.Scanner.Refused.{print-cut}
use pay_gas_x.Geth.{Geth}
use pay_gas_x.Host.{State}
use pay_gas_x.Controller.Types.{HandleOpsRequest, Request}
use pay_gas_x.Controller.Request.{unmarshal_request, decode_read}
use pay_gas_x.Controller.Request.RoundTrip.{request_json, marshal_request, request_is_read}
use pay_gas_x.Controller.Responses.{error_resp}
use pay_gas_x.Controller.Handlers.{handle_ops}

unmarshal_request-cut :
    (req : HandleOpsRequest) (p q : Text)
    → marshal_request req ≡ p ++ q
    → q ≢ []
    → (e : Text) × (unmarshal_request p ≡ err e)
unfolding unmarshal_request decode_read marshal_request
unmarshal_request-cut req p q e n =
    let (m, r) = print-cut _ p q (request_json req) (request_is_read req) e n in
    (m, ap decode_read r)

module _ (g : Geth) where
  -- A request that is written and then cut short at its end, anywhere, is answered 400 with an error
  -- of parsing, and nothing else happens: no shorter batch is read from what is left.
  pub handle_ops-cut :
      (req : HandleOpsRequest) (p q : Text) (request : Request) (s : State g)
      → marshal_request req ≡ p ++ q
      → q ≢ []
      → request.body ≡ p
      → (e : Text) × (handle_ops g request s
          ≡ (done (error_resp 400 (text "failed to parse request body: " ++ e)), s))
  unfolding handle_ops
  handle_ops-cut req p q request s e n b =
      let (m, r) = unmarshal_request-cut req p q e n in
      (m, ground (arith, ap unmarshal_request b ∙ r))
