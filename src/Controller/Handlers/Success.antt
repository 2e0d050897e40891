-- ===== src/Controller/Handlers/Success.antt =====
-- What an answer 200 of `HandleOps` in bundler/src/controller/main.go stands for.
use pay_gas_x.Base.{◌≡◌, inl, inr, Text, ok, done, arith}
use pay_gas_x.Geth.{Geth}
use pay_gas_x.Host.{State}
use pay_gas_x.Eth.Frame.{NoSend}
use pay_gas_x.Eth.Sent.{SentBy, handle_ops-SentBy}
use pay_gas_x.Controller.Types.{HandleOpsRequest, Request, Response}
use pay_gas_x.Controller.Request.{unmarshal_request}
use pay_gas_x.Controller.Responses.{error_resp, success_resp, handled}
use pay_gas_x.Controller.Handlers.{AbiOps, handle_ops}
use pay_gas_x.Controller.Handlers.Parse.{Parsed}
use pay_gas_x.Controller.Handlers.Simulation.{Simulated}
use pay_gas_x.Controller.Handlers.Answers.{
  no_operations, not_parsed, rejected, not_sent, sent, handle_ops-Answers,
}
use pay_gas_x.Controller.Handlers.Safety.{node-Simulated}

module _ (g : Geth) (law : NoSend g) (request : Request) (s t : State g) where
  -- The whole way from the body of the request to the hash in the response.
  pub record Succeeds (r : Response) : Type 0 where
    pub req : HandleOpsRequest
    pub ops : AbiOps g
    pub simulated_to : State g
    pub tx_hash : Text
    pub decoded : unmarshal_request request.body ≡ ok req
    pub parsed : Parsed g req.user_operations ops
    pub simulated : Simulated g s ops simulated_to
    pub unsent_before : simulated_to.node ≡ s.node
    pub sent : SentBy g simulated_to ops tx_hash t
    pub answered : r ≡ success_resp (handled (record { tx_hash = tx_hash }))

  -- An answer 200 means that every operation of the body parsed and passed its simulation, that
  -- nothing was sent until then, and that one call of `handleOps` with these operations was made,
  -- whose hash is the answer. `NoSend` is assumed to keep transactions from the node.
  pub handle_ops-Succeeds :
      (r : Response) → handle_ops g request s ≡ (done r, t) → r.status_code ≡ 200 → Succeeds r
  handle_ops-Succeeds r h c = elim (handle_ops-Answers g request s t r h) [
    | inl (e, p, q, n) ↦ absurd (unfold error_resp in ground arith)
    | inr (req, p, no_operations x y z) ↦ absurd (unfold error_resp in ground arith)
    | inr (req, p, not_parsed k e f y z) ↦ absurd (unfold error_resp in ground arith)
    | inr (req, p, rejected ops k e q f y) ↦ absurd (unfold error_resp in ground arith)
    | inr (req, p, not_sent ops u e q f y z) ↦ absurd (unfold error_resp in ground arith)
    | inr (req, p, sent ops u tx_hash q f y z) ↦ record {
      req = req;
      ops = ops;
      simulated_to = u;
      tx_hash = tx_hash;
      decoded = p;
      parsed = q;
      simulated = f;
      unsent_before = node-Simulated g law ops s u f;
      sent = handle_ops-SentBy g ops u t y;
      answered = z;
    }
  ]
